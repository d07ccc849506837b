-- ===== src/Lpuart.antt =====
-- hw/rust/mcu/s32k144-lpuart/src/lib.rs: the S32K144 LPUART. The handlers run under QEMU's lock, one
-- at a time, so each is a function on the device; the registers are `u32`, and what a handler does
-- to the outside (interrupt line, timers, published frames) is kept in the state.
pub mod Device
pub mod Mmio
pub mod Timers
pub mod Bits
pub mod Flags
pub mod Receive
pub mod Reset
pub mod Transmit
