-- ===== src/Bridge.antt =====
-- Co-simulation over a socket: the request and response bridge (hw/rust/common/virtmcu-qom/src/cosim.rs)
-- and the MMIO socket bridge that uses it (hw/rust/backbone/mmio-socket-bridge/src/lib.rs).
pub mod Arrivals
pub mod Cosim
pub mod Latest
pub mod Mmio
pub mod Session
