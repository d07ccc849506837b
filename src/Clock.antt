-- ===== src/Clock.antt =====
-- hw/rust/backbone/clock/src/lib.rs: the clock of a node, which holds the guest at each quantum
-- boundary until the time authority grants the next quantum. Two threads share the backend: the
-- vCPU, which calls the halt hook, and the worker, which serves the time authority.
pub mod Backend
pub mod Vcpu
pub mod Worker
pub mod System
pub mod Handshake
pub mod Races
pub mod Boundary
pub mod Watchdog
pub mod Shutdown
pub mod Ledger
pub mod Starts
pub mod Answers
