-- ===== src/Coordinator/Server.antt =====
-- tools/deterministic_coordinator/src/main.rs: the loop of `run_deterministic_coordinator`, one
-- function for each kind of sample that it receives. The loop handles one sample at a time, so a
-- sample's effect is the next state and the puts. Zenoh, JSON and FlatBuffers are parameters.
pub mod Unpack
pub mod Legacy
pub mod Done
pub mod Batches
pub mod InStep
