-- ===== src/ZenohCoordinator.antt =====
-- tools/zenoh_coordinator: the older coordinator, whose nodes are names and whose barrier keeps any
-- number of future quanta.
pub mod Message
pub mod Barrier
pub mod Topology
