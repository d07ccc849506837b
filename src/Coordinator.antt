-- ===== src/Coordinator.antt =====
-- tools/deterministic_coordinator: the process that holds all nodes at a quantum boundary and
-- delivers their messages in one canonical order.
pub mod Protocol
pub mod Message
pub mod Barrier
pub mod Codec
pub mod Log
pub mod Topology
pub mod Topics
pub mod Delivery
pub mod Server
