-- ===== src/Resd.antt =====
-- tools/cyber_bridge/src/resd_parser.rs: recorded sensor data, read from a RESD file and played back
-- by virtual time.
pub mod Sensor
pub mod Parser
pub mod Blocks
pub mod Bracket
pub mod Ending
pub mod Reads
pub mod Cycle
pub mod RoundTrip
