-- ===== src/Tests.antt =====
-- Runs of the model on concrete inputs, and each theorem applied at one.
mod Actuator
mod Barrier
mod Wire
mod Topology
mod Unix
mod Bridge
mod Clock
mod Delivery
mod Zenoh
mod Lpuart
mod Resd
