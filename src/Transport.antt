-- ===== src/Transport.antt =====
-- src/upnp_transport.c: the AVTransport service.
pub mod Table
pub mod Model
pub mod Actions
pub mod Player
pub mod Simulation
pub mod Refine
pub mod Request
pub mod Setup
pub mod Consistency
pub mod Session
pub mod Moves
pub mod Reach
pub mod Feedback
pub mod Failure
