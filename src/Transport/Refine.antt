-- ===== src/Transport/Refine.antt =====
-- The functions of src/upnp_transport.c against Player, by the simulation: helpers, handlers, requests
-- and the start.
pub mod Effects
pub mod Instance
pub mod Handlers
pub mod Getters
pub mod Setters
pub mod Requests
pub mod Start
