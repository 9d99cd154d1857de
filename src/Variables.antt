-- ===== src/Variables.antt =====
-- src/variable-container.c: the state variables of a service, the builder of LastChange documents
-- and the collector that turns changes of variables into LastChange events.
pub mod Mask
pub mod Builder
pub mod Model
pub mod Change
pub mod Document
pub mod Collector
pub mod Quiet
pub mod Frame
pub mod Nesting
pub mod Locking
pub mod Writes
pub mod Transaction
pub mod View
