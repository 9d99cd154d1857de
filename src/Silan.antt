-- ===== src/Silan.antt =====
-- src/output_silan.c: the output module that drives the media player of the Silan board.
pub mod Model
pub mod Commands
pub mod Player
pub mod Watch
pub mod Start
pub mod Refine
pub mod Session
