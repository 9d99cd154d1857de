-- ===== src/Silan/Refine.antt =====
-- What the functions of src/output_silan.c keep and bring about.
pub mod Safe
pub mod Amplifier
pub mod Player
pub mod Watch
pub mod Posting
pub mod Waiting
pub mod Streams
pub mod Start
pub mod Automatic
pub mod Hearing
pub mod Volume
