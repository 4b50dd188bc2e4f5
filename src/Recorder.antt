-- ===== src/Recorder.antt =====
-- ghost_amm/recorder: what is written of a recording, and what is read off it.
pub mod JsonlWriter
pub mod Inspection
pub mod Status
pub mod Split
