-- ===== src/Replay.antt =====
-- ghost_amm/replay: the fill model and the replay engine.
pub mod FillModel
pub mod Files
pub mod Engine
