-- ===== src/Execution.antt =====
-- ghost_amm/execution: order intents and the gates of live orders.
pub mod LiveGates
