-- ===== src/Risk.antt =====
-- ghost_amm/risk: the risk kernel.
pub mod Kernel
pub mod Checks
pub mod Evaluate
pub mod Cooldown
mod Tests
