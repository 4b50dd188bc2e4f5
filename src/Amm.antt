-- ===== src/Amm.antt =====
-- ghost_amm/amm: inventory, quote surface and the projection of quotes onto virtual orders.
pub mod Inventory
pub mod QuoteSurface
pub mod OrderId
pub mod Projector
