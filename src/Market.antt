-- ===== src/Market.antt =====
-- ghost_amm/market: order book, fair price and shock detection.
pub mod OrderBook
pub mod FairPrice
pub mod FairEngine
pub mod Shock
