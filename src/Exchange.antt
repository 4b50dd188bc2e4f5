-- ===== src/Exchange.antt =====
-- ghost_amm/exchange: what the code knows of the exchange bitbank.
pub mod BitbankRules
