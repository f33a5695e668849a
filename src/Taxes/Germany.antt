-- ===== src/Taxes/Germany.antt =====
-- German tax rules, src/taxes/germany.
pub mod LossCarryforward
pub mod Rates
pub mod Vorabpauschale
pub mod Teilfreistellung
