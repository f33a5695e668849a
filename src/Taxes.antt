-- ===== src/Taxes.antt =====
-- The tax engine, src/taxes.
pub mod Germany
pub mod Rates
pub mod Calculator
pub mod LongTermOwnership
pub mod Spain
