-- ===== src/TaxStatement.antt =====
-- The engines of the tax statements, src/tax_statement.
pub mod FxFifo
pub mod Germany
pub mod WashSale
