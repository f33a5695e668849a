-- ===== src/TaxStatement/Germany.antt =====
-- The German tax statement, src/tax_statement/germany: its entries, the totals of a year, and the
-- routing of foreign currency results.
pub mod Entries
pub mod Totals
pub mod Kap
pub mod Statement
pub mod Processor
