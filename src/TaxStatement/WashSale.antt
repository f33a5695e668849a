-- ===== src/TaxStatement/WashSale.antt =====
-- The rule on homogeneous securities, src/tax_statement/spain/wash_sale.rs: a loss on shares that
-- are bought back within two months is deferred until the shares that block it are sold.
pub mod Data
pub mod Release
pub mod Matching
pub mod Boundaries
pub mod Engine
pub mod Conservation
pub mod Draws
pub mod Sums
pub mod Capacity
pub mod Buckets
pub mod Deferral
pub mod Placed
pub mod Shares
pub mod Replayed
