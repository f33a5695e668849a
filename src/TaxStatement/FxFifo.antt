-- ===== src/TaxStatement/FxFifo.antt =====
-- The results on foreign currency, first in first out per currency, src/tax_statement/fx_fifo.rs.
pub mod Accounts
pub mod Registered
pub mod Data
pub mod Loop
pub mod Inventory
pub mod Balance
pub mod Crossing
pub mod Opened
pub mod Movements
pub mod Opening
pub mod Order
pub mod Replay
pub mod Run
pub mod Flows
pub mod Settlement
