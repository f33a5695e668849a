-- ===== src/BrokerStatement.antt =====
-- The statement of a broker, src/broker_statement/: its trades, its stock splits, and the closing of
-- positions, first in first out.
pub mod Trades
pub mod StockSplits
pub mod Processing
