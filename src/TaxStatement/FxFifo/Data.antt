-- ===== src/TaxStatement/FxFifo/Data.antt =====
-- The records of src/tax_statement/fx_fifo.rs, and `ForeignCashFlow` of
-- src/broker_statement/interest.rs. Dates are a parameter: the engine only carries them.
use investments.Base.{String, Option, List}

pub record Lot (Date D : Type 0) : Type 0 where
  pub qty : D
  pub rate : D
  pub date : Date

pub record FxRealization (Date D : Type 0) : Type 0 where
  pub date : Date
  pub acquisition_date : Date
  pub amount : D
  pub activity_code : String

pub data FxLedgerKind (Date D : Type 0) : Type 0 where
  acquisition : FxLedgerKind Date D
  disposal repayment : Date → D → D → FxLedgerKind Date D

pub record FxLedgerRow (Date D : Type 0) : Type 0 where
  pub date : Date
  pub transaction_id : String
  pub activity_code : String
  pub units : D
  pub rate : D
  pub kind : FxLedgerKind Date D
  pub balance_after : D

pub record CurrencyFxResult (Date D : Type 0) : Type 0 where
  pub currency : String
  pub taxable : List (FxRealization Date D)
  pub non_taxable : List (FxRealization Date D)
  pub ledger : List (FxLedgerRow Date D)

pub record OpeningLot (Date D : Type 0) : Type 0 where
  pub currency : String
  pub quantity : D
  pub eur_per_unit : D
  pub date : Date

-- `ForeignCashFlow` of src/broker_statement/interest.rs.
pub record ForeignCashFlow (Date D : Type 0) : Type 0 where
  pub currency : String
  pub date : Date
  pub transaction_id : String
  pub activity_code : String
  pub amount : D
  pub balance : D
  pub eur_execution : Option D
