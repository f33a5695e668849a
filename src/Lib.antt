-- ===== src/Lib.antt =====
-- The models and proofs of the tax core of the program.
--
-- The program reads the statements of brokers, converts them into trades, dividends, interest and
-- cash flows, and computes what its user owes in taxes. This library models the part that turns
-- amounts into taxes, src/taxes, the closing of positions in src/broker_statement, the German statement, the results
-- in foreign currencies and the deferred losses of src/tax_statement, and the helpers for amounts,
-- currencies and periods.
--
-- - Base: shared names. Base.Tests has the Boolean tests, the conditional and the result type of
--   fallible functions; Base.Int the integers, for years; Base.YearMap a `BTreeMap` keyed by years,
--   as the list of its entries in key order; Base.Names names that are compared, and a `HashMap`
--   keyed by them; Base.Totals sums over lists, and what a loop keeps; Base.Decimal the decimals of the crate `rust_decimal`.
-- - Util: `DecimalRestrictions`, `validate_decimal` and `round_with` of src/util.rs, with the
--   roundings of src/currency/mod.rs and `round_tax` of src/taxes/mod.rs.
-- - Currency: `Cash` of src/currency/cash.rs and `MultiCurrencyCashAccount` of src/currency/multi.rs.
--   The names of currencies are a parameter, a type with the test for equality.
-- - Time: `Period` of src/time/period.rs; Time.Days has a period as the set of its days.
-- - Taxes.Rates: `FixedTaxRate` and `ProgressiveTaxRate` of src/taxes/rates.rs.
-- - Taxes.Germany.LossCarryforward, Rates, Vorabpauschale and Teilfreistellung: src/taxes/germany,
--   loss_carryforward.rs, rates.rs, vorabpauschale.rs and the fund rates of dividends.rs.
-- - Taxes.Spain.Carryforward: `LossLedger` of src/taxes/spain/carryforward.rs, the pending losses by
--   their year of origin.
-- - Taxes.Spain.Compensation: `compensate_savings_base` of src/taxes/spain/compensation.rs. It
--   calls the ledgers' `apply`, `add`, `expiring_after` and `drop_expired`, and the proofs use only
--   what Carryforward's theorems say of these.
-- - Taxes.Spain.Scale, Credit, Exemption and Coefficients: src/taxes/spain, scale.rs, credit.rs,
--   exemption.rs and coefficients.rs. The scale taxes the savings base that the compensation leaves.
-- - Taxes.Calculator: `TaxCalculator` of src/taxes/calculator.rs, which taxes at the rate that
--   src/localities.rs has for the year, one of the two of Taxes.Rates.
-- - Taxes.LongTermOwnership: the deduction of src/taxes/long_term_ownership.rs and the loop of
--   `NetTaxCalculator::add_profit` that fills it.
-- - TaxStatement.FxFifo: `compute_fx_fifo` of src/tax_statement/fx_fifo.rs. Data has its records, Loop
--   the loop that takes one movement against the lots of its currency, Replay the books of all
--   currencies. The reference rate is a function that the caller passes, and dates are a parameter.
-- - TaxStatement.WashSale: `WashSaleEngine` of src/tax_statement/spain/wash_sale.rs. Release has
--   `release`, Matching the windows and `match_window`, Boundaries `review_boundaries`, Engine the
--   engine itself with `process`. The calendar of the crate `chrono` is a parameter, and a date is
--   its number of days.
-- - TaxStatement.Germany: `GermanTaxStatement` of src/tax_statement/germany/statement.rs. Entries has
--   its entries, Totals and Kap the two halves of `calculate_totals`, and Statement the record with
--   all its operations; its totals stand in groups. It calls `calculate_with_loss_carryforward` and
--   `compute_taxes` of Taxes.Germany. Processor has, of processor.rs beside it, the routing of the
--   results of TaxStatement.FxFifo into the statement, and the creditable foreign tax. The year of a
--   date and the calendar are parameters.
-- - BrokerStatement: of src/broker_statement, Trades the lots and the sales of trades.rs,
--   StockSplits the splits of corporate_actions.rs, and Processing `process_trades` and
--   `calculate_open_positions` of mod.rs. The vector of indices that the code keeps of a symbol's
--   unsold lots, the earliest last, is here the list of those lots, the earliest first.
-- - Examples: the theorems at concrete inputs.
--
-- State is passed explicitly: a method with `&mut self` returns its record after the call. An error
-- is a value that names its cause in place of the text of the message, and a panic is `none` or an
-- error, which theorems show not to occur.
--
-- The decimals are a parameter, the record `Decimal` of Base.Decimal.Laws: operations on a type and
-- laws that the crate documents. Sums are exact; products, quotients and roundings keep the order
-- and take zero to zero, and a quotient is rounded correctly: what the exact quotient is not below,
-- or not above, the rounded one is not below, or not above, either. Base.Decimal.Units is an instance, integers in units of 10^-28, at which
-- the examples are stated. Overflow of the 96 bit mantissa, which panics in the crate, and the
-- overflow of an `i32` year are outside of the model.
--
-- The loop of `ProgressiveTaxRate::tax` runs on fuel, two rounds more than there are rates. A theorem
-- shows that this is enough for every income. The loop over the lots of a currency runs on two
-- rounds more than there are lots, which a theorem shows to be enough. The loop over
-- the lots of a symbol in `process_trades` runs on more rounds than there are lots, which theorems
-- show to be enough where the symbol has no split. All other loops are structural.
--
-- Not modelled: the reading of statements and configuration, the rendering of reports, the network,
-- the database and the command line, which are input and output; the log lines; the results of a
-- sale in the currency of a country, the argument `until` of `process_trades`, and the corporate
-- actions but for the table of the splits; the components outside of those above; and of src/taxes the files net_calculator.rs, but for
-- the loop named above, payment_day.rs and remapping.rs.
pub mod Base
pub mod Currency
pub mod Time
pub mod Taxes
pub mod TaxStatement
pub mod BrokerStatement
pub mod Util
mod Examples
