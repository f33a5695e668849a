-- ===== src/Examples.antt =====
-- The theorems at concrete inputs, with the decimals of Base.Decimal.Units.
mod Amounts
mod Calculator
mod BrokerStatement
mod FxFifo
mod Germany
mod LongTermOwnership
mod Time
mod WashSale
use investments.Examples.Amounts.{eur, loss}
use investments.Base.{
  Bool, true, String, Option, ◌≢◌, false, err, ℕ, ◌==◌, refl, ◌<◌, ◌↔◌, map, ok, ◌≡◌, none, some,
  List, [], ◌∷◌, ◌⊎◌, inl, arith,
}
use investments.Base.Int.{◌<ℤ◌, ℤ, pos, ◌+ℤ◌, ◌-ℤ◌, ◌≤ℤ◌}
use investments.Base.YearMap.{YearMap}
use investments.Base.Decimal.{
  nought, dec, negate, ◌≼◌, ◌≺◌, ◌≈◌, ◌⊕◌, ◌⊖◌, ◌⊗◌, max, sum_from, IsQuotient,
}
use investments.Base.Decimal.Units.{units}
use investments.Base.Decimal.Magnitude.{digit}
use investments.Taxes.Germany.LossCarryforward.{calculate_with_loss_carryforward}
use investments.Taxes.Germany.LossCarryforward.Balance.{calculate_with_loss_carryforward_lem}
use investments.Taxes.Germany.Rates.{
  GermanTaxRates, compute_taxes, compute_taxes_mono, compute_taxes_bounds, for_year-IsValid,
}
use investments.Taxes.Germany.Rates
use investments.Taxes.Germany.Vorabpauschale.{
  vorabpauschale, twelfths, statutory, vorabpauschale-eq-statutory, vorabpauschale_bounds,
}
use investments.Taxes.Germany.Teilfreistellung.{
  TeilfreistellungRate, rate, taxable_portion, taxable_portion_lem,
}
use investments.Taxes.Spain.Carryforward.{
  LossLedger, LedgerApplication, apply, budget_of, from_config, drop_expired, expiring_after, total,
  add,
}
use investments.Taxes.Spain.Carryforward.Conservation.{apply-Applies, Applies, IsValid, sum}
use investments.Taxes.Spain.Carryforward.Offset.{apply-eq-applied, applied, left_of}
use investments.Taxes.Spain.Carryforward.Window.{
  AllUsable, from_config_iff, from_config-drop_expired,
}
use investments.Taxes.Spain.Carryforward.Years.{total-drop_expired, add-InRange, InRange}
use investments.Taxes.Spain.Coefficients.{
  AcquisitionDate, CoefficientError, effective_year, overridden, validate_overrides,
  gipuzkoa_coefficient,
}
use investments.Taxes.Spain.Coefficients.Lookup.{
  gipuzkoa_coefficient_bounds, gipuzkoa_coefficient_iff,
}
use investments.Taxes.Spain.Compensation.{
  CrossOffset, CompensationResult, compensate_savings_base, fraction, negative_part,
}
use investments.Taxes.Spain.Compensation.Outcome.{
  compensate_savings_base_income, compensate_savings_base_cross_limit, no_cross_lem,
  compensate_savings_base_losses, compensate_savings_base_next_year,
}
use investments.Taxes.Spain.Credit.{
  double_taxation_credit, capped_sum, double_taxation_credit_bounds, no_credit_without_spanish_tax,
}
use investments.Taxes.Spain.Exemption.{small_disposals_exemption, small_disposals_exemption_lem}
use investments.Taxes.Spain.Scale.{SpanishTaxRegime, SavingsScale, gipuzkoa_2024, tax}
use investments.Taxes.Spain.Scale
use investments.Taxes.Spain.Scale.Slices.{IsScale, slices, tax-eq-slices, tax_bounds}
use investments.Taxes.Spain.Scale.Shipped.{for_year-IsScale, gipuzkoa_2024-IsScale}
use investments.Taxes.Rates.{FixedTaxRate, ProgressiveTaxRate, fixed_tax, progressive_tax}
use investments.Taxes.Rates.Fixed.{fixed_tax_mono}
use investments.Taxes.Rates.Progressive.{Covers, progressive_tax_lem}
use investments.Base.Names.{Names}
use investments.Currency.{Cash, deposit, withdraw, add_account, add_cash, sub_cash}
use investments.Currency.Balances.{balance, balance-add_account, withdraw-deposit, add_cash_iff}
use investments.Base.Names.{get, strings}
use investments.TaxStatement.FxFifo.Data.{Lot, OpeningLot, CurrencyFxResult, ForeignCashFlow}
use investments.TaxStatement.FxFifo.Loop.{settle}
use investments.TaxStatement.FxFifo.Replay.{
  Books, FxError, panic, new_result, process_flow, compute_fx_fifo, open_lots, no_books,
}
use investments.TaxStatement.FxFifo.Balance.{held, moved, OneSigned}
use investments.TaxStatement.FxFifo.Settlement.{IsSettled, settle-IsSettled}
use investments.TaxStatement.FxFifo.Registered.{lots_of, ledger_of, running_of}
use investments.TaxStatement.FxFifo.Opening.{AreOn, open_lots-IsSound}
use investments.TaxStatement.FxFifo.Run.{compute_fx_fifo-refines}
use investments.TaxStatement.FxFifo.Flows.{IsBooked, process_flow-IsBooked}
use investments.Util.{DecimalRestrictions, validate_decimal, round_amount}
use investments.Util.Rounding.{Admits, validate_decimal_iff}

abbrev balances_2025 : YearMap ℤ
balances_2025 = (pos 2022, eur 300) ∷ (pos 2024, eur 200) ∷ []

abbrev ledger_2025 : LossLedger ℤ
ledger_2025 = record { balances = balances_2025 }

ledger_2025-IsValid : IsValid ledger_2025
unfolding ◌+ℤ◌ ◌-ℤ◌ digit
ledger_2025-IsValid = omega arith

ledger_2025-InRange : InRange (pos 2025) ledger_2025
unfolding ◌+ℤ◌ ◌-ℤ◌ digit
ledger_2025-InRange = omega arith

apply-Applies_example :
    (r : LedgerApplication ℤ × LossLedger ℤ) × (apply ledger_2025 (eur 350) none ≡ some r)
    × Applies ledger_2025 (budget_of (eur 350) none) r.0 r.1
apply-Applies_example = apply-Applies ledger_2025 (eur 350) none ledger_2025-IsValid

apply-eq-applied_example :
    let budget = budget_of (eur 350) (some (eur 320)) in
    apply ledger_2025 (eur 350) (some (eur 320))
    ≡ some (applied budget balances_2025, record { balances = left_of budget balances_2025 })
apply-eq-applied_example =
    apply-eq-applied ledger_2025 (eur 350) (some (eur 320)) ledger_2025-IsValid.0

from_config_iff_example :
    ((ledger : LossLedger ℤ) × (from_config balances_2025 (pos 2026) ≡ ok ledger))
    ↔ AllUsable (pos 2026) balances_2025
from_config_iff_example = from_config_iff balances_2025 (pos 2026) ledger_2025-IsValid.0

calculate_with_loss_carryforward_example :
    let (taxable, used, remaining) = calculate_with_loss_carryforward (eur 500) (eur 200) in
    (nought ≼ taxable)
    × (nought ≼ used)
    × (nought ≼ remaining)
    × (taxable ⊕ used ≈ max (eur 500) nought)
    × (remaining ⊕ used ≈ eur 200 ⊕ max (negate (eur 500)) nought)
    × ((taxable ≈ nought) ⊎ (remaining ≈ nought))
calculate_with_loss_carryforward_example =
    calculate_with_loss_carryforward_lem (eur 500) (eur 200) (omega arith)

abbrev tax_rates : GermanTaxRates ℤ
tax_rates = record {
  abgeltungssteuer = dec 25 2;
  solidaritaetszuschlag = dec 55 3;
  kirchensteuer = dec 8 2;
}

tax_rates-IsValid : Rates.IsValid tax_rates
unfolding digit
tax_rates-IsValid = omega arith

compute_taxes_bounds_example :
    let t = compute_taxes tax_rates (eur 1_000) (eur 20) in
    IsQuotient t.abgeltungssteuer
      (max (eur 1_000 ⊖ dec 4 0 ⊗ eur 20) nought)
      (dec 4 0 ⊕ tax_rates.kirchensteuer)
      (eur 225)
    × (t.kirchensteuer ≈ t.abgeltungssteuer ⊗ tax_rates.kirchensteuer)
    × (t.solidaritaetszuschlag ≈ t.abgeltungssteuer ⊗ tax_rates.solidaritaetszuschlag)
    × (t.total ≈ t.abgeltungssteuer ⊕ t.kirchensteuer ⊕ t.solidaritaetszuschlag)
    × (nought ≼ t.abgeltungssteuer)
    × (nought ≼ t.kirchensteuer)
    × (nought ≼ t.solidaritaetszuschlag)
    × (t.abgeltungssteuer ≼ t.total)
    × (t.abgeltungssteuer ≼ max (eur 1_000 ⊖ dec 4 0 ⊗ eur 20) nought)
    × ((dec 4 0 ⊗ eur 20 ≺ eur 1_000) ⊎ (t.total ≈ nought))
compute_taxes_bounds_example =
    compute_taxes_bounds tax_rates tax_rates-IsValid (eur 1_000) (eur 20) (eur 225)

vorabpauschale-eq-statutory_example :
    vorabpauschale (eur 1_000) (eur 1_030) (eur 12) (dec 255 4) 3
    ≈ twelfths (statutory (eur 1_000) (eur 1_030) (eur 12) (dec 255 4)) 3
vorabpauschale-eq-statutory_example =
    vorabpauschale-eq-statutory (eur 1_000) (eur 1_030) (eur 12) (dec 255 4) 3

tax-eq-slices_example :
    let scale : SavingsScale ℤ = record { brackets = gipuzkoa_2024 } in
    tax scale (eur 12_000) ≈ slices (eur 12_000) scale.brackets
tax-eq-slices_example =
    tax-eq-slices (record { brackets = gipuzkoa_2024 }) (eur 12_000) (gipuzkoa_2024-IsScale ℤ)

for_year-IsScale_example :
    ((scale : SavingsScale ℤ) × (Scale.for_year SpanishTaxRegime.comun (pos 2025) ≡ ok scale)
      × IsScale scale.brackets)
    ↔ ((pos 2024 ≤ℤ pos 2025) × (pos 2025 ≤ℤ pos 2026))
for_year-IsScale_example = for_year-IsScale ℤ SpanishTaxRegime.comun (pos 2025)

abbrev payments : List (ℤ × ℤ)
payments = (eur 300, eur 1_000) ∷ (eur 0, eur 1_000) ∷ []

double_taxation_credit_bounds_example :
    let credit =
      double_taxation_credit (capped_sum (dec 15 2) nought payments) (eur 2_000) (dec 19 2) in
    (nought ≼ credit)
    × (credit ≼ sum_from nought (map (λ p. p.0) payments))
    × (credit ≼ sum_from nought (map (λ p. p.1 ⊗ dec 15 2) payments))
    × (credit ≼ eur 2_000 ⊗ dec 19 2)
unfolding digit
double_taxation_credit_bounds_example =
    double_taxation_credit_bounds (dec 15 2) (eur 2_000) (dec 19 2) payments (omega arith)
      (omega arith) (omega arith) (omega arith)

small_disposals_exemption_example :
    let exempt = small_disposals_exemption (eur 2_250) (eur 1_350) in
    let taxed = eur 1_350 ⊖ exempt in
    let half = eur 2_250 ⊗ dec 5 1 in
    (nought ≼ exempt)
    × (nought ≼ taxed)
    × (((nought ≺ eur 2_250) × (eur 2_250 ≼ dec 3_000 0) × (taxed ≈ max (eur 1_350 ⊖ half) nought))
        ⊎ (((eur 2_250 ≼ nought) ⊎ (dec 3_000 0 ≺ eur 2_250)) × (taxed ≈ eur 1_350)))
small_disposals_exemption_example =
    small_disposals_exemption_lem (eur 2_250) (eur 1_350) (omega arith)

abbrev russian : FixedTaxRate ℤ
russian = record { rate = dec 13 2; precision = 0 }

abbrev progressive : ProgressiveTaxRate ℤ
progressive = record {
  rates = (dec 0 0, dec 13 2) ∷ (dec 5_000_000 0, dec 15 2) ∷ [];
  precision = 0;
  tax_base = dec 4_999_900 0;
}

progressive-Covers : Covers progressive.rates progressive.tax_base
unfolding digit
progressive-Covers = omega arith

progressive_tax_example :
    (tax : ℤ) × (calc' : ProgressiveTaxRate ℤ) × (progressive_tax progressive (eur 200)
      ≡ ok (tax, calc'))
    × (nought ≼ tax)
    × (calc'.rates ≡ progressive.rates)
    × (calc'.precision ≡ progressive.precision)
    × (calc'.tax_base ≈ progressive.tax_base ⊕ max nought (round_amount (eur 200)))
progressive_tax_example = progressive_tax_lem progressive (eur 200) progressive-Covers

abbrev rule : CrossOffset
rule = CrossOffset.aeat_two_phase

compensate_savings_base_income_example :
    (r : CompensationResult ℤ) × (compensate_savings_base
        (pos 2025)
        (loss 1_000)
        (eur 800)
        ledger_2025
        ledger_2025
        rule
      ≡ some r)
    × (r.rcm_taxable ⊕ r.cross_offset_gyp_to_rcm ⊕ r.prior_cross_offset_gyp_to_rcm
          ⊕ r.rcm_applied.used_total
        ≈ max nought (loss 1_000) ⊕ r.prior_cross_offset_rcm_to_gyp)
    × (r.gyp_taxable ⊕ r.cross_offset_rcm_to_gyp ⊕ r.prior_cross_offset_rcm_to_gyp
          ⊕ r.gyp_applied.used_total
        ≈ max nought (eur 800) ⊕ r.prior_cross_offset_gyp_to_rcm)
    × (nought ≼ r.rcm_taxable)
    × (nought ≼ r.gyp_taxable)
    × (r.savings_base ≈ r.rcm_taxable ⊕ r.gyp_taxable)
compensate_savings_base_income_example =
    compensate_savings_base_income (pos 2025) (loss 1_000) (eur 800) ledger_2025 ledger_2025
      ledger_2025-InRange ledger_2025-InRange rule

compensate_savings_base_cross_limit_example :
    (r : CompensationResult ℤ) × (compensate_savings_base
        (pos 2025)
        (loss 1_000)
        (eur 800)
        ledger_2025
        ledger_2025
        rule
      ≡ some r)
    × (r.cross_offset_gyp_to_rcm ⊕ r.prior_cross_offset_gyp_to_rcm
        ≼ max nought (loss 1_000) ⊗ fraction rule)
    × (r.cross_offset_rcm_to_gyp ⊕ r.prior_cross_offset_rcm_to_gyp
        ≼ max nought (eur 800) ⊗ fraction rule)
    × (nought ≼ r.cross_offset_gyp_to_rcm)
    × (nought ≼ r.prior_cross_offset_gyp_to_rcm)
    × (nought ≼ r.cross_offset_rcm_to_gyp)
    × (nought ≼ r.prior_cross_offset_rcm_to_gyp)
compensate_savings_base_cross_limit_example =
    compensate_savings_base_cross_limit (pos 2025) (loss 1_000) (eur 800) ledger_2025 ledger_2025
      ledger_2025-InRange ledger_2025-InRange rule

compensate_savings_base_losses_example :
    (r : CompensationResult ℤ) × (compensate_savings_base
        (pos 2025)
        (loss 1_000)
        (eur 800)
        ledger_2025
        ledger_2025
        rule
      ≡ some r)
    × (r.rcm_applied.used_total
          ⊕ r.cross_offset_rcm_to_gyp
          ⊕ total r.rcm_ledger_next
          ⊕ r.rcm_expired
        ≈ total ledger_2025 ⊕ negative_part (loss 1_000))
    × (r.gyp_applied.used_total
          ⊕ r.cross_offset_gyp_to_rcm
          ⊕ total r.gyp_ledger_next
          ⊕ r.gyp_expired
        ≈ total ledger_2025 ⊕ negative_part (eur 800))
    × (sum r.rcm_applied.used_by_year ≈ r.rcm_applied.used_total)
    × (sum r.gyp_applied.used_by_year ≈ r.gyp_applied.used_total)
compensate_savings_base_losses_example =
    compensate_savings_base_losses (pos 2025) (loss 1_000) (eur 800) ledger_2025 ledger_2025
      ledger_2025-InRange ledger_2025-InRange rule

compensate_savings_base_next_year_example :
    (r : CompensationResult ℤ) × (compensate_savings_base
        (pos 2025)
        (loss 1_000)
        (eur 800)
        ledger_2025
        ledger_2025
        rule
      ≡ some r)
    × (from_config r.rcm_ledger_next.balances (pos 2025 +ℤ pos 1) ≡ ok r.rcm_ledger_next)
    × (from_config r.gyp_ledger_next.balances (pos 2025 +ℤ pos 1) ≡ ok r.gyp_ledger_next)
compensate_savings_base_next_year_example =
    compensate_savings_base_next_year (pos 2025) (loss 1_000) (eur 800) ledger_2025 ledger_2025
      ledger_2025-InRange ledger_2025-InRange rule

no_cross_example :
    (r : CompensationResult ℤ) × (compensate_savings_base
        (pos 2025)
        (loss 1_000)
        (eur 800)
        ledger_2025
        ledger_2025
        CrossOffset.no_cross
      ≡ some r)
    × (r.cross_offset_gyp_to_rcm ≈ nought)
    × (r.prior_cross_offset_gyp_to_rcm ≈ nought)
    × (r.cross_offset_rcm_to_gyp ≈ nought)
    × (r.prior_cross_offset_rcm_to_gyp ≈ nought)
no_cross_example =
    no_cross_lem (pos 2025) (loss 1_000) (eur 800) ledger_2025 ledger_2025 ledger_2025-InRange
      ledger_2025-InRange

-- Currencies numbered in place of their names.
instance abbrev numbered : Names ℕ
numbered = record {
  same = ◌==◌;
  same_iff = λ a b. (λ e. ground (arith, e), λ e. ground (arith, e));
}

abbrev wallet : List (ℕ × ℤ)
wallet = (1, eur 100) ∷ (2, eur 50) ∷ []

abbrev other_wallet : List (ℕ × ℤ)
other_wallet = (2, eur 7) ∷ (3, eur 1) ∷ []

abbrev coins : Cash ℕ ℤ
coins = record { currency = 2; amount = eur 7 }

abbrev overrides : YearMap (YearMap ℤ)
overrides = (pos 2026, (pos 2020, dec 1_300 3) ∷ []) ∷ []

abbrev bought_in_2020 : AcquisitionDate
bought_in_2020 = record { year = pos 2020; is_last_day_of_1994 = false }

overrides-valid : validate_overrides overrides ≡ ok tt
unfolding validate_overrides digit
overrides-valid = refl

gipuzkoa_coefficient_iff_example :
    ((e : CoefficientError) × (gipuzkoa_coefficient (pos 2027) bought_in_2020 overrides ≡ err e))
    ↔ ((pos 2027 <ℤ effective_year bought_in_2020)
        ⊎ (((pos 2027 ≤ℤ pos 2023) ⊎ (pos 2027 ≤ℤ pos 2027))
            × (overridden (pos 2027) (effective_year bought_in_2020) overrides ≡ none)))
gipuzkoa_coefficient_iff_example = gipuzkoa_coefficient_iff (pos 2027) bought_in_2020 overrides
