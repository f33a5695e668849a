-- ===== src/TaxStatement/Germany/Processor.antt =====
-- Parts of src/tax_statement/germany/processor.rs: the exemption of funds, the creditable foreign tax
-- and the results on foreign currency, which go to the capital income of section 20 or to the buckets
-- of section 23. The year of a date, and the calendar, are calls of the crate `chrono`. The rows of
-- the report are left out.
pub mod Credit
pub mod Routed
pub mod Buckets
pub mod Bucket
use investments.Base.{
  ◌+◌, String, Bool, ◌||◌, false, true, Option, none, some, List, [], ◌∷◌, each, map, if◌then◌else◌,
  not, Result, ok, err, ◌>>=◌,
}
use investments.Base.Int.{ℤ, ltb_ℤ, eqb_ℤ}
use investments.Base.Decimal.{Decimal, nought, dec, ◌⊕◌, ◌⊗◌, min, max, led, ltd, RoundingStrategy}
use investments.Taxes.Germany.Teilfreistellung.{TeilfreistellungRate, taxable_portion}
use investments.Taxes.Germany.Rates.{GermanTaxRates, compute_taxes}
use investments.TaxStatement.WashSale.Data.{Calendar}
use investments.TaxStatement.FxFifo.Data.{
  FxRealization, CurrencyFxResult, OpeningLot, ForeignCashFlow,
}
use investments.TaxStatement.FxFifo.Replay.{FxError, compute_fx_fifo}
use investments.TaxStatement.Germany.Entries.{FxGainEntry}
use investments.TaxStatement.Germany.Kap.{is_none}
use investments.TaxStatement.Germany.Statement.{
  GermanTaxStatement, Section23, no_section23, is_empty, add_fx_gain,
}

-- The disposal is after the first anniversary, if there is one.
unfoldable pub is_after : ℤ → Option ℤ → Bool
is_after disposal_date none = false
is_after disposal_date (some anniversary) = ltb_ℤ anniversary disposal_date

unfoldable pub held_over_one_year : Calendar → ℤ → ℤ → Bool
unfolding is_after
held_over_one_year calendar acquisition_date disposal_date =
    is_after disposal_date (calendar.checked_add_months acquisition_date 12)

-- `OpeningForeignCurrency` of src/config.rs.
pub record OpeningForeignCurrency (D : Type 0) : Type 0 where
  pub quantity : D
  pub eur_per_unit : D
  pub as_of : ℤ

pub data ForeignCurrencyTaxation : Type 0 where
  interest_bearing non_interest_bearing : ForeignCurrencyTaxation

unfoldable pub opening_lots :
    {D : Type 0} → List (String × OpeningForeignCurrency D) → List (OpeningLot ℤ D)
opening_lots opening =
    map
      (λ (currency, lot). record {
        currency = currency;
        quantity = lot.quantity;
        eur_per_unit = lot.eur_per_unit;
        date = lot.as_of;
      })
      opening

module _ {D : Type 0} ⦃d : Decimal D⦄ where
  unfoldable pub apply_teilfreistellung : D → TeilfreistellungRate → D
  apply_teilfreistellung amount rate = amount ⊗ taxable_portion rate

  unfoldable pub creditable_foreign_tax : D → D → D → TeilfreistellungRate → D
  unfolding is_none
  creditable_foreign_tax withholding_paid gross_amount taxable_amount teilfreistellung =
      if not (is_none teilfreistellung)
      then dec 0 0
      else let treaty_cap = gross_amount ⊗ dec 15 2 in
        let statutory_cap = taxable_amount ⊗ dec 25 2 in
        max (min (min withholding_paid treaty_cap) statutory_cap) (dec 0 0)

  -- `round_dp_with_strategy(2, MidpointAwayFromZero)`.
  unfoldable pub to_cents : D → D
  to_cents = d.round_dp RoundingStrategy.midpoint_away_from_zero 2

  unfoldable pub fx_entry : GermanTaxRates D → String → FxRealization ℤ D → FxGainEntry D
  unfolding to_cents
  fx_entry tax_rates currency realization =
      let gross_amount_eur = to_cents realization.amount in
      let taxes = compute_taxes tax_rates gross_amount_eur nought in
      record {
        transaction_date = realization.date;
        currency_pair = currency;
        gross_amount_eur = gross_amount_eur;
        taxable_amount = gross_amount_eur;
        abgeltungssteuer = taxes.abgeltungssteuer;
        solidaritaetszuschlag = taxes.solidaritaetszuschlag;
        kirchensteuer = taxes.kirchensteuer;
        total_tax = taxes.total;
      }

  unfoldable pub put_bucket : Section23 D → Bool → D → Section23 D
  put_bucket section long amount =
      if long
      then (if ltd nought amount
          then record section { long_term_tax_free = section.long_term_tax_free ⊕ amount }
          else section)
      else (if led nought amount
          then record section { short_term_gains = section.short_term_gains ⊕ amount }
          else record section { short_term_losses = section.short_term_losses ⊕ d.abs amount })

  unfoldable pub round_section : Section23 D → Section23 D
  unfolding to_cents
  round_section section = record {
    short_term_gains = to_cents section.short_term_gains;
    short_term_losses = to_cents section.short_term_losses;
    long_term_tax_free = to_cents section.long_term_tax_free;
    borrowed_review = to_cents section.borrowed_review;
  }

module _ {D : Type 0} ⦃d : Decimal D⦄ (year_of : ℤ → ℤ) (year : ℤ) where
  abbrev in_year : FxRealization ℤ D → Bool
  in_year realization = eqb_ℤ (year_of realization.date) year

  -- The sum of the amounts that fall into the year.
  unfoldable pub add_in_year : D → FxRealization ℤ D → D
  add_in_year sum realization = if in_year realization then sum ⊕ realization.amount else sum

  -- One taxable realization; the flag says whether any fell into the year.
  unfoldable pub route_realization :
      String → GermanTaxStatement D × Bool → FxRealization ℤ D → GermanTaxStatement D × Bool
  unfolding fx_entry add_fx_gain
  route_realization currency (statement, has_income) realization =
      if in_year realization
      then (add_fx_gain statement (fx_entry statement.tax_rates currency realization), true)
      else (statement, has_income)

  -- One currency, with the sum of what is not taxable.
  unfoldable pub route_result :
      (GermanTaxStatement D × Bool) × D → CurrencyFxResult ℤ D → (GermanTaxStatement D × Bool) × D
  unfolding route_realization add_in_year
  route_result (state, non_taxable_margin_fx) result = (
    each (route_realization result.currency) state result.taxable,
    non_taxable_margin_fx ⊕ each add_in_year nought result.non_taxable,
  )

  unfoldable pub route_fx_section20 :
      GermanTaxStatement D → List (CurrencyFxResult ℤ D) → GermanTaxStatement D × Bool
  unfolding route_result to_cents
  route_fx_section20 statement results =
      let ((routed, has_income), non_taxable_margin_fx) =
        each route_result ((statement, false), nought) results in
      (record routed { non_taxable_margin_fx = to_cents non_taxable_margin_fx }, has_income)

  unfoldable pub put_taxable : Calendar → Section23 D → FxRealization ℤ D → Section23 D
  unfolding put_bucket held_over_one_year
  put_taxable calendar section realization =
      if in_year realization
      then put_bucket section
          (held_over_one_year calendar realization.acquisition_date realization.date)
          realization.amount
      else section

  unfoldable pub put_borrowed : Section23 D → FxRealization ℤ D → Section23 D
  put_borrowed section realization =
      if in_year realization
      then record section { borrowed_review = section.borrowed_review ⊕ realization.amount }
      else section

  unfoldable pub put_result : Calendar → Section23 D → CurrencyFxResult ℤ D → Section23 D
  unfolding put_taxable put_borrowed
  put_result calendar section result =
      each put_borrowed (each (put_taxable calendar) section result.taxable) result.non_taxable

  unfoldable pub route_fx_section23 :
      Calendar → GermanTaxStatement D → List (CurrencyFxResult ℤ D) → GermanTaxStatement D × Bool
  unfolding put_result round_section is_empty no_section23
  route_fx_section23 calendar statement results =
      let section = round_section (each (put_result calendar) no_section23 results) in
      (record statement { section23 = section }, not (is_empty section))

  -- The results of the replay, routed by the treatment of the account.
  unfoldable pub route_fx :
      Calendar
      → ForeignCurrencyTaxation
      → GermanTaxStatement D
      → List (CurrencyFxResult ℤ D)
      → GermanTaxStatement D × Bool
  unfolding route_fx_section20 route_fx_section23
  route_fx calendar interest_bearing statement results = route_fx_section20 statement results
  route_fx calendar non_interest_bearing statement results =
      route_fx_section23 calendar statement results

  unfoldable pub process_fx_gains :
      Calendar
      → GermanTaxStatement D
      → List (ForeignCashFlow ℤ D)
      → ForeignCurrencyTaxation
      → List (OpeningLot ℤ D)
      → (ℤ → String → Option D)
      → Result (FxError ℤ) (GermanTaxStatement D × Bool)
  unfolding route_fx compute_fx_fifo
  process_fx_gains calendar statement foreign_cash_flows fx_taxation opening ecb_rate =
      compute_fx_fifo foreign_cash_flows opening ecb_rate >>= λ results.
      ok (route_fx calendar fx_taxation statement results)
