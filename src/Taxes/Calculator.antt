-- ===== src/Taxes/Calculator.antt =====
-- `TaxCalculator`, src/taxes/calculator.rs, with `Country::tax_rate` of src/localities.rs. The trait
-- object `TaxRate` is one of its two implementations, a failed assertion is an error, and a map
-- keyed by years is the list of its entries.
pub mod Credited
pub mod Deducted
use investments.Base.{
  String, ℕ, Bool, true, false, not, ◌&&◌, ◌||◌, Option, none, some, List, [], ◌∷◌, Result, ok, err,
  ◌>>=◌, if◌then◌else◌,
}
use investments.Base.Int.{ℤ, leb_ℤ}
use investments.Base.Names.{strings}
use investments.Base.YearMap
use investments.Base.YearMap.{YearMap}
use investments.Base.Decimal.{Decimal, nought, ◌⊕◌, ◌⊖◌, ◌⊗◌, min, max, ltd, led, eqd, is_zero}
use investments.Util.{round_tax}
use investments.Currency.{Cash}
use investments.Taxes.Rates.{
  FixedTaxRate, ProgressiveTaxRate, RateError, fixed_tax, progressive_tax,
}

pub data TaxRate (D : Type 0) : Type 0 where
  fixed : FixedTaxRate D → TaxRate D
  progressive : ProgressiveTaxRate D → TaxRate D

pub record Country (D : Type 0) : Type 0 where
  pub currency : String
  pub tax_precision : ℕ
  pub tax_rates : YearMap (TaxRate D)
  pub tax_agent_rates : YearMap (TaxRate D)

pub record Tax (D : Type 0) : Type 0 where
  pub expected : Cash String D
  pub withheld : Cash String D
  pub to_pay : Cash String D
  pub deduction : Cash String D

pub record TaxWithheld (D : Type 0) : Type 0 where
  pub amount : Cash String D
  pub credit_rate_limit : Option D

pub record TaxCalculator (D : Type 0) : Type 0 where
  pub country : Country D
  pub years : YearMap (TaxRate D)

pub data TaxError : Type 0 where
  assertion no_rate_of_year unexpected_currency unexpected_withheld : TaxError
  rate_error : RateError → TaxError

module _ {D : Type 0} ⦃d : Decimal D⦄ where
  unfoldable pub progressed :
      Result RateError (D × ProgressiveTaxRate D) → Result TaxError (D × TaxRate D)
  progressed (err e) = err (rate_error e)
  progressed (ok (tax, calc)) = ok (tax, progressive calc)

  -- `TaxRate::tax`.
  unfoldable pub rate_tax : TaxRate D → D → Result TaxError (D × TaxRate D)
  unfolding progressed
  rate_tax (fixed calc) income = ok (fixed_tax calc income, fixed calc)
  rate_tax (progressive calc) income = progressed (progressive_tax calc income)

  -- `range(..=year).last()`.
  unfoldable pub last_until : YearMap (TaxRate D) → ℤ → Option (TaxRate D) → Option (TaxRate D)
  last_until [] year found = found
  last_until ((key, rate) ∷ rates) year found =
      last_until rates year (if leb_ℤ key year then some rate else found)

  unfoldable pub found_or_panic : Option (TaxRate D) → Result TaxError (TaxRate D)
  found_or_panic none = err no_rate_of_year
  found_or_panic (some rate) = ok rate

  unfoldable pub tax_rate : Country D → ℤ → Result TaxError (TaxRate D)
  unfolding last_until found_or_panic
  tax_rate country year = found_or_panic (last_until country.tax_rates year none)

  unfoldable pub tax_agent_rate : Country D → ℤ → Result TaxError (TaxRate D)
  unfolding last_until found_or_panic
  tax_agent_rate country year = found_or_panic (last_until country.tax_agent_rates year none)

  -- `Cash::is_negative`.
  unfoldable pub is_negative : Cash String D → Bool
  is_negative cash = not (is_zero cash.amount) && d.is_sign_negative cash.amount

  unfoldable pub credited_tax : D → D → Option D → D
  credited_tax income withheld none = withheld
  credited_tax income withheld (some credit_rate_limit) =
      min withheld (max nought (income ⊗ credit_rate_limit))

  -- What is withheld, and what is left to pay.
  unfoldable pub withheld_and_due :
      Country D → D → D → Option (TaxWithheld D) → Result TaxError (D × D)
  unfolding is_negative credited_tax
  withheld_and_due country expected income none = ok (nought, expected)
  withheld_and_due country expected income (some tax_withheld) =
      let withheld = tax_withheld.amount.amount in
      let credited = credited_tax income withheld tax_withheld.credit_rate_limit in
      if is_negative tax_withheld.amount
        || not (strings.same tax_withheld.amount.currency country.currency)
      then err assertion
      else ok (withheld, max nought (expected ⊖ round_tax credited country.tax_precision))

  unfoldable pub tax_of : String → D → D → D → Tax D
  tax_of currency expected withheld to_pay = record {
    expected = record { currency = currency; amount = expected };
    withheld = record { currency = currency; amount = withheld };
    deduction = record { currency = currency; amount = expected ⊖ to_pay };
    to_pay = record { currency = currency; amount = to_pay };
  }

  unfoldable pub calculate :
      Country D
      → TaxRate D
      → Cash String D
      → Option (TaxWithheld D)
      → Result TaxError (Tax D × TaxRate D)
  unfolding rate_tax withheld_and_due tax_of
  calculate country calc income tax_withheld =
      if not (strings.same income.currency country.currency)
      then err assertion
      else (rate_tax calc income.amount >>= λ taxed.
          (withheld_and_due country taxed.0 income.amount tax_withheld >>= λ due.
          ok (tax_of country.currency taxed.0 due.0 due.1, taxed.1)))

  -- `TaxCalculator::year`, for the value of the entry.
  unfoldable pub year_rate : TaxCalculator D → ℤ → Result TaxError (TaxRate D)
  unfolding tax_rate
  year_rate calculator year = elim (YearMap.get year calculator.years) [
    | some rate ↦ ok rate
    | none ↦ tax_rate calculator.country year
  ]

  unfoldable pub put_rate : TaxCalculator D → ℤ → TaxRate D → TaxCalculator D
  put_rate calculator year rate = record calculator {
    years = YearMap.insert year rate calculator.years;
  }

  unfoldable pub tax_income :
      TaxCalculator D
      → ℤ
      → Cash String D
      → Option (TaxWithheld D)
      → Result TaxError (Tax D × TaxCalculator D)
  unfolding year_rate calculate put_rate
  tax_income calculator year income tax_withheld = year_rate calculator year >>= λ rate.
      (calculate calculator.country rate income tax_withheld >>= λ result.
      ok (result.0, put_rate calculator year result.1))

  -- `==` of two amounts of cash.
  unfoldable pub same_cash : Cash String D → Cash String D → Bool
  same_cash a b = strings.same a.currency b.currency && eqd a.amount b.amount

  -- The assertions on the two results of a deductible income, and the tax from both.
  unfoldable pub full_and_real : Tax D → Tax D → Result TaxError (Tax D)
  unfolding same_cash
  full_and_real full real =
      if is_zero real.withheld.amount
        && (same_cash real.to_pay real.expected && led real.expected.amount full.expected.amount)
      then ok (record {
        expected = full.expected;
        withheld = real.withheld;
        deduction = record full.expected { amount = full.expected.amount ⊖ real.to_pay.amount };
        to_pay = real.to_pay;
      })
      else err assertion

  unfoldable pub tax_deductible_income :
      TaxCalculator D
      → ℤ
      → Cash String D
      → Cash String D
      → Result TaxError (Tax D × TaxCalculator D)
  unfolding year_rate calculate full_and_real put_rate
  tax_deductible_income calculator year income taxable_income =
      year_rate calculator year >>= λ rate.
      (calculate calculator.country rate income none >>= λ full.
      (calculate calculator.country rate taxable_income none >>= λ real.
      (full_and_real full.0 real.0 >>= λ tax. ok (tax, put_rate calculator year real.1))))

  unfoldable pub tax_deductible_income_dry_run :
      TaxCalculator D → ℤ → Cash String D → Cash String D → Result TaxError (Tax D)
  unfolding tax_rate calculate full_and_real
  tax_deductible_income_dry_run calculator year income taxable_income =
      tax_rate calculator.country year >>= λ rate.
      (calculate calculator.country rate income none >>= λ full.
      (calculate calculator.country rate taxable_income none >>= λ real.
      full_and_real full.0 real.0))

  -- The tax that an agent withheld, in place of the tax, where the latter does not explain it.
  unfoldable pub trusted_tax : Country D → Cash String D → D → Tax D → Tax D
  trusted_tax country tax_withheld lowest_tax tax =
      if ltd tax_withheld.amount lowest_tax || ltd tax.expected.amount tax_withheld.amount
      then record {
        expected = tax_withheld;
        withheld = tax_withheld;
        deduction = tax_withheld;
        to_pay = record { currency = country.currency; amount = nought };
      }
      else tax

  unfoldable pub tax_agent_income :
      TaxCalculator D
      → ℤ
      → Cash String D
      → Cash String D
      → Result TaxError (Tax D × TaxCalculator D)
  unfolding tax_income tax_agent_rate rate_tax trusted_tax
  tax_agent_income calculator year income tax_withheld =
      let country = calculator.country in
      let rounded = round_tax tax_withheld.amount country.tax_precision in
      let withheld = record tax_withheld { amount = rounded } in
      if not (strings.same tax_withheld.currency country.currency)
      then err unexpected_currency
      else (if not (eqd tax_withheld.amount rounded)
          then err unexpected_withheld
          else (tax_income calculator year income
                (some (record { amount = withheld; credit_rate_limit = none }))
              >>= λ result.
                  (tax_agent_rate country year >>= λ agent_rate.
                  (rate_tax agent_rate income.amount >>= λ lowest.
                  ok (trusted_tax country withheld lowest.0 result.0, result.1)))))
