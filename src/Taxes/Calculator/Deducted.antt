-- ===== src/Taxes/Calculator/Deducted.antt =====
-- The tax on an income of which only a part is taxable.
use investments.Base.{String, ◌≡◌, refl, true, none, ok, arith}
use investments.Base.Int.{ℤ}
use investments.Base.Names.{strings, same_self}
use investments.Base.Decimal.{Decimal, nought, ◌⊕◌, ◌⊖◌, ◌≼◌, ◌≈◌, nought_parts, is_zero, led, eqd}
use investments.Currency.{Cash}
use investments.Taxes.Rates.{FixedTaxRate, fixed_tax}
use investments.Taxes.Rates.Fixed.{fixed_tax_mono}
use investments.Taxes.Calculator.{
  fixed, Country, Tax, TaxCalculator, rate_tax, withheld_and_due, tax_of, calculate, year_rate,
  put_rate, same_cash, full_and_real, tax_deductible_income,
}

module _ {D : Type 0} ⦃d : Decimal D⦄ where
  full_and_real-ok :
      (currency : String) (full real : D)
      → real ≼ full
      → full_and_real (tax_of currency full nought full) (tax_of currency real nought real)
        ≡ ok (tax_of currency full nought real)
  unfolding full_and_real same_cash tax_of
  full_and_real-ok currency full real less =
      let no_tax : is_zero {D = D} nought ≡ true = ground (arith, nought_parts d) in
      let own = same_self currency in
      let even : eqd real real ≡ true = ground arith in
      let within : led real full ≡ true = ground (arith, less) in
      rw (no_tax, own, even, within) refl

  calculate-fixed :
      (country : Country D) (calc : FixedTaxRate D) (income : Cash String D)
      → income.currency ≡ country.currency
      → let tax = fixed_tax calc income.amount in
        calculate country (fixed calc) income none
        ≡ ok (tax_of country.currency tax nought tax, fixed calc)
  unfolding calculate rate_tax withheld_and_due
  calculate-fixed country calc income own =
      let same : strings.same income.currency country.currency ≡ true =
        (strings.same_iff _ _).1 own in
      rw same refl

  -- At a fixed rate that is not negative, on incomes in the currency of the country of which the
  -- taxable one is at most the whole: the assertions hold. The tax to pay is the one on the
  -- taxable income, is not negative and is at most the one on the whole, and the deduction is the
  -- difference of the two.
  pub tax_deductible_income_lem :
      (calculator : TaxCalculator D) (year : ℤ) (calc : FixedTaxRate D)
      (income taxable_income : Cash String D)
      → year_rate calculator year ≡ ok (fixed calc)
      → nought ≼ calc.rate
      → income.currency ≡ calculator.country.currency
      → taxable_income.currency ≡ calculator.country.currency
      → taxable_income.amount ≼ income.amount
      → (tax : Tax D) × (tax_deductible_income calculator year income taxable_income
          ≡ ok (tax, put_rate calculator year (fixed calc)))
        × (tax.to_pay.amount ≡ fixed_tax calc taxable_income.amount)
        × (nought ≼ tax.to_pay.amount)
        × (tax.to_pay.amount ≼ fixed_tax calc income.amount)
        × (tax.deduction.amount ⊕ tax.to_pay.amount ≈ fixed_tax calc income.amount)
  unfolding tax_deductible_income tax_of
  tax_deductible_income_lem calculator year calc income taxable_income found positive own own'
        less =
      let country = calculator.country in
      let full = fixed_tax calc income.amount in
      let real = fixed_tax calc taxable_income.amount in
      let (nonneg, _, mono) =
        fixed_tax_mono calc taxable_income.amount income.amount positive less in
      let first = calculate-fixed country calc income own in
      let second = calculate-fixed country calc taxable_income own' in
      let both = full_and_real-ok country.currency full real mono in
      (
        tax_of country.currency full nought real,
        rw (found, first, second, both) refl,
        refl,
        nonneg,
        mono,
        omega (arith, d.sub_parts full real, d.add_parts (full ⊖ real) real),
      )
