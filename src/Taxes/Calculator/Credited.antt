-- ===== src/Taxes/Calculator/Credited.antt =====
-- The tax that is left to pay after a credit for the tax withheld.
use investments.Base.{
  String, ◌≡◌, refl, sym, ap, subst, true, false, Option, none, some, List, ok, arith,
}
use investments.Base.Int.{ℤ}
use investments.Base.Names.{strings}
use investments.Base.Decimal.{Decimal, nought, ◌⊕◌, ◌⊖◌, max, ◌≼◌, ◌≈◌, nought_parts}
use investments.Util.{round_amount, round_tax}
use investments.Util.Rounding.{round_tax_mono}
use investments.Currency.{Cash}
use investments.Taxes.Rates.Fixed.{fixed_tax_mono}
use investments.Taxes.Rates.Progressive.{Covers, Covers-mono, progressive_tax_lem}
use investments.Taxes.Calculator.{
  TaxRate, fixed, progressive, Country, Tax, TaxWithheld, TaxCalculator, progressed, rate_tax,
  is_negative, credited_tax, withheld_and_due, tax_of, calculate, year_rate, put_rate, tax_income,
}

module _ {D : Type 0} ⦃d : Decimal D⦄ where
  -- A rate that taxes every income: a fixed one that is not negative, or one that covers its base.
  abbrev pub IsRated : TaxRate D → Type 0
  IsRated (fixed calc) = nought ≼ calc.rate
  IsRated (progressive calc) = Covers calc.rates calc.tax_base

  rate_tax-IsRated :
      (rate : TaxRate D) (income : D)
      → IsRated rate
      → (tax : D) × (rate' : TaxRate D) × (rate_tax rate income ≡ ok (tax, rate'))
        × (nought ≼ tax)
        × IsRated rate'
  unfolding rate_tax progressed
  rate_tax-IsRated (fixed calc) income rated =
      (_, fixed calc, refl, (fixed_tax_mono calc income income rated (omega arith)).0, rated)
  rate_tax-IsRated (progressive calc) income rated =
      let (tax, calc', e, nonneg, rates, _, base) = progressive_tax_lem calc income rated in
      let grown = calc.tax_base ⊕ max nought (round_amount income) in
      let above : calc.tax_base ≼ calc'.tax_base = ground (
        arith,
        nought_parts d,
        base,
        d.add_parts calc.tax_base (max nought (round_amount income)),
      ) in
      (
        tax,
        progressive calc',
        ap progressed e,
        nonneg,
        subst (λ (r : List (D × D)). Covers r calc'.tax_base) (sym rates)
            (Covers-mono calc.rates calc.tax_base calc'.tax_base above rated),
      )

  -- What the assertions ask of the tax withheld.
  abbrev pub IsWithheld : Country D → Option (TaxWithheld D) → Type 0
  IsWithheld country none = Unit
  IsWithheld country (some tax_withheld) =
      (nought ≼ tax_withheld.amount.amount) × (tax_withheld.amount.currency ≡ country.currency)

  abbrev pub amount_withheld : Option (TaxWithheld D) → D
  amount_withheld none = nought
  amount_withheld (some tax_withheld) = tax_withheld.amount.amount

  credited_tax_nonneg :
      (income withheld : D) (limit : Option D)
      → nought ≼ withheld
      → nought ≼ credited_tax income withheld limit
  unfolding credited_tax
  credited_tax_nonneg income withheld none nonneg = nonneg
  credited_tax_nonneg income withheld (some limit) nonneg = ground (arith, nonneg)

  withheld_and_due_bounds :
      (country : Country D) (expected income : D) (tax_withheld : Option (TaxWithheld D))
      → nought ≼ expected
      → IsWithheld country tax_withheld
      → (due : D) × (withheld_and_due country expected income tax_withheld
          ≡ ok (amount_withheld tax_withheld, due))
        × (nought ≼ due)
        × (due ≼ expected)
  unfolding withheld_and_due
  withheld_and_due_bounds country expected income none nonneg _ =
      (expected, refl, nonneg, omega arith)
  withheld_and_due_bounds country expected income (some tax_withheld) nonneg (positive, own) =
      let withheld = tax_withheld.amount.amount in
      let credited = credited_tax income withheld tax_withheld.credit_rate_limit in
      let credited_nonneg =
        credited_tax_nonneg income withheld tax_withheld.credit_rate_limit positive in
      let rounded =
        (round_tax_mono credited credited country.tax_precision (omega arith)).1 credited_nonneg in
      let no_loss : is_negative tax_withheld.amount ≡ false =
        unfold is_negative in ground (arith, positive, nought_parts d, d.sign_of_pos withheld) in
      let same : strings.same tax_withheld.amount.currency country.currency ≡ true =
        (strings.same_iff _ _).1 own in
      let credit = round_tax credited country.tax_precision in
      (
        max nought (expected ⊖ credit),
        rw (no_loss, same) refl,
        ground (arith, nonneg),
        ground (arith, nonneg, rounded, nought_parts d, d.sub_parts expected credit),
      )

  -- An income in the currency of the country is taxed without a panic, at a rate that taxes
  -- every income, where the tax withheld is not negative and in the same currency: the tax due is
  -- not negative and at most the expected one, the deduction is the difference of the two, the tax
  -- withheld is reported as it is, and the calculator keeps for the year a rate that taxes every
  -- income.
  pub tax_income_lem :
      (calculator : TaxCalculator D) (year : ℤ) (rate : TaxRate D) (income : Cash String D)
      (tax_withheld : Option (TaxWithheld D))
      → year_rate calculator year ≡ ok rate
      → IsRated rate
      → income.currency ≡ calculator.country.currency
      → IsWithheld calculator.country tax_withheld
      → (tax : Tax D) × (rate' : TaxRate D) × (tax_income calculator year income tax_withheld
          ≡ ok (tax, put_rate calculator year rate'))
        × (nought ≼ tax.to_pay.amount)
        × (tax.to_pay.amount ≼ tax.expected.amount)
        × (tax.deduction.amount ⊕ tax.to_pay.amount ≈ tax.expected.amount)
        × (tax.withheld.amount ≡ amount_withheld tax_withheld)
        × IsRated rate'
  unfolding tax_income calculate tax_of
  tax_income_lem calculator year rate income tax_withheld found rated own withheld =
      let country = calculator.country in
      let (expected, rate', taxed, nonneg, rated') = rate_tax-IsRated rate income.amount rated in
      let (due, left, above, below) =
        withheld_and_due_bounds country expected income.amount tax_withheld nonneg withheld in
      let same : strings.same income.currency country.currency ≡ true =
        (strings.same_iff _ _).1 own in
      (
        tax_of country.currency expected (amount_withheld tax_withheld) due,
        rate',
        rw (found, same, taxed, left) refl,
        above,
        below,
        omega (arith, d.sub_parts expected due, d.add_parts (expected ⊖ due) due),
        refl,
        rated',
      )
