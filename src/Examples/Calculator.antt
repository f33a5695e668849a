-- ===== src/Examples/Calculator.antt =====
-- The theorems on the tax calculator at concrete inputs.
use investments.Base.{String, ◌≡◌, refl, Option, some, [], ◌∷◌, ok, arith}
use investments.Base.Int.{ℤ, pos}
use investments.Base.Names.{strings}
use investments.Base.Decimal.{◌≼◌, ◌≈◌, ◌⊕◌, nought, dec}
use investments.Base.Decimal.Units.{units}
use investments.Base.Decimal.Magnitude.{digit}
use investments.Examples.Amounts.{eur}
use investments.Currency.{Cash}
use investments.Taxes.Rates.{FixedTaxRate, fixed_tax}
use investments.Taxes.Calculator.{
  TaxRate, fixed, Country, Tax, TaxWithheld, TaxCalculator, year_rate, tax_rate, last_until,
  found_or_panic, put_rate, tax_income, tax_deductible_income,
}
use investments.Taxes.Calculator.Credited.{IsRated, amount_withheld, tax_income_lem}
use investments.Taxes.Calculator.Deducted.{tax_deductible_income_lem}

abbrev thirteen_percent : FixedTaxRate ℤ
thirteen_percent = record { rate = dec 13 2; precision = 0 }

abbrev russia : Country ℤ
russia = record {
  currency = "RUB";
  tax_precision = 0;
  tax_rates = (pos 2000, fixed thirteen_percent) ∷ [];
  tax_agent_rates = (pos 2000, fixed thirteen_percent) ∷ [];
}

abbrev calculator : TaxCalculator ℤ
calculator = record { country = russia; years = [] }

calculator_rate : year_rate calculator (pos 2020) ≡ ok (fixed thirteen_percent)
unfolding year_rate tax_rate last_until found_or_panic
calculator_rate = refl

abbrev roubles : ℤ → Cash String ℤ
roubles amount = record { currency = "RUB"; amount = amount }

abbrev ten_withheld : Option (TaxWithheld ℤ)
ten_withheld = some (record { amount = roubles (eur 10); credit_rate_limit = some (dec 1 1) })

tax_income_example :
    (tax : Tax ℤ) × (rate' : TaxRate ℤ) × (tax_income calculator
        (pos 2020)
        (roubles (eur 1000))
        ten_withheld
      ≡ ok (tax, put_rate calculator (pos 2020) rate'))
    × (nought ≼ tax.to_pay.amount)
    × (tax.to_pay.amount ≼ tax.expected.amount)
    × (tax.deduction.amount ⊕ tax.to_pay.amount ≈ tax.expected.amount)
    × (tax.withheld.amount ≡ amount_withheld ten_withheld)
    × IsRated rate'
unfolding digit
tax_income_example =
    tax_income_lem calculator (pos 2020) (fixed thirteen_percent) (roubles (eur 1000)) ten_withheld
      calculator_rate (omega arith) refl (omega arith, refl)

tax_deductible_income_example :
    (tax : Tax ℤ) × (tax_deductible_income calculator
        (pos 2020)
        (roubles (eur 1000))
        (roubles (eur 600))
      ≡ ok (tax, put_rate calculator (pos 2020) (fixed thirteen_percent)))
    × (tax.to_pay.amount ≡ fixed_tax thirteen_percent (eur 600))
    × (nought ≼ tax.to_pay.amount)
    × (tax.to_pay.amount ≼ fixed_tax thirteen_percent (eur 1000))
    × (tax.deduction.amount ⊕ tax.to_pay.amount ≈ fixed_tax thirteen_percent (eur 1000))
unfolding digit
tax_deductible_income_example =
    tax_deductible_income_lem calculator (pos 2020) thirteen_percent (roubles (eur 1000))
      (roubles (eur 600)) calculator_rate (omega arith) refl refl (omega arith)
