-- ===== src/Taxes/Rates.antt =====
-- The tax rates that income is taxed at, src/taxes/rates.rs. A rate is one of two records in place
-- of the trait object, and `tax` returns the amount with the calculator after the call.
pub mod Fixed
pub mod Progressive
use investments.Base.{
  ℕ, zero, suc, Bool, true, false, not, ◌&&◌, Option, none, some, List, [], ◌∷◌, Result, ok, err,
  ◌>>=◌, if◌then◌else◌, length,
}
use investments.Base.Decimal.{Decimal, nought, ◌⊕◌, ◌⊖◌, ◌⊗◌, min, max, led, ltd, is_zero}
use investments.Util.{is_sign_positive, round_amount, round_tax}

pub record FixedTaxRate (D : Type 0) : Type 0 where
  pub rate : D
  pub precision : ℕ

-- The rates are the entries of the map, in the order of the keys.
pub record ProgressiveTaxRate (D : Type 0) : Type 0 where
  pub rates : List (D × D)
  pub precision : ℕ
  pub tax_base : D

-- The source panics where no key is at or below the base.
pub data RateError : Type 0 where
  no_rate out_of_fuel : RateError

module _ {D : Type 0} ⦃d : Decimal D⦄ where
  pub fixed_tax : FixedTaxRate D → D → D
  fixed_tax calc income =
      if d.is_sign_negative income
      then nought
      else round_tax (round_amount income ⊗ calc.rate) calc.precision

  pub new_progressive : D → List (D × D) → ℕ → ProgressiveTaxRate D
  new_progressive income rates precision = record {
    rates = rates;
    precision = precision;
    tax_base = max nought income;
  }

  -- The last rate whose key is at most the base, or the one found before.
  pub current_rate : List (D × D) → D → Option D → Option D
  current_rate [] base found = found
  current_rate ((key, rate) ∷ rest) base found =
      current_rate rest base (if led key base then some rate else found)

  -- The first key above the base.
  pub next_key : List (D × D) → D → Option D
  next_key [] base = none
  next_key ((key, _) ∷ rest) base = if ltd base key then some key else next_key rest base

  pub portion_to : Option D → D → D → D
  portion_to none base income = income
  portion_to (some next_rate_tax_base) base income = min (next_rate_tax_base ⊖ base) income

  pub found_rate : Option D → Result RateError D
  found_rate none = err no_rate
  found_rate (some rate) = ok rate

  -- The loop of `tax`: what it returns is the tax and the new base.
  pub tax_loop : ℕ → List (D × D) → ℕ → D → D → D → Result RateError (D × D)
  unfolding portion_to found_rate
  tax_loop zero rates precision income tax_base tax = err out_of_fuel
  tax_loop (suc fuel) rates precision income tax_base tax =
      let current_income = portion_to (next_key rates tax_base) tax_base income in
      let next : D → Result RateError (D × D) = λ rate.
        tax_loop fuel rates precision (income ⊖ current_income) (tax_base ⊕ current_income)
          (tax ⊕ round_tax (current_income ⊗ rate) precision) in
      if not (is_zero income) && is_sign_positive income
      then found_rate (current_rate rates tax_base none) >>= next
      else ok (tax, tax_base)

  pub progressive_tax : ProgressiveTaxRate D → D → Result RateError (D × ProgressiveTaxRate D)
  unfolding tax_loop
  progressive_tax calc income =
      tax_loop (suc (suc (length calc.rates))) calc.rates calc.precision (round_amount income)
        calc.tax_base nought
      >>= λ r. ok (r.0, record calc { tax_base = r.1 })
