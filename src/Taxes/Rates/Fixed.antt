-- ===== src/Taxes/Rates/Fixed.antt =====
-- The tax at a fixed rate: its order and its sign.
use investments.Base.{◌⊎◌, arith}
use investments.Base.Decimal.{Decimal, nought, ◌⊗◌, ◌≺◌, ◌≼◌, ◌≈◌, nought_parts, mul_nonneg}
use investments.Util.{round_amount, round_tax}
use investments.Util.Rounding.{round_amount_mono, round_amount_zero, round_tax_mono}
use investments.Taxes.Rates.{FixedTaxRate, fixed_tax}

module _ {D : Type 0} ⦃d : Decimal D⦄ where
  taxed_mono :
      (calc : FixedTaxRate D) (a b : D)
      → nought ≼ calc.rate
      → a ≼ b
      → let tax : D → D = λ x. round_tax (round_amount x ⊗ calc.rate) calc.precision in
        (tax a ≼ tax b)
        × (nought ≼ a → nought ≼ tax a)
        × (a ≈ nought → tax a ≈ nought)
        × (nought ≼ b → nought ≼ tax b)
        × (b ≈ nought → tax b ≈ nought)
  taxed_mono calc a b r h =
      let gross : D → D = λ x. round_amount x ⊗ calc.rate in
      let zero_gross : (x : D) → x ≈ nought → gross x ≈ nought = λ x e. omega (
        arith,
        nought_parts d,
        d.mul_zero (round_amount x) calc.rate
            (omega (arith, nought_parts d, round_amount_zero x e)),
      ) in
      let pos_gross : (x : D) → nought ≼ x → nought ≼ gross x = λ x le.
        mul_nonneg (round_amount x) calc.rate
          (omega (
            arith,
            nought_parts d,
            round_amount_mono nought x le,
            round_amount_zero {D = D} nought (omega arith),
          ))
          r in
      (
        (round_tax_mono (gross a) (gross b) calc.precision (
            d.mul_mono (round_amount a) (round_amount b) calc.rate (round_amount_mono a b h)
              (omega (arith, nought_parts d)))).0,
        λ le. (round_tax_mono (gross a) (gross a) calc.precision (omega arith)).1 (pos_gross a le),
        λ e. (round_tax_mono (gross a) (gross a) calc.precision (omega arith)).2 (zero_gross a e),
        λ le. (round_tax_mono (gross b) (gross b) calc.precision (omega arith)).1 (pos_gross b le),
        λ e. (round_tax_mono (gross b) (gross b) calc.precision (omega arith)).2 (zero_gross b e),
      )

  -- At a rate that is not negative, the tax is not negative, it is zero on an income of zero or
  -- less, and it does not fall when the income grows.
  pub fixed_tax_mono :
      (calc : FixedTaxRate D) (income income' : D)
      → nought ≼ calc.rate
      → income ≼ income'
      → (nought ≼ fixed_tax calc income)
        × ((nought ≺ income) ⊎ (fixed_tax calc income ≈ nought))
        × (fixed_tax calc income ≼ fixed_tax calc income')
  unfolding fixed_tax
  fixed_tax_mono calc income income' r h =
      let m = taxed_mono calc income income' r h in
      (
        ground (arith, nought_parts d, m, d.sign_of_neg income),
        ground (arith, nought_parts d, m, d.sign_of_neg income),
        ground (
          arith,
          nought_parts d,
          m,
          d.sign_of_neg income,
          d.sign_of_neg income',
          d.sign_of_pos income',
        ),
      )
