-- ===== src/Taxes/Spain/Credit.antt =====
-- The credit for tax withheld abroad, src/taxes/spain/credit.rs.
use investments.Base.{◌⊎◌, inl, inr, List, [], ◌∷◌, map, arith}
use investments.Base.Decimal.{
  Decimal, nought, ◌⊕◌, ◌⊗◌, ◌≼◌, ◌≈◌, min, max, sum_from, nought_parts, mul_nonneg,
}

module _ {D : Type 0} ⦃d : Decimal D⦄ where
  pub treaty_capped_credit : D → D → D → D
  treaty_capped_credit withheld_eur gross_eur treaty_rate =
      max nought (min withheld_eur (gross_eur ⊗ treaty_rate))

  pub double_taxation_credit : D → D → D → D
  double_taxation_credit treaty_capped_eur taxable_eur average_savings_rate =
      let rate_capped = taxable_eur ⊗ average_savings_rate in
      max nought (min treaty_capped_eur rate_capped)

  -- The payments of a year, each with its withholding and its gross amount, as the callers sum them.
  pub capped_sum : D → D → List (D × D) → D
  capped_sum treaty_rate acc payments =
      sum_from acc (map (λ p. treaty_capped_credit p.0 p.1 treaty_rate) payments)

  -- Withholding and gross amounts that are not negative.
  abbrev pub ArePayments : List (D × D) → Type 0
  ArePayments [] = Unit
  ArePayments ((withheld, gross) ∷ rest) = (nought ≼ withheld) × (nought ≼ gross) × ArePayments rest

  capped_sum_bounds :
      (treaty_rate acc withheld gross : D) (payments : List (D × D))
      → ArePayments payments
      → nought ≼ treaty_rate
      → nought ≼ acc
      → acc ≼ withheld
      → acc ≼ gross
      → let sum = capped_sum treaty_rate acc payments in
        (nought ≼ sum)
        × (sum ≼ sum_from withheld (map (λ p. p.0) payments))
        × (sum ≼ sum_from gross (map (λ p. p.1 ⊗ treaty_rate) payments))
  unfolding capped_sum treaty_capped_credit
  capped_sum_bounds treaty_rate acc withheld gross [] h r a w g = (a, w, g)
  capped_sum_bounds treaty_rate acc withheld gross ((w, g) ∷ rest) (hw, hg, h) r ha le_w le_g =
      let cap = max nought (min w (g ⊗ treaty_rate)) in
      let product = mul_nonneg g treaty_rate hg r in
      capped_sum_bounds treaty_rate (acc ⊕ cap) (withheld ⊕ w) (gross ⊕ g ⊗ treaty_rate) rest h r
        (ground (arith, nought_parts d, d.add_parts acc cap))
        (ground (arith, nought_parts d, product, d.add_parts acc cap, d.add_parts withheld w))
        (ground (
          arith,
          nought_parts d,
          product,
          d.add_parts acc cap,
          d.add_parts gross (g ⊗ treaty_rate),
        ))

  -- For payments with no negative amount, at treaty and average rates that are not negative, the
  -- credit of a year is not negative, and it exceeds neither the sum withheld, nor the sum of what
  -- the treaty lets the source state levy on each payment, nor the tax at the average rate on a
  -- taxable amount that is not negative.
  pub double_taxation_credit_bounds :
      (treaty_rate taxable average_rate : D) (payments : List (D × D))
      → ArePayments payments
      → nought ≼ treaty_rate
      → nought ≼ taxable
      → nought ≼ average_rate
      → let credit =
          double_taxation_credit (capped_sum treaty_rate nought payments) taxable average_rate in
        (nought ≼ credit)
        × (credit ≼ sum_from nought (map (λ p. p.0) payments))
        × (credit ≼ sum_from nought (map (λ p. p.1 ⊗ treaty_rate) payments))
        × (credit ≼ taxable ⊗ average_rate)
  unfolding double_taxation_credit
  double_taxation_credit_bounds treaty_rate taxable average_rate payments h r t a =
      let zero_le : ◌≼◌ {D = D} nought nought = omega arith in
      let sums =
        capped_sum_bounds treaty_rate nought nought nought payments h r zero_le zero_le zero_le in
      let product = mul_nonneg taxable average_rate t a in
      (
        ground (arith, nought_parts d, sums.0, product),
        ground (arith, nought_parts d, sums.0, sums.1, product),
        ground (arith, nought_parts d, sums.0, sums.2, product),
        ground (arith, nought_parts d, sums.0, product),
      )

  -- With nothing taxed here, or taxed at a rate of zero, there is no credit, whatever was withheld.
  pub no_credit_without_spanish_tax :
      (capped taxable average_rate : D)
      → nought ≼ average_rate
      → (taxable ≼ nought) ⊎ ((nought ≼ taxable) × (average_rate ≼ nought))
      → double_taxation_credit capped taxable average_rate ≈ nought
  unfolding double_taxation_credit
  no_credit_without_spanish_tax capped taxable rate h (inl le) =
      let zero = d.mul_zero nought rate (nought_parts d) in
      let low = d.mul_mono taxable nought rate le (omega (arith, nought_parts d)) in
      ground (arith, nought_parts d, low, zero)
  no_credit_without_spanish_tax capped taxable rate h (inr (pos_base, le)) =
      let none_due = d.mul_zero rate taxable (omega (arith, nought_parts d)) in
      ground (arith, nought_parts d, none_due, d.mul_comm taxable rate)
