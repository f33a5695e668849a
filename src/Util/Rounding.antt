-- ===== src/Util/Rounding.antt =====
-- The order of amounts under the program's rounding, and what a validated decimal satisfies.
use investments.Base.{◌≡◌, refl, ◌↔◌, ◌⊎◌, ℕ, ok, arith}
use investments.Base.Decimal.{Decimal, nought, negate, ◌≼◌, ◌≺◌, ◌≈◌, nought_parts}
use investments.Util.{
  DecimalRestrictions, RoundingMethod, strategy, complies, validate_decimal, is_sign_positive,
  round_with, round, round_amount, round_to, round_tax,
}

module _ {D : Type 0} ⦃d : Decimal D⦄ where
  round_with-value :
      (value : D) (points : ℕ) (method : RoundingMethod)
      → round_with value points method ≈ d.round_dp (strategy method) points value
  unfolding round_with
  round_with-value value points method =
      let rounded = d.round_dp (strategy method) points value in
      ground
        (arith, d.neg_parts rounded, d.normalize_parts rounded, d.normalize_parts (negate rounded))

  pub round_with_mono :
      (value value' : D) (points : ℕ) (method : RoundingMethod)
      → value ≼ value'
      → round_with value points method ≼ round_with value' points method
  round_with_mono value value' points method h = omega (
    arith,
    round_with-value value points method,
    round_with-value value' points method,
    d.round_mono (strategy method) points value value' h,
  )

  pub round_with_zero :
      (value : D) (points : ℕ) (method : RoundingMethod)
      → value ≈ nought
      → round_with value points method ≈ nought
  round_with_zero value points method h = omega (
    arith,
    nought_parts d,
    round_with-value value points method,
    d.round_zero (strategy method) points value (omega (arith, nought_parts d)),
  )

  -- Rounding to the cent and then to the precision of a country keeps the order of two taxes, and
  -- zero stays zero, so no tax that is not negative is rounded below zero.
  pub round_tax_mono :
      (tax tax' : D) (precision : ℕ)
      → tax ≼ tax'
      → (round_tax tax precision ≼ round_tax tax' precision)
        × (nought ≼ tax → nought ≼ round_tax tax precision)
        × (tax ≈ nought → round_tax tax precision ≈ nought)
  unfolding round_tax round_to round_amount round
  round_tax_mono tax tax' precision h =
      let cents : D → D = λ x. round_with x 2 RoundingMethod.round_method in
      let zero_cents = round_with_zero nought 2 RoundingMethod.round_method (omega arith) in
      (
        round_with_mono (cents tax) (cents tax') precision RoundingMethod.round_method
            (round_with_mono tax tax' 2 RoundingMethod.round_method h),
        λ pos_tax. omega (
          arith,
          zero_cents,
          round_with_mono (cents nought) (cents tax) precision RoundingMethod.round_method
              (round_with_mono nought tax 2 RoundingMethod.round_method pos_tax),
          round_with_zero (cents nought) precision RoundingMethod.round_method zero_cents,
        ),
        λ e.
            round_with_zero (cents tax) precision RoundingMethod.round_method
              (round_with_zero tax 2 RoundingMethod.round_method e),
      )

  -- What each restriction admits, by the value of the decimal: a zero of either sign is a zero.
  pub Admits : DecimalRestrictions → D → Type 0
  Admits DecimalRestrictions.no_restrictions value = Unit
  Admits DecimalRestrictions.only_zero value = value ≈ nought
  Admits DecimalRestrictions.non_zero value = (value ≺ nought) ⊎ (nought ≺ value)
  Admits DecimalRestrictions.negative_or_zero value = value ≼ nought
  Admits DecimalRestrictions.positive_or_zero value = nought ≼ value
  Admits DecimalRestrictions.strictly_positive value = nought ≺ value
  Admits DecimalRestrictions.strictly_negative value = value ≺ nought

  -- A decimal is passed on, unchanged, exactly when its value is in the range that the restriction
  -- names; a zero counts by its value, whatever its sign.
  pub validate_decimal_iff :
      (value : D) (restrictions : DecimalRestrictions)
      → (validate_decimal value restrictions ≡ ok value) ↔ Admits restrictions value
  unfolding validate_decimal complies is_sign_positive Admits
  validate_decimal_iff value DecimalRestrictions.no_restrictions = (λ _. tt, λ _. refl)
  validate_decimal_iff value DecimalRestrictions.only_zero =
      (λ h. ground (arith, nought_parts d), λ h. ground (arith, nought_parts d))
  validate_decimal_iff value DecimalRestrictions.non_zero =
      (λ h. ground (arith, nought_parts d), λ h. ground (arith, nought_parts d))
  validate_decimal_iff value DecimalRestrictions.negative_or_zero = (
    λ h. ground (arith, nought_parts d, d.sign_of_pos value, d.sign_of_neg value),
    λ h. ground (arith, nought_parts d, d.sign_of_neg value, d.sign_of_pos value),
  )
  validate_decimal_iff value DecimalRestrictions.positive_or_zero = (
    λ h. ground (arith, nought_parts d, d.sign_of_pos value, d.sign_of_neg value),
    λ h. ground (arith, nought_parts d, d.sign_of_neg value, d.sign_of_pos value),
  )
  validate_decimal_iff value DecimalRestrictions.strictly_positive = (
    λ h. ground (arith, nought_parts d, d.sign_of_pos value, d.sign_of_neg value),
    λ h. ground (arith, nought_parts d, d.sign_of_neg value, d.sign_of_pos value),
  )
  validate_decimal_iff value DecimalRestrictions.strictly_negative = (
    λ h. ground (arith, nought_parts d, d.sign_of_pos value, d.sign_of_neg value),
    λ h. ground (arith, nought_parts d, d.sign_of_neg value, d.sign_of_pos value),
  )

  -- The rounding of an amount to two digits.
  pub round_amount_mono : (a b : D) → a ≼ b → round_amount a ≼ round_amount b
  unfolding round_amount round
  round_amount_mono a b h = round_with_mono a b 2 RoundingMethod.round_method h

  pub round_amount_zero : (a : D) → a ≈ nought → round_amount a ≈ nought
  unfolding round_amount round
  round_amount_zero a h = round_with_zero a 2 RoundingMethod.round_method h
