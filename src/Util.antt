-- ===== src/Util.antt =====
-- Checks and rounding of decimals, src/util.rs, and the roundings of src/currency/mod.rs and
-- src/taxes/mod.rs. Parsing, paths and error texts are left out.
pub mod Rounding
use investments.Base.{Bool, true, not, ◌&&◌, ◌||◌, ℕ, Result, ok, err, if◌then◌else◌}
use investments.Base.Decimal.{Decimal, RoundingStrategy, is_zero, negate}

pub data DecimalRestrictions : Type 0 where
  no_restrictions only_zero non_zero negative_or_zero positive_or_zero strictly_positive
        strictly_negative :
      DecimalRestrictions

pub data DecimalError : Type 0 where
  not_compliant : DecimalError

pub data RoundingMethod : Type 0 where
  round_method truncate to_bigger : RoundingMethod

pub strategy : RoundingMethod → RoundingStrategy
strategy round_method = RoundingStrategy.midpoint_away_from_zero
strategy truncate = RoundingStrategy.to_zero
strategy to_bigger = RoundingStrategy.away_from_zero

module _ {D : Type 0} ⦃d : Decimal D⦄ where
  unfoldable pub is_sign_positive : D → Bool
  is_sign_positive value = not (d.is_sign_negative value)

  pub complies : D → DecimalRestrictions → Bool
  unfolding is_sign_positive
  complies value no_restrictions = true
  complies value only_zero = is_zero value
  complies value non_zero = not (is_zero value)
  complies value negative_or_zero = d.is_sign_negative value || is_zero value
  complies value positive_or_zero = is_sign_positive value || is_zero value
  complies value strictly_positive = is_sign_positive value && not (is_zero value)
  complies value strictly_negative = d.is_sign_negative value && not (is_zero value)

  pub validate_decimal : D → DecimalRestrictions → Result DecimalError D
  unfolding complies
  validate_decimal value restrictions =
      if not (complies value restrictions) then err not_compliant else ok value

  pub round_with : D → ℕ → RoundingMethod → D
  unfolding strategy
  round_with value points method =
      let round_value = d.round_dp (strategy method) points value in
      d.normalize (
        if is_zero round_value && d.is_sign_negative round_value
        then negate round_value
        else round_value)

  unfoldable pub round : D → ℕ → D
  unfolding round_with
  round value points = round_with value points round_method

  -- `round` and `round_to` of src/currency/mod.rs.
  unfoldable pub round_amount : D → D
  unfolding round
  round_amount amount = round amount 2

  pub round_to : D → ℕ → D
  unfolding round
  round_to amount points = round amount points

  -- `round_tax` of src/taxes/mod.rs.
  pub round_tax : D → ℕ → D
  unfolding round_amount round_to
  round_tax tax precision = round_to (round_amount tax) precision
