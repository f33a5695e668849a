-- ===== src/Base/Decimal/Laws.antt =====
-- The operations of the crate `rust_decimal` that the program calls, and their laws.
use Prim.Native.Nat.{ℕ, ◌+◌, ◌*◌, ◌^◌, ◌≤◌, ◌<◌}
use mathlib.Core.Path.{◌≡◌}
use mathlib.Core.Bool.{Bool, true, false}

-- The strategies of `round_dp_with_strategy` that the program names.
pub data RoundingStrategy : Type 0 where
  midpoint_away_from_zero to_zero away_from_zero : RoundingStrategy

pub record Decimal (D : Type 0) : Type 0 where
  pub pos_part : D → ℕ
  pub neg_part : D → ℕ
  pub add : D → D → D
  pub sub : D → D → D
  pub neg : D → D
  pub mul : D → D → D
  pub div : D → D → D
  pub abs : D → D
  -- `dec m s` is m * 10 ^ -s: the macro `dec!`, and `Decimal::ZERO`.
  pub dec : ℕ → ℕ → D
  pub round_dp : RoundingStrategy → ℕ → D → D
  pub normalize : D → D
  pub is_sign_negative : D → Bool
  pub add_parts :
      (a b : D)
      → pos_part (add a b) + neg_part a + neg_part b ≡ neg_part (add a b) + pos_part a + pos_part b
  pub sub_parts :
      (a b : D)
      → pos_part (sub a b) + neg_part a + pos_part b ≡ neg_part (sub a b) + pos_part a + neg_part b
  pub neg_parts : (a : D) → pos_part (neg a) + pos_part a ≡ neg_part (neg a) + neg_part a
  pub abs_nonneg : (a : D) → neg_part (abs a) ≤ pos_part (abs a)
  pub abs_of_nonneg :
      (a : D)
      → neg_part a ≤ pos_part a
      → pos_part (abs a) + neg_part a ≡ pos_part a + neg_part (abs a)
  pub abs_of_nonpos :
      (a : D)
      → pos_part a ≤ neg_part a
      → pos_part (abs a) + pos_part a ≡ neg_part a + neg_part (abs a)
  pub dec_parts :
      (m s : ℕ) → s ≤ 28 → pos_part (dec m s) * 10 ^ s ≡ neg_part (dec m s) * 10 ^ s + m * 10 ^ 28
  -- A product or quotient is rounded to the digits at hand, which keeps the order.
  pub mul_mono :
      (a b c : D)
      → pos_part a + neg_part b ≤ pos_part b + neg_part a
      → neg_part c ≤ pos_part c
      → pos_part (mul a c) + neg_part (mul b c) ≤ pos_part (mul b c) + neg_part (mul a c)
  pub mul_comm :
      (a b : D) → pos_part (mul a b) + neg_part (mul b a) ≡ pos_part (mul b a) + neg_part (mul a b)
  pub mul_zero : (a c : D) → pos_part a ≡ neg_part a → pos_part (mul a c) ≡ neg_part (mul a c)
  pub mul_one :
      (a c : D)
      → pos_part c ≡ neg_part c + 10 ^ 28
      → pos_part (mul a c) + neg_part a ≡ pos_part a + neg_part (mul a c)
  -- The sign of a product is that of its factors, and digits are rounded by magnitude.
  pub mul_neg :
      (a c : D)
      → pos_part (mul (neg a) c) + pos_part (mul a c)
        ≡ neg_part (mul (neg a) c) + neg_part (mul a c)
  pub div_mono :
      (a b c : D)
      → pos_part a + neg_part b ≤ pos_part b + neg_part a
      → neg_part c < pos_part c
      → pos_part (div a c) + neg_part (div b c) ≤ pos_part (div b c) + neg_part (div a c)
  pub div_zero :
      (a c : D)
      → pos_part a ≡ neg_part a
      → neg_part c < pos_part c
      → pos_part (div a c) ≡ neg_part (div a c)
  pub div_le :
      (a c : D)
      → neg_part a ≤ pos_part a
      → neg_part c + 10 ^ 28 ≤ pos_part c
      → pos_part (div a c) + neg_part a ≤ pos_part a + neg_part (div a c)
  -- What does not exceed the exact quotient does not exceed the rounded one, and the other way round.
  pub div_above :
      (a b c : D)
      → neg_part c < pos_part c
      → pos_part b * pos_part c + neg_part b * neg_part c + neg_part a * 10 ^ 28
        ≤ pos_part a * 10 ^ 28 + pos_part b * neg_part c + neg_part b * pos_part c
      → pos_part b + neg_part (div a c) ≤ pos_part (div a c) + neg_part b
  pub div_below :
      (a b c : D)
      → neg_part c < pos_part c
      → pos_part a * 10 ^ 28 + pos_part b * neg_part c + neg_part b * pos_part c
        ≤ pos_part b * pos_part c + neg_part b * neg_part c + neg_part a * 10 ^ 28
      → pos_part (div a c) + neg_part b ≤ pos_part b + neg_part (div a c)
  pub div_one :
      (a c : D)
      → pos_part c ≡ neg_part c + 10 ^ 28
      → pos_part (div a c) + neg_part a ≡ pos_part a + neg_part (div a c)
  pub div_self :
      (c : D) → neg_part c < pos_part c → pos_part (div c c) ≡ neg_part (div c c) + 10 ^ 28
  pub round_mono :
      (r : RoundingStrategy) (points : ℕ) (a b : D)
      → pos_part a + neg_part b ≤ pos_part b + neg_part a
      → let a' = round_dp r points a in
        let b' = round_dp r points b in pos_part a' + neg_part b' ≤ pos_part b' + neg_part a'
  pub round_zero :
      (r : RoundingStrategy) (points : ℕ) (a : D)
      → pos_part a ≡ neg_part a
      → pos_part (round_dp r points a) ≡ neg_part (round_dp r points a)
  pub round_to_zero :
      (points : ℕ) (a : D)
      → neg_part a ≤ pos_part a
      → let r = round_dp RoundingStrategy.to_zero points a in
        pos_part r + neg_part a ≤ pos_part a + neg_part r
  pub round_away :
      (points : ℕ) (a : D)
      → neg_part a ≤ pos_part a
      → let r = round_dp RoundingStrategy.away_from_zero points a in
        pos_part a + neg_part r ≤ pos_part r + neg_part a
  pub normalize_parts :
      (a : D) → pos_part (normalize a) + neg_part a ≡ pos_part a + neg_part (normalize a)
  pub sign_of_neg : (a : D) → pos_part a < neg_part a → is_sign_negative a ≡ true
  pub sign_of_pos : (a : D) → neg_part a < pos_part a → is_sign_negative a ≡ false
  pub sign_of_dec : (m s : ℕ) → is_sign_negative (dec m s) ≡ false
