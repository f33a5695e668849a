-- ===== src/Base/Decimal/Units.antt =====
-- A decimal type that meets the laws: integers that count units of 10 ^ -28, with products and
-- quotients cut off towards zero. The examples and tests run on it.
use investments.Base.Int.{
  ℤ, pos, negsuc, pos_part, neg_part, ◌+ℤ◌, ◌-ℤ◌, ◌*ℤ◌, ◌≤ℤ◌, +ℤ_parts, -ℤ_parts, *ℤ_parts,
  eq_of_parts,
}
use investments.Base.Decimal.Laws.{Decimal, RoundingStrategy}
use investments.Base.Decimal.Magnitude.{
  one, digit, digit_pos, pow_digit, minus, minus_parts, on_magnitude, on_magnitude_mono, cut,
  cut_mono, cut_zero, cut_le, cut_mul, round_by, round_by_mono, round_by_zero, below_le, le_above,
}
use Prim.Native.Nat.{ℕ, zero, suc, ◌+◌, ◌*◌, ◌^◌, ◌≤◌, ◌<◌}
use mathlib.Core.Path.{◌≡◌, refl, sym, ap, ◌∙◌}
use mathlib.Core.Bool.{Bool, true, false}
use native.Mathlib.Nat.{mul-le-mul_right, mul-le-mul_left}
use native.Mathlib.Omega.{arith}

scale : ℤ → ℕ → ℤ
scale a n = a *ℤ pos n

scale_mono : (a b : ℤ) (n : ℕ) → a ≤ℤ b → scale a n ≤ℤ scale b n
unfolding scale
scale_mono a b n h = omega (arith, *ℤ_parts a (pos n), *ℤ_parts b (pos n), mul-le-mul_right n h)

pub mul : ℤ → ℤ → ℤ
unfolding on_magnitude cut
mul a c = on_magnitude (cut one) (a *ℤ c)

-- A division by zero, which the crate refuses, gives 0 here.
pub div : ℤ → ℤ → ℤ
unfolding on_magnitude scale cut
div a (pos c) = on_magnitude (cut c) (scale a one)
div a (negsuc c) = pos 0 -ℤ on_magnitude (cut (suc c)) (scale a one)

pub abs : ℤ → ℤ
abs (pos n) = pos n
abs (negsuc n) = pos (suc n)

pub round_dp : RoundingStrategy → ℕ → ℤ → ℤ
unfolding on_magnitude round_by digit
round_dp r points = on_magnitude (round_by r (digit points))

pub is_sign_negative : ℤ → Bool
is_sign_negative (pos n) = false
is_sign_negative (negsuc n) = true

pub mul_mono : (a b c : ℤ) → a ≤ℤ b → neg_part c ≤ pos_part c → mul a c ≤ℤ mul b c
unfolding mul
mul_mono a b (pos n) h k =
    on_magnitude_mono (cut one) (cut_mono one) (a *ℤ pos n) (b *ℤ pos n)
      (unfold scale in scale_mono a b n h)
mul_mono a b (negsuc n) h k = absurd (omega arith)

pub div_mono : (a b c : ℤ) → a ≤ℤ b → neg_part c < pos_part c → div a c ≤ℤ div b c
unfolding div
div_mono a b (pos n) h k =
    on_magnitude_mono (cut n) (cut_mono n) (scale a one) (scale b one) (scale_mono a b one h)
div_mono a b (negsuc n) h k = absurd (omega arith)

zero_of_parts : (a : ℤ) → pos_part a ≡ neg_part a → a ≡ pos 0
zero_of_parts a h = ground arith

*ℤ_pos : (a : ℤ) (m : ℕ) → a *ℤ pos m ≡ on_magnitude (λ n. n * m) a
unfolding on_magnitude
*ℤ_pos (pos n) m = eq_of_parts _ _ (omega (arith, *ℤ_parts (pos n) (pos m)))
*ℤ_pos (negsuc n) m =
    eq_of_parts _ _ (omega (arith, *ℤ_parts (negsuc n) (pos m), minus_parts (suc n * m)))

*ℤ_comm : (a b : ℤ) → a *ℤ b ≡ b *ℤ a
*ℤ_comm a b = eq_of_parts _ _ (omega (arith, *ℤ_parts a b, *ℤ_parts b a))

pos_zero_*ℤ : (c : ℤ) → pos 0 *ℤ c ≡ pos 0
pos_zero_*ℤ c = eq_of_parts _ _ (omega (arith, *ℤ_parts (pos 0) c))

on_magnitude-minus : (f : ℕ → ℕ) (n : ℕ) → f 0 ≡ 0 → on_magnitude f (minus n) ≡ minus (f n)
unfolding on_magnitude minus
on_magnitude-minus f zero h = rw (h, minus) refl
on_magnitude-minus f (suc n) h = refl

-- Scaling by `k` and cutting by `k` again changes nothing.
cut-scale : (a : ℤ) (k : ℕ) → 0 < k → on_magnitude (cut k) (a *ℤ pos k) ≡ a
unfolding on_magnitude
cut-scale (pos n) k h = rw (*ℤ_pos (pos n) k) (ap pos (cut_mul n k h))
cut-scale (negsuc n) k h =
    rw (*ℤ_pos (negsuc n) k)
      (on_magnitude-minus (cut k) (suc n * k) (cut_zero k) ∙ ap minus (cut_mul (suc n) k h))

pub mul_zero : (a c : ℤ) → pos_part a ≡ neg_part a → pos_part (mul a c) ≡ neg_part (mul a c)
unfolding mul ◌*ℤ◌
mul_zero a c h = rw (zero_of_parts a h) (rw (pos_zero_*ℤ c) (unfold on_magnitude in cut_zero one))

pub mul_comm_parts : (a b : ℤ) → mul a b ≡ mul b a
unfolding mul
mul_comm_parts a b = ap (on_magnitude (cut one)) (*ℤ_comm a b)

pub mul_one :
    (a c : ℤ)
    → pos_part c ≡ neg_part c + one
    → pos_part (mul a c) + neg_part a ≡ pos_part a + neg_part (mul a c)
unfolding mul
mul_one a (pos n) h =
    let e : n ≡ one = omega arith in rw e (rw (cut-scale a one (omega arith)) (omega arith))
mul_one a (negsuc n) h = absurd (omega arith)

opposite : (a : ℤ) → (pos_part (pos 0 -ℤ a) ≡ neg_part a) × (neg_part (pos 0 -ℤ a) ≡ pos_part a)
unfolding ◌-ℤ◌
opposite a = ground arith

on_magnitude-opposite :
    (f : ℕ → ℕ) (z : ℤ)
    → f 0 ≡ 0
    → pos_part (on_magnitude f (pos 0 -ℤ z)) + pos_part (on_magnitude f z)
      ≡ neg_part (on_magnitude f (pos 0 -ℤ z)) + neg_part (on_magnitude f z)
on_magnitude-opposite f (pos zero) h =
    let e : pos 0 -ℤ pos 0 ≡ pos 0 = eq_of_parts _ _ (omega (arith, -ℤ_parts (pos 0) (pos 0))) in
    rw e (unfold on_magnitude in omega (arith, h))
on_magnitude-opposite f (pos (suc n)) h =
    let e : pos 0 -ℤ pos (suc n) ≡ negsuc n =
      eq_of_parts _ _ (omega (arith, -ℤ_parts (pos 0) (pos (suc n)))) in
    rw e (unfold on_magnitude in omega (arith, minus_parts (f (suc n))))
on_magnitude-opposite f (negsuc n) h =
    let e : pos 0 -ℤ negsuc n ≡ pos (suc n) =
      eq_of_parts _ _ (omega (arith, -ℤ_parts (pos 0) (negsuc n))) in
    rw e (unfold on_magnitude in omega (arith, minus_parts (f (suc n))))

*ℤ-opposite : (a c : ℤ) → (pos 0 -ℤ a) *ℤ c ≡ pos 0 -ℤ (a *ℤ c)
*ℤ-opposite a c =
    let (p, n) = opposite a in
    let product : pos_part ((pos 0 -ℤ a) *ℤ c) + neg_part a * neg_part c + pos_part a * pos_part c
        ≡ neg_part ((pos 0 -ℤ a) *ℤ c) + neg_part a * pos_part c + pos_part a * neg_part c =
      rw (sym p, sym n) (*ℤ_parts (pos 0 -ℤ a) c) in
    eq_of_parts _ _ (omega (arith, product, *ℤ_parts a c, -ℤ_parts (pos 0) (a *ℤ c)))

pub mul_neg :
    (a c : ℤ)
    → pos_part (mul (pos 0 -ℤ a) c) + pos_part (mul a c)
      ≡ neg_part (mul (pos 0 -ℤ a) c) + neg_part (mul a c)
unfolding mul
mul_neg a c = rw (*ℤ-opposite a c) (on_magnitude-opposite (cut one) (a *ℤ c) (cut_zero one))

pub div_above :
    (a b c : ℤ)
    → neg_part c < pos_part c
    → pos_part b * pos_part c + neg_part b * neg_part c + neg_part a * one
      ≤ pos_part a * one + pos_part b * neg_part c + neg_part b * pos_part c
    → b ≤ℤ div a c
unfolding div scale
div_above a b (pos n) k h =
    let le : b *ℤ pos n ≤ℤ a *ℤ pos one =
      omega (arith, h, *ℤ_parts b (pos n), *ℤ_parts a (pos one)) in
    let mono = on_magnitude_mono (cut n) (cut_mono n) (b *ℤ pos n) (a *ℤ pos one) le in
    rw (cut-scale b n (omega (arith, k))) at mono
div_above a b (negsuc n) k h = absurd (omega arith)

pub div_below :
    (a b c : ℤ)
    → neg_part c < pos_part c
    → pos_part a * one + pos_part b * neg_part c + neg_part b * pos_part c
      ≤ pos_part b * pos_part c + neg_part b * neg_part c + neg_part a * one
    → div a c ≤ℤ b
unfolding div scale
div_below a b (pos n) k h =
    let le : a *ℤ pos one ≤ℤ b *ℤ pos n =
      omega (arith, h, *ℤ_parts b (pos n), *ℤ_parts a (pos one)) in
    let mono = on_magnitude_mono (cut n) (cut_mono n) (a *ℤ pos one) (b *ℤ pos n) le in
    rw (cut-scale b n (omega (arith, k))) at mono
div_below a b (negsuc n) k h = absurd (omega arith)

pub div_one :
    (a c : ℤ)
    → pos_part c ≡ neg_part c + one
    → pos_part (div a c) + neg_part a ≡ pos_part a + neg_part (div a c)
unfolding div scale
div_one a (pos n) h =
    let e : n ≡ one = omega arith in rw e (rw (cut-scale a one (omega arith)) (omega arith))
div_one a (negsuc n) h = absurd (omega arith)

pub div_self : (c : ℤ) → neg_part c < pos_part c → pos_part (div c c) ≡ neg_part (div c c) + one
unfolding div scale
div_self (pos c) h =
    rw (*ℤ_comm (pos c) (pos one)) (rw (cut-scale (pos one) c (omega arith)) (omega arith))
div_self (negsuc c) h = absurd (omega arith)

pub div_zero :
    (a c : ℤ)
    → pos_part a ≡ neg_part a
    → neg_part c < pos_part c
    → pos_part (div a c) ≡ neg_part (div a c)
unfolding div scale ◌*ℤ◌ on_magnitude
div_zero a (pos c) h k = rw (zero_of_parts a h) (ground (arith, cut_zero c))
div_zero a (negsuc c) h k = absurd (omega arith)

pub div_le :
    (a c : ℤ)
    → neg_part a ≤ pos_part a
    → neg_part c + one ≤ pos_part c
    → pos_part (div a c) + neg_part a ≤ pos_part a + neg_part (div a c)
unfolding div scale on_magnitude
div_le (pos n) (pos c) h k =
    let e : cut c (n * one) ≤ n =
      cut_le c (n * one) n (omega arith) (mul-le-mul_left n (omega arith)) in
    unfold scale in rw (*ℤ_pos (pos n) one) (omega arith)
div_le (negsuc n) (pos c) h k = absurd (omega arith)
div_le a (negsuc c) h k = absurd (omega arith)

pub round_dp_mono :
    (r : RoundingStrategy) (points : ℕ) (a b : ℤ)
    → a ≤ℤ b
    → round_dp r points a ≤ℤ round_dp r points b
unfolding round_dp
round_dp_mono r points a b h =
    on_magnitude_mono (round_by r (digit points)) (round_by_mono r (digit points)) a b h

pub round_zero :
    (r : RoundingStrategy) (points : ℕ) (a : ℤ)
    → pos_part a ≡ neg_part a
    → pos_part (round_dp r points a) ≡ neg_part (round_dp r points a)
unfolding round_dp
round_zero r points a h = rw (zero_of_parts a h) (round_by_zero r (digit points) (digit_pos points))

pub round_to_zero :
    (points : ℕ) (a : ℤ) → neg_part a ≤ pos_part a → round_dp RoundingStrategy.to_zero points a ≤ℤ a
unfolding round_dp
round_to_zero points (pos n) h = omega (arith, below_le (digit points) n)
round_to_zero points (negsuc n) h = absurd (omega arith)

pub round_away :
    (points : ℕ) (a : ℤ)
    → neg_part a ≤ pos_part a
    → a ≤ℤ round_dp RoundingStrategy.away_from_zero points a
unfolding round_dp
round_away points (pos n) h = omega (arith, le_above (digit points) n (digit_pos points))
round_away points (negsuc n) h = absurd (omega arith)

pub abs_cases :
    (a : ℤ)
    → (neg_part (abs a) ≤ pos_part (abs a))
      × (neg_part a ≤ pos_part a → pos_part (abs a) + neg_part a ≡ pos_part a + neg_part (abs a))
      × (pos_part a ≤ neg_part a → pos_part (abs a) + pos_part a ≡ neg_part a + neg_part (abs a))
unfolding abs
abs_cases a = ground arith

pub sign_of_neg : (a : ℤ) → pos_part a < neg_part a → is_sign_negative a ≡ true
unfolding is_sign_negative
sign_of_neg a h = ground arith

pub sign_of_pos : (a : ℤ) → neg_part a < pos_part a → is_sign_negative a ≡ false
unfolding is_sign_negative
sign_of_pos a h = ground arith

pub neg_law : (a : ℤ) → pos_part (pos 0 -ℤ a) + pos_part a ≡ neg_part (pos 0 -ℤ a) + neg_part a
neg_law a = omega (arith, -ℤ_parts (pos 0) a)

pub sign_of_dec : (m s : ℕ) → is_sign_negative (pos (m * digit s)) ≡ false
unfolding is_sign_negative
sign_of_dec m s = refl

pub dec_law : (m s : ℕ) → s ≤ 28 → m * digit s * 10 ^ s ≡ 0 * 10 ^ s + m * 10 ^ 28
dec_law m s h = omega (arith, ap (λ (t : ℕ). m * t) (pow_digit s h))

instance abbrev pub units : Decimal ℤ
units = record {
  pos_part = pos_part;
  neg_part = neg_part;
  add = ◌+ℤ◌;
  sub = ◌-ℤ◌;
  neg = λ a. pos 0 -ℤ a;
  mul = mul;
  div = div;
  abs = abs;
  dec = λ m s. pos (m * digit s);
  round_dp = round_dp;
  normalize = λ a. a;
  is_sign_negative = is_sign_negative;
  add_parts = +ℤ_parts;
  sub_parts = -ℤ_parts;
  neg_parts = neg_law;
  abs_nonneg = λ a. (abs_cases a).0;
  abs_of_nonneg = λ a. (abs_cases a).1;
  abs_of_nonpos = λ a. (abs_cases a).2;
  dec_parts = dec_law;
  mul_mono = mul_mono;
  mul_comm = λ a b. rw (mul_comm_parts a b);
  mul_zero = mul_zero;
  mul_one = mul_one;
  mul_neg = mul_neg;
  div_mono = div_mono;
  div_zero = div_zero;
  div_le = div_le;
  div_above = div_above;
  div_below = div_below;
  div_one = div_one;
  div_self = div_self;
  round_mono = round_dp_mono;
  round_zero = round_zero;
  round_to_zero = round_to_zero;
  round_away = round_away;
  normalize_parts = λ a. refl;
  sign_of_neg = sign_of_neg;
  sign_of_pos = sign_of_pos;
  sign_of_dec = sign_of_dec;
}
