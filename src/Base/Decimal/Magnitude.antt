-- ===== src/Base/Decimal/Magnitude.antt =====
-- Division, rounding and scaling of integers by their magnitude, for `Units`.
use investments.Base.Tests.{◌==◌, holds_up_to, holds_up_to-test, ==→eq}
use investments.Base.Int.{ℤ, pos, negsuc, pos_part, neg_part, ◌≤ℤ◌}
use investments.Base.Decimal.Laws.{RoundingStrategy}
use Prim.Native.Nat.{ℕ, zero, suc, ◌+◌, ◌-◌, ◌*◌, ◌/◌, ◌^◌, ◌≤◌, ◌<◌}
use mathlib.Core.Path.{◌≡◌, refl}
use native.Mathlib.Nat.{
  one-le-pow, mul-div_cancel, div-zero, le-div_iff_mul-le, le_trans, div-mul-le_self, div-eq_of_lt,
  div-le_of_le-mul, mul_comm, mul-le-mul_right, mod-lt, div-add-mod',
}
use native.Mathlib.Omega.{arith}

abbrev pub one : ℕ
one = 10 ^ 28

-- The size of the last digit that is kept.
unfoldable pub digit : ℕ → ℕ
digit points = 10 ^ (28 - points)

unfoldable pub minus : ℕ → ℤ
minus zero = pos 0
minus (suc n) = negsuc n

unfoldable pub on_magnitude : (ℕ → ℕ) → ℤ → ℤ
unfolding minus
on_magnitude f (pos n) = pos (f n)
on_magnitude f (negsuc n) = minus (f (suc n))

pub minus_parts : (n : ℕ) → (pos_part (minus n) ≡ 0) × (neg_part (minus n) ≡ n)
unfolding minus
minus_parts zero = (refl, refl)
minus_parts (suc n) = (refl, refl)

module _ (f : ℕ → ℕ) (mono : (m n : ℕ) → m ≤ n → f m ≤ f n) where
  pub on_magnitude_mono : (a b : ℤ) → a ≤ℤ b → on_magnitude f a ≤ℤ on_magnitude f b
  unfolding on_magnitude
  on_magnitude_mono (pos m) (pos n) h = omega (arith, mono m n (omega arith))
  on_magnitude_mono (pos m) (negsuc n) h = absurd (omega arith)
  on_magnitude_mono (negsuc m) (pos n) h = omega (arith, minus_parts (f (suc m)))
  on_magnitude_mono (negsuc m) (negsuc n) h =
      omega (
        arith,
        minus_parts (f (suc m)),
        minus_parts (f (suc n)),
        mono (suc n) (suc m) (omega arith),
      )

-- Division by a positive number, cut off towards zero.
unfoldable pub cut : ℕ → ℕ → ℕ
cut k n = n / k

pub cut_mono : (k m n : ℕ) → m ≤ n → cut k m ≤ cut k n
unfolding cut
cut_mono zero m n h = ground (arith, div-zero m, div-zero n)
cut_mono (suc k) m n h = omega (
  arith,
  (le-div_iff_mul-le {k = suc k} {x = m / suc k} {y = n} (omega arith)).1
      (le_trans (div-mul-le_self m (suc k)) h),
)

pub pow_digit : (s : ℕ) → s ≤ 28 → digit s * 10 ^ s ≡ one
unfolding digit holds_up_to
pow_digit s h = ==→eq _ _ (holds_up_to-test (λ k. 10 ^ (28 - k) * 10 ^ k == one) 28 h refl)

pub nearest : ℕ → ℕ → ℕ
nearest u n = (n + u / 2) / u * u

pub below : ℕ → ℕ → ℕ
below u n = n / u * u

unfoldable pub above : ℕ → ℕ → ℕ
above u n = (n + (u - 1)) / u * u

unfoldable pub round_by : RoundingStrategy → ℕ → ℕ → ℕ
unfolding nearest below above
round_by RoundingStrategy.midpoint_away_from_zero u n = nearest u n
round_by RoundingStrategy.to_zero u n = below u n
round_by RoundingStrategy.away_from_zero u n = above u n

pub below_mono : (u m n : ℕ) → m ≤ n → below u m ≤ below u n
unfolding below
below_mono u m n h = mul-le-mul_right u (unfold cut in cut_mono u m n h)

pub round_by_mono : (r : RoundingStrategy) (u m n : ℕ) → m ≤ n → round_by r u m ≤ round_by r u n
unfolding round_by below
round_by_mono RoundingStrategy.midpoint_away_from_zero u m n h =
    below_mono u (m + u / 2) (n + u / 2) (omega arith)
round_by_mono RoundingStrategy.to_zero u m n h = below_mono u m n h
round_by_mono RoundingStrategy.away_from_zero u m n h =
    below_mono u (m + (u - 1)) (n + (u - 1)) (omega arith)

pub round_by_zero : (r : RoundingStrategy) (u : ℕ) → 0 < u → round_by r u 0 ≡ 0
unfolding round_by
round_by_zero RoundingStrategy.midpoint_away_from_zero u h =
    let z : (0 + u / 2) / u ≡ 0 = div-eq_of_lt (omega arith) in rw z (omega arith)
round_by_zero RoundingStrategy.to_zero u h =
    let z : 0 / u ≡ 0 = div-eq_of_lt h in rw z (omega arith)
round_by_zero RoundingStrategy.away_from_zero u h =
    let z : (0 + (u - 1)) / u ≡ 0 = div-eq_of_lt (omega arith) in rw z (omega arith)

pub digit_pos : (p : ℕ) → 0 < digit p
unfolding digit
digit_pos p = one-le-pow (28 - p) 10 (omega arith)

pub below_le : (u n : ℕ) → below u n ≤ n
unfolding below
below_le u n = div-mul-le_self n u

pub le_above : (u n : ℕ) → 0 < u → n ≤ above u n
unfolding above
le_above u n h = omega (arith, div-add-mod' (n + (u - 1)) u, mod-lt (n + (u - 1)) h)

pub cut_zero : (k : ℕ) → cut k 0 ≡ 0
unfolding cut
cut_zero zero = refl
cut_zero (suc k) = div-eq_of_lt (omega arith)

pub cut_le : (k m n : ℕ) → 0 < k → m ≤ n * k → cut k m ≤ n
unfolding cut
cut_le k m n h le = div-le_of_le-mul k (rw mul_comm le)

pub cut_mul : (m k : ℕ) → 0 < k → cut k (m * k) ≡ m
unfolding cut
cut_mul m k h = mul-div_cancel m h
