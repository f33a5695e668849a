-- ===== src/Base/Decimal/Order.antt =====
-- Notation for decimals, the comparisons of `std::cmp`, and the bounds of products and quotients.
-- The tactics read the laws of `Decimal` from the instance in scope.
use investments.Base.Decimal.Laws.{Decimal}
use investments.Base.Tests.{ltb, leb, Bool-cases, if◌then◌else◌, ◌==◌}
use Prim.Native.Nat.{ℕ, ◌+◌, ◌*◌, ◌^◌, ◌≤◌, ◌<◌}
use mathlib.Core.Path.{◌≡◌}
use mathlib.Core.Bool.{Bool}
use mathlib.Core.Logic.{◌⊎◌, inl, inr}
use mathlib.Core.List.{List, [], ◌∷◌}
use native.Mathlib.Omega.{arith}

pub nought_parts : {D : Type 0} (d : Decimal D) → d.pos_part (d.dec 0 0) ≡ d.neg_part (d.dec 0 0)
nought_parts d = omega (arith, d.dec_parts 0 0 (omega arith))

module _ {D : Type 0} ⦃d : Decimal D⦄ where
  infixl 65 ◌⊕◌ ◌⊖◌
  infixl 70 ◌⊗◌ ◌⊘◌
  infix 50 ◌≼◌ ◌≺◌ ◌≈◌
  abbrev pub ◌⊕◌ : D → D → D
  ◌⊕◌ = d.add

  abbrev pub ◌⊖◌ : D → D → D
  ◌⊖◌ = d.sub

  abbrev pub ◌⊗◌ : D → D → D
  ◌⊗◌ = d.mul

  abbrev pub ◌⊘◌ : D → D → D
  ◌⊘◌ = d.div

  abbrev pub negate : D → D
  negate = d.neg

  abbrev pub dec : ℕ → ℕ → D
  dec = d.dec

  abbrev pub nought : D
  nought = d.dec 0 0

  abbrev pub ◌≼◌ : D → D → Type 0
  a ≼ b = d.pos_part a + d.neg_part b ≤ d.pos_part b + d.neg_part a

  abbrev pub ◌≺◌ : D → D → Type 0
  a ≺ b = d.pos_part a + d.neg_part b < d.pos_part b + d.neg_part a

  abbrev pub ◌≈◌ : D → D → Type 0
  a ≈ b = d.pos_part a + d.neg_part b ≡ d.pos_part b + d.neg_part a

  -- The operators `<`, `<=` and `==` of the type.
  abbrev pub ltd : D → D → Bool
  ltd a b = ltb (d.pos_part a + d.neg_part b) (d.pos_part b + d.neg_part a)

  abbrev pub led : D → D → Bool
  led a b = leb (d.pos_part a + d.neg_part b) (d.pos_part b + d.neg_part a)

  abbrev pub eqd : D → D → Bool
  eqd a b = d.pos_part a + d.neg_part b == d.pos_part b + d.neg_part a

  abbrev pub is_zero : D → Bool
  is_zero a = d.pos_part a == d.neg_part a

  -- `std::cmp::min` and `max`: of equal values `min` takes the first and `max` the second.
  abbrev pub min : D → D → D
  min a b = if ltd b a then b else a

  abbrev pub max : D → D → D
  max a b = if ltd b a then a else b

  -- `Iterator::sum`.
  abbrev pub sum_from : D → List D → D
  sum_from acc [] = acc
  sum_from acc (x ∷ xs) = sum_from (acc ⊕ x) xs

  pub min_bounds : (a b : D) → (min a b ≼ a) × (min a b ≼ b) × ((a ≼ min a b) ⊎ (b ≼ min a b))
  min_bounds a b = ground arith

  pub max_bounds : (a b : D) → (a ≼ max a b) × (b ≼ max a b) × ((max a b ≼ a) ⊎ (max a b ≼ b))
  max_bounds a b = ground arith

  pub mul_nonneg : (a c : D) → nought ≼ a → nought ≼ c → nought ≼ a ⊗ c
  mul_nonneg a c ha hc =
      let le : nought ⊗ c ≼ a ⊗ c = d.mul_mono nought a c ha (omega (arith, nought_parts d)) in
      omega (arith, d.mul_zero nought c (nought_parts d), nought_parts d)

  -- A share of at most the whole is at most the amount.
  pub mul_le_of_le_one : (a c : D) → nought ≼ a → c ≼ dec 1 0 → a ⊗ c ≼ a
  mul_le_of_le_one a c ha hc =
      let le : c ⊗ a ≼ dec 1 0 ⊗ a = d.mul_mono c (dec 1 0) a hc (omega (arith, nought_parts d)) in
      omega (
        arith,
        d.mul_comm a c,
        d.mul_comm a (dec 1 0),
        d.mul_one a (dec 1 0) (omega (arith, d.dec_parts 1 0 (omega arith))),
      )

  pub div_nonneg : (a c : D) → nought ≼ a → nought ≺ c → nought ≼ a ⊘ c
  div_nonneg a c ha hc =
      let pos : d.neg_part c < d.pos_part c = omega (arith, nought_parts d) in
      omega (
        arith,
        d.div_mono nought a c ha pos,
        d.div_zero nought c (nought_parts d) pos,
        nought_parts d,
      )

  -- The magnitude of a decimal, by its sign.
  pub abs_parts :
      (a : D) → (nought ≼ d.abs a) × (nought ≼ a → d.abs a ≈ a) × (a ≼ nought → d.abs a ≈ negate a)
  abs_parts a = (
    omega (arith, nought_parts d, d.abs_nonneg a),
    λ h. omega (arith, nought_parts d, d.abs_of_nonneg a),
    λ h. omega (arith, nought_parts d, d.abs_of_nonpos a, d.neg_parts a),
  )

  -- `t` as the quotient of `a` by `c`, against any amount `x`: if the exact product of `x` and `c` is
  -- not above `a`, then `x` is at most `t`, and if it is not below `a`, then `x` is at least `t`.
  abbrev pub IsQuotient : D → D → D → D → Type 0
  IsQuotient t a c x =
      ((d.pos_part a * 10 ^ 28 + d.pos_part x * d.neg_part c + d.neg_part x * d.pos_part c
          < d.pos_part x * d.pos_part c + d.neg_part x * d.neg_part c + d.neg_part a * 10 ^ 28)
        ⊎ (x ≼ t))
      × ((d.pos_part x * d.pos_part c + d.neg_part x * d.neg_part c + d.neg_part a * 10 ^ 28
            < d.pos_part a * 10 ^ 28 + d.pos_part x * d.neg_part c + d.neg_part x * d.pos_part c)
          ⊎ (t ≼ x))

  pub div-IsQuotient : (a c x : D) → nought ≺ c → IsQuotient (a ⊘ c) a c x
  div-IsQuotient a c x h =
      let divisor : d.neg_part c < d.pos_part c = omega (arith, h, nought_parts d) in
      let above = d.div_above a x c divisor in
      let below = d.div_below a x c divisor in
      let product =
        d.pos_part x * d.pos_part c + d.neg_part x * d.neg_part c + d.neg_part a * 10 ^ 28 in
      let whole =
        d.pos_part a * 10 ^ 28 + d.pos_part x * d.neg_part c + d.neg_part x * d.pos_part c in
      (
        elim (Bool-cases (leb product whole)) [
          | inl e ↦ inr (above (ground (arith, e)))
          | inr e ↦ inl (ground (arith, e))
        ],
        elim (Bool-cases (leb whole product)) [
          | inl e ↦ inr (below (ground (arith, e)))
          | inr e ↦ inl (ground (arith, e))
        ],
      )
