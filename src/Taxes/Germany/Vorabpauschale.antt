-- ===== src/Taxes/Germany/Vorabpauschale.antt =====
-- The advance lump sum on funds, src/taxes/germany/vorabpauschale.rs. `first_business_day_of_year`,
-- which walks the calendar of the crate `chrono`, is left out.
use Prim.Native.Nat.{min as min_u32}
use investments.Base.{
  ℕ, ◌-◌, ◌≤◌, ◌<◌, ◌≡◌, ◌&&◌, Option, none, some, if◌then◌else◌, leb, ltb, Bool-cases, ◌⊎◌, inl,
  inr, arith,
}
use investments.Base.Decimal.{
  Decimal, nought, dec, ◌⊕◌, ◌⊖◌, ◌⊗◌, ◌⊘◌, ◌≼◌, ◌≺◌, ◌≈◌, min, max, ltd, nought_parts, mul_nonneg,
  div_nonneg,
}

pub full_months_before_acquisition : Option ℕ → ℕ
full_months_before_acquisition none = 0
full_months_before_acquisition (some month) = if leb 1 month && leb month 12 then month - 1 else 0

months_held : ℕ → ℕ
months_held full_months = 12 - min_u32 full_months 12

twelve : {D : Type 0} (d : Decimal D) → d.neg_part (d.dec 12 0) < d.pos_part (d.dec 12 0)
twelve d = omega (arith, d.dec_parts 12 0 (omega arith))

months_nonneg :
    {D : Type 0} (d : Decimal D) (n : ℕ) → d.neg_part (d.dec n 0) ≤ d.pos_part (d.dec n 0)
months_nonneg d n = omega (arith, d.dec_parts n 0 (omega arith))

module _ {D : Type 0} ⦃d : Decimal D⦄ where
  basisertrag : D → D → D
  basisertrag nav_jan1 basiszins = nav_jan1 ⊗ basiszins ⊗ dec 7 1

  uncapped : D → D → D → D → D
  unfolding basisertrag
  uncapped nav_jan1 nav_dec31 distributions basiszins =
      let value_increase = max (nav_dec31 ⊖ nav_jan1) nought in
      max (min (basisertrag nav_jan1 basiszins ⊖ distributions) value_increase) nought

  -- The share of a year, for an amount.
  pub twelfths : D → ℕ → D
  unfolding months_held
  twelfths amount full_months = amount ⊗ dec (months_held full_months) 0 ⊘ dec 12 0

  pub vorabpauschale : D → D → D → D → ℕ → D
  unfolding uncapped twelfths
  vorabpauschale nav_jan1 nav_dec31 distributions basiszins full_months =
      twelfths (uncapped nav_jan1 nav_dec31 distributions basiszins) full_months

  -- The statutory cap: at most the value increase and the distributions together, of which the
  -- distributions come off.
  pub statutory : D → D → D → D → D
  unfolding basisertrag
  statutory nav_jan1 nav_dec31 distributions basiszins =
      max
        (min (basisertrag nav_jan1 basiszins) (nav_dec31 ⊖ nav_jan1 ⊕ distributions)
          ⊖ distributions)
        nought

  uncapped-eq-statutory :
      (nav_jan1 nav_dec31 distributions basiszins : D)
      → uncapped nav_jan1 nav_dec31 distributions basiszins
        ≈ statutory nav_jan1 nav_dec31 distributions basiszins
  unfolding uncapped statutory
  uncapped-eq-statutory j e x z =
      let b = j ⊗ z ⊗ dec 7 1 in
      ground (arith, d.sub_parts b x, d.add_parts (e ⊖ j) x, d.sub_parts (e ⊖ j ⊕ x) x)

  twelfths_mono : (a b : D) (m n : ℕ) → nought ≼ a → a ≼ b → n ≤ m → twelfths a m ≼ twelfths b n
  unfolding twelfths months_held
  twelfths_mono a b m n pos le h =
      let k = months_held m in
      let l = months_held n in
      let less : dec {D = D} k 0 ≼ dec l 0 =
        omega (arith, d.dec_parts k 0 (omega arith), d.dec_parts l 0 (omega arith)) in
      let b_nonneg : d.neg_part b ≤ d.pos_part b = omega (arith, nought_parts d) in
      let k_nonneg : d.neg_part (dec k 0) ≤ d.pos_part (dec k 0) = months_nonneg d k in
      let s₁ = d.mul_mono a b (dec k 0) le k_nonneg in
      let s₂ = d.mul_mono (dec k 0) (dec l 0) b less b_nonneg in
      d.div_mono (a ⊗ dec k 0) (b ⊗ dec l 0) (dec 12 0)
        (omega (arith, s₁, s₂, d.mul_comm b (dec k 0), d.mul_comm b (dec l 0))) (twelve d)

  module _ (nav_jan1 nav_dec31 distributions basiszins : D) where
    uncapped_nonneg : nought ≼ uncapped nav_jan1 nav_dec31 distributions basiszins
    unfolding uncapped
    uncapped_nonneg = ground arith

    -- Taking the `min` against the value increase after the distributions is the statutory cap, as
    -- the source claims, and this for an increase of either sign.
    pub vorabpauschale-eq-statutory :
        (full_months : ℕ)
        → vorabpauschale nav_jan1 nav_dec31 distributions basiszins full_months
          ≈ twelfths (statutory nav_jan1 nav_dec31 distributions basiszins) full_months
    unfolding vorabpauschale
    vorabpauschale-eq-statutory m =
        let a = uncapped nav_jan1 nav_dec31 distributions basiszins in
        let b = statutory nav_jan1 nav_dec31 distributions basiszins in
        let e : a ≈ b =
          unfold uncapped in uncapped-eq-statutory nav_jan1 nav_dec31 distributions basiszins in
        let pos = uncapped_nonneg in
        omega (
          arith,
          twelfths_mono a b m m pos (omega (arith, e)) (omega arith),
          twelfths_mono b a m m (omega (arith, e, pos)) (omega (arith, e)) (omega arith),
        )

    uncapped_zero :
        nav_dec31 ≼ nav_jan1
        → let a = uncapped nav_jan1 nav_dec31 distributions basiszins in d.pos_part a ≡ d.neg_part a
    unfolding uncapped
    uncapped_zero fall = ground (arith, fall, nought_parts d, d.sub_parts nav_dec31 nav_jan1)

    late :
        {m : ℕ}
        → 12 ≤ m
        → let a = uncapped nav_jan1 nav_dec31 distributions basiszins in
          let share : D = dec (months_held m) 0 in d.pos_part (a ⊗ share) ≡ d.neg_part (a ⊗ share)
    unfolding months_held
    late {m} year =
        let a = uncapped nav_jan1 nav_dec31 distributions basiszins in
        let k = months_held m in
        let z : d.pos_part (dec k 0) ≡ d.neg_part (dec k 0) =
          omega (arith, d.dec_parts k 0 (omega arith)) in
        omega (arith, d.mul_comm a (dec k 0), d.mul_zero (dec k 0) a z)

    -- It is never negative, units bought later in the year bear no more of it, and there is none
    -- for a fund that has not risen, or that was bought after twelve full months.
    pub vorabpauschale_bounds :
        (m n : ℕ)
        → n ≤ m
        → let at = vorabpauschale nav_jan1 nav_dec31 distributions basiszins in
          (nought ≼ at m)
          × (at m ≼ at n)
          × ((nav_jan1 ≺ nav_dec31) ⊎ (at m ≈ nought))
          × ((m < 12) ⊎ (at m ≈ nought))
    unfolding vorabpauschale twelfths
    vorabpauschale_bounds m n h =
        let a = uncapped nav_jan1 nav_dec31 distributions basiszins in
        let pos = uncapped_nonneg in
        let share : D = dec (months_held m) 0 in
        let some_months = months_nonneg d (months_held m) in
        let none_of : d.pos_part (a ⊗ share) ≡ d.neg_part (a ⊗ share) → twelfths a m ≈ nought = λ z.
          unfold twelfths in
          omega (arith, nought_parts d, d.div_zero (a ⊗ share) (dec 12 0) z (twelve d)) in
        (
          div_nonneg (a ⊗ share) (dec 12 0)
              (mul_nonneg a share pos (omega (arith, nought_parts d, some_months)))
              (omega (arith, nought_parts d, twelve d)),
          twelfths_mono a a m n pos (omega arith) h,
          elim (Bool-cases (ltd nav_jan1 nav_dec31)) [
            | inl e ↦ inl (ground (arith, e))
            | inr e ↦ inr (none_of (d.mul_zero a share (uncapped_zero (ground (arith, e)))))
          ],
          elim (Bool-cases (ltb m 12)) [
            | inl e ↦ inl (ground (arith, e))
            | inr e ↦ inr (none_of (late (ground (arith, e))))
          ],
        )
