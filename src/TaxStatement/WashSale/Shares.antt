-- ===== src/TaxStatement/WashSale/Shares.antt =====
-- The fractions of a deferral, and the two parts of what is released.
use investments.Base.{
  ◌≡◌, refl, ◌⊎◌, inl, inr, ◌<◌, ◌+◌, ◌^◌, ◌∙◌, false, List, [], ◌∷◌, ◌++◌, Option, none, some,
  if◌then◌else◌, All, All-append, Bool-cases, arith,
}
use investments.Base.Int.{ℤ}
use investments.Base.Names.{strings}
use investments.Base.Decimal.{
  Decimal, nought, dec, ◌⊕◌, ◌⊖◌, ◌⊗◌, ◌≼◌, ◌≺◌, ◌≈◌, ltd, nought_parts, mul_nonneg,
  mul_le_of_le_one, div_nonneg,
}
use investments.TaxStatement.WashSale.Data.{Reintegration}
use investments.TaxStatement.WashSale.Engine.{own_loss_of, split_released, share_of}
use investments.TaxStatement.WashSale.Sums.{amounts, amounts-append, IsPositive}
use investments.TaxStatement.WashSale.Buckets.{sum_of, sum_of-append}

pub one_parts :
    {D : Type 0} (d : Decimal D) → d.pos_part (d.dec 1 0) ≡ d.neg_part (d.dec 1 0) + 10 ^ 28
one_parts d = omega (arith, d.dec_parts 1 0 (omega arith))

module _ {D : Type 0} ⦃d : Decimal D⦄ where
  pub share_of_bounds :
      (a b : D)
      → nought ≼ a
      → (b ≼ nought) ⊎ (a ≼ b)
      → (nought ≼ share_of a b) × (share_of a b ≼ dec 1 0)
  share_of_bounds a b nonneg within = elim (Bool-cases (ltd nought b)) [
    | inl e ↦
        let positive : nought ≺ b = ground (arith, e) in
        let divisor : d.neg_part b < d.pos_part b = omega (arith, positive, nought_parts d) in
        let le : a ≼ b = ground (arith, within, positive) in
        rw e (
          div_nonneg a b nonneg positive,
          omega (arith, d.div_mono a b b le divisor, d.div_self b divisor, one_parts d),
        )
    | inr e ↦ rw e (omega arith, omega (arith, nought_parts d, one_parts d))
  ]

  pub share_of_zero : (a b : D) → a ≈ nought → share_of a b ≈ nought
  share_of_zero a b zero = elim (Bool-cases (ltd nought b)) [
    | inl e ↦
        let positive : d.neg_part b < d.pos_part b = ground (arith, e, nought_parts d) in
        rw e (
          omega
            (arith, nought_parts d, d.div_zero a b (omega (arith, zero, nought_parts d)) positive))
    | inr e ↦ rw e refl
  ]

  pub own_loss_of_nonneg : (fiscal_result : Option D) → nought ≼ own_loss_of fiscal_result
  unfolding own_loss_of
  own_loss_of_nonneg none = omega arith
  own_loss_of_nonneg (some result) = ground (arith, nought_parts d, d.neg_parts result)

  -- The lists after one release, with its two parts.
  abbrev pub integrated : List (Reintegration D) → Reintegration D → D → List (Reintegration D)
  integrated reintegrations reintegration fraction =
      let integrable = reintegration.amount ⊖ reintegration.amount ⊗ fraction in
      if ltd nought integrable
      then reintegrations ++ (record reintegration { amount = integrable } ∷ [])
      else reintegrations

  abbrev pub attached : List (ℤ × D) → Reintegration D → D → List (ℤ × D)
  attached placements reintegration fraction =
      let re_attached = reintegration.amount ⊗ fraction in
      if ltd nought re_attached
      then placements ++ ((reintegration.origin_sale_date, re_attached) ∷ [])
      else placements

  pub integrated-IsPositive :
      (reintegrations : List (Reintegration D)) (reintegration : Reintegration D) (fraction : D)
      → All IsPositive reintegrations
      → All IsPositive (integrated reintegrations reintegration fraction)
  integrated-IsPositive reintegrations reintegration fraction all =
      let integrable = reintegration.amount ⊖ reintegration.amount ⊗ fraction in
      let last : Reintegration D = record reintegration { amount = integrable } in
      elim (Bool-cases (ltd nought integrable)) [
        | inl e ↦
            rw e (All-append IsPositive reintegrations (last ∷ []) all (ground (arith, e), tt))
        | inr e ↦ rw e all
      ]

  pub split_released-IsPositive :
      (fraction : D) (released reintegrations : List (Reintegration D)) (placements : List (ℤ × D))
      → All IsPositive reintegrations
      → All IsPositive (split_released fraction released (reintegrations, placements)).0
  unfolding split_released
  split_released-IsPositive fraction [] reintegrations placements all = all
  split_released-IsPositive fraction (reintegration ∷ released) reintegrations placements all =
      split_released-IsPositive fraction released (integrated reintegrations reintegration fraction)
        (attached placements reintegration fraction)
        (integrated-IsPositive reintegrations reintegration fraction all)

  -- The two parts of one release add up to it.
  pub split_one :
      (fraction : D) (reintegration : Reintegration D) (reintegrations : List (Reintegration D))
      (placements : List (ℤ × D))
      → nought ≼ fraction
      → fraction ≼ dec 1 0
      → IsPositive reintegration
      → amounts (integrated reintegrations reintegration fraction)
          ⊕ sum_of (attached placements reintegration fraction)
        ≈ reintegration.amount ⊕ (amounts reintegrations ⊕ sum_of placements)
  split_one fraction reintegration reintegrations placements nonneg at_most positive =
      let amount = reintegration.amount in
      let back = amount ⊗ fraction in
      let free = amount ⊖ back in
      let last : Reintegration D = record reintegration { amount = free } in
      let back_nonneg = mul_nonneg amount fraction (omega (arith, positive)) nonneg in
      let back_le = mul_le_of_le_one amount fraction (omega (arith, positive)) at_most in
      let first : amounts (integrated reintegrations reintegration fraction)
          ≈ amounts reintegrations ⊕ free =
        ground (
          arith,
          nought_parts d,
          back_le,
          amounts-append reintegrations last,
          d.sub_parts amount back,
          d.add_parts (amounts reintegrations) free,
        ) in
      let second : sum_of (attached placements reintegration fraction) ≈ sum_of placements ⊕ back =
        ground (
          arith,
          nought_parts d,
          back_nonneg,
          sum_of-append placements reintegration.origin_sale_date back,
          d.add_parts (sum_of placements) back,
        ) in
      omega (
        arith,
        first,
        second,
        d.sub_parts amount back,
        d.add_parts (amounts reintegrations) free,
        d.add_parts (sum_of placements) back,
        d.add_parts (amounts reintegrations) (sum_of placements),
        d.add_parts amount (amounts reintegrations ⊕ sum_of placements),
        d.add_parts (amounts (integrated reintegrations reintegration fraction))
            (sum_of (attached placements reintegration fraction)),
      )

  pub split_released-sum :
      (fraction : D) (released reintegrations : List (Reintegration D)) (placements : List (ℤ × D))
      → nought ≼ fraction
      → fraction ≼ dec 1 0
      → All IsPositive released
      → let split = split_released fraction released (reintegrations, placements) in
        amounts split.0 ⊕ sum_of split.1
        ≈ amounts released ⊕ (amounts reintegrations ⊕ sum_of placements)
  unfolding split_released amounts
  split_released-sum fraction [] reintegrations placements nonneg at_most _ =
      omega (arith, nought_parts d, d.add_parts nought (amounts reintegrations ⊕ sum_of placements))
  split_released-sum fraction (reintegration ∷ released) reintegrations placements nonneg at_most
        (positive, all) =
      let reintegrations' = integrated reintegrations reintegration fraction in
      let placements' = attached placements reintegration fraction in
      let total = amounts reintegrations ⊕ sum_of placements in
      let total' = amounts reintegrations' ⊕ sum_of placements' in
      let one =
        split_one fraction reintegration reintegrations placements nonneg at_most positive in
      let rest =
        split_released-sum fraction released reintegrations' placements' nonneg at_most all in
      omega (
        arith,
        one,
        rest,
        d.add_parts reintegration.amount total,
        d.add_parts reintegration.amount (amounts released),
        d.add_parts (amounts released) total',
        d.add_parts (reintegration.amount ⊕ amounts released) total,
      )

  pub split_released-none :
      (fraction : D) (released reintegrations : List (Reintegration D)) (placements : List (ℤ × D))
      → fraction ≈ nought
      → (split_released fraction released (reintegrations, placements)).1 ≡ placements
  unfolding split_released
  split_released-none fraction [] reintegrations placements zero = refl
  split_released-none fraction (reintegration ∷ released) reintegrations placements zero =
      let re_attached = reintegration.amount ⊗ fraction in
      let e : ltd nought re_attached ≡ false = ground (
        arith,
        zero,
        nought_parts d,
        d.mul_comm reintegration.amount fraction,
        d.mul_zero fraction reintegration.amount,
      ) in
      let same : attached placements reintegration fraction ≡ placements = rw e refl in
      split_released-none fraction released (integrated reintegrations reintegration fraction)
        (attached placements reintegration fraction) zero
      ∙ same
