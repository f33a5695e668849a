-- ===== src/TaxStatement/FxFifo/Crossing.antt =====
-- The signs of a lot and a movement that meet, and what is left of both, in numbers.
use investments.Base.{◌≡◌, ◌⊎◌, true, false, arith}
use investments.Base.Decimal.{
  Decimal, nought, dec, negate, ◌⊕◌, ◌⊖◌, ◌⊗◌, min, ◌≼◌, ◌≺◌, ◌≈◌, nought_parts, abs_parts,
}
use investments.Util.{is_sign_positive}
use investments.TaxStatement.FxFifo.Loop.{sign}

module _ {D : Type 0} ⦃d : Decimal D⦄ where
  pub sign_lem :
      (x u : D)
      → (nought ≺ x → (is_sign_positive x ≡ true) × (sign x ⊗ u ≈ u))
        × (x ≺ nought → (is_sign_positive x ≡ false) × (sign x ⊗ u ≈ negate u))
  unfolding sign is_sign_positive
  sign_lem x u =
      let one = d.mul_one u (dec 1 0) (omega (arith, d.dec_parts 1 0 (omega arith))) in
      (
        λ h. ground (arith, h, nought_parts d, d.sign_of_pos x, one, d.mul_comm (dec 1 0) u),
        λ h. ground (
          arith,
          h,
          nought_parts d,
          d.sign_of_neg x,
          one,
          d.mul_comm (dec 1 0) u,
          d.mul_neg (dec 1 0) u,
          d.neg_parts u,
        ),
      )

  -- What remains of the movement, zero or with the sign of the movement.
  abbrev pub IsPartOf : D → D → Type 0
  IsPartOf remaining amount =
      (remaining ≈ nought)
      ⊎ (((nought ≺ remaining) × (nought ≺ amount)) ⊎ ((remaining ≺ nought) × (amount ≺ nought)))

  -- What a round does to the quantity of the first lot and to what remains, in numbers.
  abbrev pub Crossed : D → D → D → Type 0
  Crossed qty remaining amount =
      let units = min (d.abs qty) (d.abs remaining) in
      let qty' = qty ⊖ sign qty ⊗ units in
      let remaining' = remaining ⊖ sign remaining ⊗ units in
      (qty' ⊕ remaining' ≈ qty ⊕ remaining)
      × (remaining' ⊕ sign amount ⊗ units ≈ remaining)
      × ((qty' ≈ nought) ⊎ (remaining' ≈ nought))

  pub repays :
      (qty remaining amount : D)
      → qty ≺ nought
      → nought ≺ remaining
      → nought ≺ amount
      → let units = min (d.abs qty) (d.abs remaining) in
        Crossed qty remaining amount
        × (qty ⊖ sign qty ⊗ units ≼ nought)
        × (nought ≼ remaining ⊖ sign remaining ⊗ units)
  repays q r a hq hr ha =
      let u = min (d.abs q) (d.abs r) in
      let sq = (sign_lem q u).1 hq in
      let sr = (sign_lem r u).0 hr in
      let sa = (sign_lem a u).0 ha in
      let q' = q ⊖ sign q ⊗ u in
      let r' = r ⊖ sign r ⊗ u in
      let aq = (abs_parts q).2 (omega arith) in
      let ar = (abs_parts r).1 (omega arith) in
      ground (
        arith,
        nought_parts d,
        hq,
        hr,
        sq.1,
        sr.1,
        sa.1,
        aq,
        ar,
        d.neg_parts q,
        d.neg_parts u,
        d.sub_parts q (sign q ⊗ u),
        d.sub_parts r (sign r ⊗ u),
        d.add_parts q' r',
        d.add_parts q r,
        d.add_parts r' (sign a ⊗ u),
      )

  pub disposes :
      (qty remaining amount : D)
      → nought ≺ qty
      → remaining ≺ nought
      → amount ≺ nought
      → let units = min (d.abs qty) (d.abs remaining) in
        Crossed qty remaining amount
        × (nought ≼ qty ⊖ sign qty ⊗ units)
        × (remaining ⊖ sign remaining ⊗ units ≼ nought)
  disposes q r a hq hr ha =
      let u = min (d.abs q) (d.abs r) in
      let sq = (sign_lem q u).0 hq in
      let sr = (sign_lem r u).1 hr in
      let sa = (sign_lem a u).1 ha in
      let q' = q ⊖ sign q ⊗ u in
      let r' = r ⊖ sign r ⊗ u in
      let aq = (abs_parts q).1 (omega arith) in
      let ar = (abs_parts r).2 (omega arith) in
      ground (
        arith,
        nought_parts d,
        hq,
        hr,
        sq.1,
        sr.1,
        sa.1,
        aq,
        ar,
        d.neg_parts r,
        d.neg_parts u,
        d.sub_parts q (sign q ⊗ u),
        d.sub_parts r (sign r ⊗ u),
        d.add_parts q' r',
        d.add_parts q r,
        d.add_parts r' (sign a ⊗ u),
      )
