-- ===== src/TaxStatement/Germany/Processor/Bucket.antt =====
-- What one realization does to the buckets of section 23.
use investments.Base.{◌≡◌, refl, Bool, if◌then◌else◌, Bool-cases, inl, inr, arith}
use investments.Base.Decimal.{
  Decimal, nought, ◌⊕◌, ◌⊖◌, ◌≼◌, ◌≈◌, max, led, ltd, nought_parts, abs_parts,
}
use investments.TaxStatement.Germany.Statement.{Section23}
use investments.TaxStatement.Germany.Processor.{put_bucket}

module _ {D : Type 0} ⦃d : Decimal D⦄ where
  abbrev pub NoneNegative : Section23 D → Type 0
  NoneNegative s =
      (nought ≼ s.short_term_gains)
      × (nought ≼ s.short_term_losses)
      × (nought ≼ s.long_term_tax_free)

  abbrev pub short : Section23 D → D
  short s = s.short_term_gains ⊖ s.short_term_losses

  -- What counts for the short-term result, and what for the tax-free one: no loss does.
  unfoldable pub short_part : Bool → D → D
  short_part long amount = if long then nought else amount

  unfoldable pub long_part : Bool → D → D
  long_part long amount = if long then max amount nought else nought

  pub put_bucket_lem :
      (s : Section23 D) (long : Bool) (amount : D)
      → let after = put_bucket s long amount in
        (short after ≈ short s ⊕ short_part long amount)
        × (after.long_term_tax_free ≈ s.long_term_tax_free ⊕ long_part long amount)
        × (after.borrowed_review ≡ s.borrowed_review)
        × (s.short_term_gains ≼ after.short_term_gains)
        × (s.short_term_losses ≼ after.short_term_losses)
        × (s.long_term_tax_free ≼ after.long_term_tax_free)
  unfolding put_bucket short_part long_part
  put_bucket_lem s long amount =
      let g = s.short_term_gains in
      let l = s.short_term_losses in
      let f = s.long_term_tax_free in
      let z = nought_parts d in
      let top = max amount nought in
      elim (Bool-cases long) [
        | inl e ↦ elim (Bool-cases (ltd nought amount)) [
          | inl e' ↦
              rw (e, e')
                (
                  omega (arith, z, d.add_parts (g ⊖ l) nought),
                  ground (arith, e', d.add_parts f amount, d.add_parts f top),
                  refl,
                  omega arith,
                  omega arith,
                  ground (arith, e', z, d.add_parts f amount),
                )
          | inr e' ↦
              rw (e, e')
                (
                  omega (arith, z, d.add_parts (g ⊖ l) nought),
                  ground (arith, e', z, d.add_parts f top),
                  refl,
                  omega arith,
                  omega arith,
                  omega arith,
                )
        ]
        | inr e ↦ elim (Bool-cases (led nought amount)) [
          | inl e' ↦
              rw (e, e')
                (
                  omega (
                    arith,
                    d.add_parts g amount,
                    d.sub_parts g l,
                    d.sub_parts (g ⊕ amount) l,
                    d.add_parts (g ⊖ l) amount,
                  ),
                  omega (arith, z, d.add_parts f nought),
                  refl,
                  ground (arith, e', z, d.add_parts g amount),
                  omega arith,
                  omega arith,
                )
          | inr e' ↦
              let loss = d.abs amount in
              let same = (abs_parts amount).2 (ground (arith, e', z)) in
              rw (e, e')
                (
                  omega (
                    arith,
                    same,
                    d.neg_parts amount,
                    d.add_parts l loss,
                    d.sub_parts g l,
                    d.sub_parts g (l ⊕ loss),
                    d.add_parts (g ⊖ l) amount,
                  ),
                  omega (arith, z, d.add_parts f nought),
                  refl,
                  omega arith,
                  ground (arith, e', same, z, d.neg_parts amount, d.add_parts l loss),
                  omega arith,
                )
        ]
      ]
