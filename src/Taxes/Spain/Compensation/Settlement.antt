-- ===== src/Taxes/Spain/Compensation/Settlement.antt =====
-- The compensation as a whole: it never panics, and both accounts are settled at the end.
use investments.Base.{◌≤◌, [], ◌≡◌, refl, some, arith, Bool-cases, inl, inr, if◌then◌else◌}
use investments.Base.Int.{ℤ}
use investments.Base.Decimal.{
  Decimal, nought, ◌⊕◌, ◌⊗◌, ◌≼◌, ◌≈◌, max, ltd, nought_parts, mul_nonneg,
}
use investments.Taxes.Spain.Carryforward.{LossLedger, total}
use investments.Taxes.Spain.Carryforward.Conservation.{sum}
use investments.Taxes.Spain.Carryforward.Years.{InRange}
use investments.Taxes.Spain.Compensation.{
  Variables, CrossOffset, fraction, negative_part, start, allow, cross_current, finish, aeat_order,
  navarra_order,
}
use investments.Taxes.Spain.Compensation.Group.{Account, relabel}
use investments.Taxes.Spain.Compensation.Steps.{
  rcm_of, gyp_of, BothBalanced, Settled, cross_current-BothBalanced, apply_own-BothBalanced, settle,
  cross_current_keeps, BothBalanced-Settled,
}

module _ (D : Type 0) ⦃d : Decimal D⦄ where
  pub fraction_nonneg : (c : CrossOffset) → nought ≼ fraction {D = D} c
  unfolding fraction
  fraction_nonneg CrossOffset.no_cross = omega arith
  fraction_nonneg CrossOffset.aeat_two_phase =
      omega (arith, nought_parts d, d.dec_parts 25 2 (omega arith))
  fraction_nonneg CrossOffset.navarra_ordered =
      omega (arith, nought_parts d, d.dec_parts 25 2 (omega arith))

  sum_nil : sum {D = D} [] ≈ nought
  unfolding sum
  sum_nil = refl

module _ {D : Type 0} ⦃d : Decimal D⦄ where
  -- The account that a group opens with.
  unfoldable pub account : D → LossLedger D → D → Account D
  account net ledger share = record {
    positive = max nought net;
    negative = negative_part net;
    pending = total ledger;
    limit = max nought net ⊗ share;
  }

  pub negative_part_nonneg : (net : D) → nought ≼ negative_part net
  unfolding negative_part
  negative_part_nonneg net = ground (arith, nought_parts d, d.neg_parts net)

  module _ (filing_year : ℤ) (rcm_net gyp_net : D) (rl gl : LossLedger D)
      (rr : InRange filing_year rl) (gr : InRange filing_year gl) (share : D)
      (nonneg : nought ≼ share) where
    abbrev Both : Variables D → Type 0
    Both = BothBalanced filing_year (account rcm_net rl share) (account gyp_net gl share)

    abbrev pub End : Variables D → Type 0
    End = Settled filing_year (account rcm_net rl share) (account gyp_net gl share)

    max_nonneg : (x : D) → nought ≼ max nought x
    max_nonneg x = ground arith

    start-Both : Both (start rcm_net gyp_net rl gl)
    unfolding start account
    start-Both =
        let pr = mul_nonneg (max nought rcm_net) share (max_nonneg rcm_net) nonneg in
        let pg = mul_nonneg (max nought gyp_net) share (max_nonneg gyp_net) nonneg in
        (
          (
            omega (arith, nought_parts d, max_nonneg rcm_net, negative_part_nonneg rcm_net, pr),
            record {
              years = omega (arith, sum_nil D);
              years-Ascending = tt;
              ledger-IsValid = rr.0;
              ledger-From = rr.1;
              ledger-UpTo = rr.2;
            },
          ),
          (
            omega (arith, nought_parts d, max_nonneg gyp_net, negative_part_nonneg gyp_net, pg),
            record {
              years = omega (arith, sum_nil D);
              years-Ascending = tt;
              ledger-IsValid = gr.0;
              ledger-From = gr.1;
              ledger-UpTo = gr.2;
            },
          ),
        )

    -- Setting the allowances keeps the accounts while nothing has crossed.
    allow-Both :
        (v : Variables D)
        → v.rcm_taxable ≼ max nought rcm_net
        → v.gyp_taxable ≼ max nought gyp_net
        → v.cross_offset_rcm_to_gyp ≈ nought
        → v.cross_offset_gyp_to_rcm ≈ nought
        → v.prior_cross_offset_rcm_to_gyp ≈ nought
        → v.prior_cross_offset_gyp_to_rcm ≈ nought
        → Both v
        → Both (allow share v)
    unfolding allow account
    allow-Both v le le' z₁ z₂ z₃ z₄ (br, bg) =
        let share_nonneg : d.neg_part share ≤ d.pos_part share = omega (arith, nought_parts d) in
        let mr = d.mul_mono v.rcm_taxable (max nought rcm_net) share le share_nonneg in
        let mg = d.mul_mono v.gyp_taxable (max nought gyp_net) share le' share_nonneg in
        let pr = mul_nonneg v.rcm_taxable share br.0.taxable_nonneg nonneg in
        let pg = mul_nonneg v.gyp_taxable share bg.0.taxable_nonneg nonneg in
        (
          (
            omega (
              arith,
              br.0,
              d.add_parts (v.rcm_taxable ⊗ share) v.cross_offset_gyp_to_rcm,
              d.add_parts (v.rcm_taxable ⊗ share ⊕ v.cross_offset_gyp_to_rcm)
                  v.prior_cross_offset_gyp_to_rcm,
              mr,
              pr,
              nought_parts d,
            ),
            relabel filing_year (rcm_of v) (rcm_of (allow share v)) refl refl br.1,
          ),
          (
            omega (
              arith,
              bg.0,
              d.add_parts (v.gyp_taxable ⊗ share) v.cross_offset_rcm_to_gyp,
              d.add_parts (v.gyp_taxable ⊗ share ⊕ v.cross_offset_rcm_to_gyp)
                  v.prior_cross_offset_rcm_to_gyp,
              mg,
              pg,
              nought_parts d,
            ),
            relabel filing_year (gyp_of v) (gyp_of (allow share v)) refl refl bg.1,
          ),
        )

    start_zero :
        let v = start rcm_net gyp_net rl gl in
        (v.rcm_applied.used_total ≈ nought)
        × (v.gyp_applied.used_total ≈ nought)
        × (v.cross_offset_rcm_to_gyp ≈ nought)
        × (v.cross_offset_gyp_to_rcm ≈ nought)
        × (v.prior_cross_offset_rcm_to_gyp ≈ nought)
        × (v.prior_cross_offset_gyp_to_rcm ≈ nought)
        × (v.rcm_taxable ≼ max nought rcm_net)
        × (v.gyp_taxable ≼ max nought gyp_net)
    unfolding start
    start_zero = omega arith

    pub navarra_order-End :
        (v : Variables D) × (navarra_order filing_year rcm_net gyp_net rl gl share
          ≡ some (finish filing_year v))
        × End v
    unfolding navarra_order
    navarra_order-End =
        let z = start_zero in
        let v₀ = start rcm_net gyp_net rl gl in
        let (v₁, e₁, b₁, a) =
          apply_own-BothBalanced filing_year _ _ v₀ z.0 z.1 z.4 z.5 start-Both in
        let b₂ =
          allow-Both v₁ (omega (arith, a.rcm_le, z.6)) (omega (arith, a.gyp_le, z.7))
            (omega (arith, a.cross_rcm, z.2)) (omega (arith, a.cross_gyp, z.3))
            (omega (arith, a.prior_rcm, z.4)) (omega (arith, a.prior_gyp, z.5)) b₁ in
        let v₂ = allow share v₁ in
        let b₃ =
          cross_current-BothBalanced filing_year _ _ v₂
            (unfold allow in omega (arith, a.cross_rcm, z.2))
            (unfold allow in omega (arith, a.cross_gyp, z.3)) b₂ in
        let v₃ = cross_current v₂ in
        let k =
          cross_current_keeps filing_year (account rcm_net rl share) (account gyp_net gl share)
            v₂ in
        let (v₄, e₄, s₄) =
          settle filing_year _ _ v₃ (unfold allow in omega (arith, k.0, a.prior_rcm, z.4))
            (unfold allow in omega (arith, k.1, a.prior_gyp, z.5)) b₃ in
        (v₄, rw (e₁, e₄) refl, s₄)

    -- The variables that `aeat_order` applies its own balances to.
    abbrev first : Variables D
    first =
        let v = allow share (start rcm_net gyp_net rl gl) in
        if ltd nought share then cross_current v else v

    first-Both :
        Both first
        × (first.rcm_applied.used_total ≈ nought)
        × (first.gyp_applied.used_total ≈ nought)
        × (first.prior_cross_offset_rcm_to_gyp ≈ nought)
        × (first.prior_cross_offset_gyp_to_rcm ≈ nought)
    first-Both =
        let z = start_zero in
        let v₀ = start rcm_net gyp_net rl gl in
        let v = allow share v₀ in
        let b = allow-Both v₀ z.6 z.7 z.2 z.3 z.4 z.5 start-Both in
        let k =
          cross_current_keeps filing_year (account rcm_net rl share) (account gyp_net gl share) v in
        let b' =
          cross_current-BothBalanced filing_year _ _ v (unfold allow in omega (arith, z.2))
            (unfold allow in omega (arith, z.3)) b in
        elim (Bool-cases (ltd nought share)) [
          | inl e ↦ rw e (
            b',
            unfold allow in omega (arith, k, z),
            unfold allow in omega (arith, k, z),
            unfold allow in omega (arith, k, z),
            unfold allow in omega (arith, k, z),
          )
          | inr e ↦ rw e (
            b,
            unfold allow in omega (arith, z),
            unfold allow in omega (arith, z),
            unfold allow in omega (arith, z),
            unfold allow in omega (arith, z),
          )
        ]

    pub aeat_order-End :
        (v : Variables D) × (aeat_order filing_year rcm_net gyp_net rl gl share
          ≡ some (finish filing_year v))
        × End v
    unfolding aeat_order
    aeat_order-End =
        let f = first-Both in
        let (v₁, e₁, b₁, a) = apply_own-BothBalanced filing_year _ _ first f.1 f.2 f.3 f.4 f.0 in
        let (v₂, e₂, s₂) =
          settle filing_year _ _ v₁ (omega (arith, a.prior_rcm, f.3))
            (omega (arith, a.prior_gyp, f.4)) b₁ in
        elim (Bool-cases (ltd nought share)) [
          | inl e ↦ (v₂, ground (arith, e, e₁, e₂), s₂)
          | inr e ↦ (v₁, ground (arith, e, e₁), BothBalanced-Settled filing_year _ _ v₁ b₁)
        ]
