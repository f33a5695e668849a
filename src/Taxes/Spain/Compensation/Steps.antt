-- ===== src/Taxes/Spain/Compensation/Steps.antt =====
-- Each step of the compensation keeps both accounts, and no step panics.
use investments.Base.{◌≡◌, refl, none, some, arith}
use investments.Base.Int.{ℤ}
use investments.Base.Decimal.{Decimal, nought, ◌⊖◌, ◌≼◌, ◌≈◌, min}
use investments.Taxes.Spain.Carryforward.{budget_of, merge}
use investments.Taxes.Spain.Carryforward.Conservation.{apply-Applies}
use investments.Taxes.Spain.Compensation.{
  Variables, cross_current_rcm, cross_current, apply_own, cross_prior,
}
use investments.Taxes.Spain.Compensation.Group.{
  Account, Group, Balanced, give-Balanced, take-Balanced, take_prior-Balanced, no_allowance,
  absorb-Balanced, give_prior-Balanced, no_allowance-Balanced,
}

module _ {D : Type 0} ⦃d : Decimal D⦄ where
  abbrev pub rcm_of : Variables D → Group D
  rcm_of v = record {
    taxable = v.rcm_taxable;
    negative = v.rcm_negative;
    allowance = v.rcm_allowance;
    ledger = v.rcm_ledger;
    applied = v.rcm_applied;
    cross_in = v.cross_offset_gyp_to_rcm;
    prior_in = v.prior_cross_offset_gyp_to_rcm;
    cross_out = v.cross_offset_rcm_to_gyp;
    prior_out = v.prior_cross_offset_rcm_to_gyp;
  }

  abbrev pub gyp_of : Variables D → Group D
  gyp_of v = record {
    taxable = v.gyp_taxable;
    negative = v.gyp_negative;
    allowance = v.gyp_allowance;
    ledger = v.gyp_ledger;
    applied = v.gyp_applied;
    cross_in = v.cross_offset_rcm_to_gyp;
    prior_in = v.prior_cross_offset_rcm_to_gyp;
    cross_out = v.cross_offset_gyp_to_rcm;
    prior_out = v.prior_cross_offset_gyp_to_rcm;
  }

  min_min : (a b c : D) → let x = min (min a b) c in (x ≼ a) × (x ≼ b) × (x ≼ c)
  min_min a b c = ground arith

  min_min_nonneg : (a b c : D) → nought ≼ a → nought ≼ b → nought ≼ c → nought ≼ min (min a b) c
  min_min_nonneg a b c ha hb hc = ground arith

  budget_of-le :
      (amount cap : D)
      → nought ≼ amount
      → nought ≼ cap
      → (budget_of amount none ≼ amount)
        × (budget_of amount (some cap) ≼ amount)
        × (budget_of amount (some cap) ≼ cap)
  unfolding budget_of
  budget_of-le amount cap h h' = ground arith

  module _ (filing_year : ℤ) (r g : Account D) where
    abbrev pub BothBalanced : Variables D → Type 0
    BothBalanced v = Balanced filing_year r (rcm_of v) × Balanced filing_year g (gyp_of v)

    -- The state at the end, where no allowance is left to use.
    abbrev pub Settled : Variables D → Type 0
    Settled v =
        Balanced filing_year r (no_allowance (rcm_of v))
        × Balanced filing_year g (no_allowance (gyp_of v))

    pub cross_current-BothBalanced :
        (v : Variables D)
        → v.cross_offset_rcm_to_gyp ≈ nought
        → v.cross_offset_gyp_to_rcm ≈ nought
        → BothBalanced v
        → BothBalanced (cross_current v)
    unfolding cross_current
    cross_current-BothBalanced v z z' (br, bg) =
        let x = min (min v.rcm_negative v.gyp_taxable) v.gyp_allowance in
        let le = min_min v.rcm_negative v.gyp_taxable v.gyp_allowance in
        let pos =
          min_min_nonneg v.rcm_negative v.gyp_taxable v.gyp_allowance br.0.negative_nonneg
            bg.0.taxable_nonneg bg.0.allowance_nonneg in
        let br' = give-Balanced filing_year r (rcm_of v) br x z le.0 in
        let bg' = take-Balanced filing_year g (gyp_of v) bg x z pos le.1 le.2 in
        let w = cross_current_rcm v in
        let y = min (min w.gyp_negative w.rcm_taxable) w.rcm_allowance in
        let le' = min_min w.gyp_negative w.rcm_taxable w.rcm_allowance in
        let pos' =
          min_min_nonneg w.gyp_negative w.rcm_taxable w.rcm_allowance bg'.0.negative_nonneg
            br'.0.taxable_nonneg br'.0.allowance_nonneg in
        (
          take-Balanced filing_year r (rcm_of w) br' y z' pos' le'.1 le'.2,
          give-Balanced filing_year g (gyp_of w) bg' y z' le'.0,
        )

    -- What `apply_own` does to the variables, besides keeping the accounts.
    pub record Absorbed (v v' : Variables D) : Type 0 where
      pub rcm_le : v'.rcm_taxable ≼ v.rcm_taxable
      pub gyp_le : v'.gyp_taxable ≼ v.gyp_taxable
      pub cross_rcm : v'.cross_offset_rcm_to_gyp ≈ v.cross_offset_rcm_to_gyp
      pub cross_gyp : v'.cross_offset_gyp_to_rcm ≈ v.cross_offset_gyp_to_rcm
      pub prior_rcm : v'.prior_cross_offset_rcm_to_gyp ≈ v.prior_cross_offset_rcm_to_gyp
      pub prior_gyp : v'.prior_cross_offset_gyp_to_rcm ≈ v.prior_cross_offset_gyp_to_rcm

    pub apply_own-BothBalanced :
        (v : Variables D)
        → v.rcm_applied.used_total ≈ nought
        → v.gyp_applied.used_total ≈ nought
        → v.prior_cross_offset_rcm_to_gyp ≈ nought
        → v.prior_cross_offset_gyp_to_rcm ≈ nought
        → BothBalanced v
        → (v' : Variables D) × (apply_own v ≡ some v') × BothBalanced v' × Absorbed v v'
    unfolding apply_own
    apply_own-BothBalanced v z₁ z₂ z₃ z₄ (br, bg) =
        let (o, e, ap) = apply-Applies v.rcm_ledger v.rcm_taxable none br.1.ledger-IsValid in
        let (o', e', ap') = apply-Applies v.gyp_ledger v.gyp_taxable none bg.1.ledger-IsValid in
        let le = (budget_of-le v.rcm_taxable nought br.0.taxable_nonneg (omega arith)).0 in
        let le' = (budget_of-le v.gyp_taxable nought bg.0.taxable_nonneg (omega arith)).0 in
        (
          _,
          rw (e, e') refl,
          (
            absorb-Balanced filing_year r (rcm_of v) br (budget_of v.rcm_taxable none) o.0 o.1 z₁ z₃
                le ap,
            absorb-Balanced filing_year g (gyp_of v) bg (budget_of v.gyp_taxable none) o'.0 o'.1 z₂
                z₄ le' ap',
          ),
          record {
            rcm_le = omega (arith, ap.used_nonneg);
            gyp_le = omega (arith, ap'.used_nonneg);
            cross_rcm = refl;
            cross_gyp = refl;
            prior_rcm = refl;
            prior_gyp = refl;
          },
        )

    pub cross_prior-Settled :
        (v : Variables D)
        → v.prior_cross_offset_rcm_to_gyp ≈ nought
        → v.prior_cross_offset_gyp_to_rcm ≈ nought
        → nought ≼ v.rcm_applied.used_total
        → nought ≼ v.gyp_applied.used_total
        → BothBalanced v
        → (v' : Variables D) × (cross_prior v ≡ some v') × Settled v'
    unfolding cross_prior
    cross_prior-Settled v z₁ z₂ pos pos' (br, bg) =
        let (o, e, ap) =
          apply-Applies v.rcm_ledger v.gyp_taxable (some v.gyp_allowance) br.1.ledger-IsValid in
        let (o', e', ap') =
          apply-Applies v.gyp_ledger v.rcm_taxable (some v.rcm_allowance) bg.1.ledger-IsValid in
        let le =
          (budget_of-le v.gyp_taxable v.gyp_allowance bg.0.taxable_nonneg bg.0.allowance_nonneg) in
        let le' =
          (budget_of-le v.rcm_taxable v.rcm_allowance br.0.taxable_nonneg br.0.allowance_nonneg) in
        let br₁ =
          give_prior-Balanced filing_year r (rcm_of v) br
            (budget_of v.gyp_taxable (some v.gyp_allowance)) o.0 o.1 pos z₁ ap in
        let bg₁ =
          give_prior-Balanced filing_year g (gyp_of v) bg
            (budget_of v.rcm_taxable (some v.rcm_allowance)) o'.0 o'.1 pos' z₂ ap' in
        let within : (o.0.used_total ≼ v.gyp_taxable) × (o.0.used_total ≼ v.gyp_allowance) =
          omega (arith, ap.within, le) in
        let within' : (o'.0.used_total ≼ v.rcm_taxable) × (o'.0.used_total ≼ v.rcm_allowance) =
          omega (arith, ap'.within, le') in
        (
          record v {
            rcm_ledger = o.1;
            gyp_ledger = o'.1;
            prior_cross_offset_rcm_to_gyp = o.0.used_total;
            prior_cross_offset_gyp_to_rcm = o'.0.used_total;
            rcm_taxable = v.rcm_taxable ⊖ o'.0.used_total;
            gyp_taxable = v.gyp_taxable ⊖ o.0.used_total;
            rcm_applied = merge v.rcm_applied o.0;
            gyp_applied = merge v.gyp_applied o'.0;
          },
          rw (e, e') refl,
          (
            take_prior-Balanced filing_year r _ br₁ o'.0.used_total z₂ ap'.used_nonneg within'.0
                within'.1,
            take_prior-Balanced filing_year g _ bg₁ o.0.used_total z₁ ap.used_nonneg within.0
                within.1,
          ),
        )

    pub cross_current_keeps :
        (v : Variables D)
        → ((cross_current v).prior_cross_offset_rcm_to_gyp ≈ v.prior_cross_offset_rcm_to_gyp)
          × ((cross_current v).prior_cross_offset_gyp_to_rcm ≈ v.prior_cross_offset_gyp_to_rcm)
          × ((cross_current v).rcm_applied.used_total ≈ v.rcm_applied.used_total)
          × ((cross_current v).gyp_applied.used_total ≈ v.gyp_applied.used_total)
    unfolding cross_current
    cross_current_keeps v = omega arith

    pub used_nonneg :
        (v : Variables D)
        → BothBalanced v
        → (nought ≼ v.rcm_applied.used_total) × (nought ≼ v.gyp_applied.used_total)
    used_nonneg v (br, bg) =
        (omega (arith, br.0.own, bg.0.prior_nonneg), omega (arith, bg.0.own, br.0.prior_nonneg))

    pub settle :
        (v : Variables D)
        → v.prior_cross_offset_rcm_to_gyp ≈ nought
        → v.prior_cross_offset_gyp_to_rcm ≈ nought
        → BothBalanced v
        → (v' : Variables D) × (cross_prior v ≡ some v') × Settled v'
    settle v z z' b = let pos = used_nonneg v b in cross_prior-Settled v z z' pos.0 pos.1 b

    pub BothBalanced-Settled : (v : Variables D) → BothBalanced v → Settled v
    BothBalanced-Settled v (br, bg) = (
      no_allowance-Balanced filing_year r (rcm_of v) br,
      no_allowance-Balanced filing_year g (gyp_of v) bg,
    )
