-- ===== src/Taxes/Spain/Compensation/Outcome.antt =====
-- What `compensate_savings_base` promises, under every cross-offset rule.
use investments.Base.{◌≡◌, refl, some, ok, arith}
use investments.Base.Int.{ℤ, pos, ◌+ℤ◌}
use investments.Base.Decimal.{Decimal, nought, ◌⊕◌, ◌⊗◌, ◌≼◌, ◌≈◌, max, nought_parts}
use investments.Taxes.Spain.Carryforward.{
  LossLedger, total, from_config, add, drop_expired, expiring_after,
}
use investments.Taxes.Spain.Carryforward.Conservation.{sum}
use investments.Taxes.Spain.Carryforward.Window.{from_config-drop_expired}
use investments.Taxes.Spain.Carryforward.Years.{InRange, add-InRange, total-drop_expired}
use investments.Taxes.Spain.Compensation.{
  Variables, CompensationResult, CrossOffset, fraction, negative_part, finish,
  compensate_savings_base,
}
use investments.Taxes.Spain.Compensation.Settlement.{
  account, End, fraction_nonneg, aeat_order-End, navarra_order-End,
}

module _ {D : Type 0} ⦃d : Decimal D⦄ where
  -- A group's ledger after the year, and what expires of it.
  carried :
      (filing_year : ℤ) (ledger : LossLedger D) (loss : D)
      → nought ≼ loss
      → InRange filing_year ledger
      → let after = add ledger filing_year loss in
        let next = drop_expired after filing_year in
        (total next ⊕ expiring_after after filing_year ≈ total ledger ⊕ loss)
        × (from_config next.balances (filing_year +ℤ pos 1) ≡ ok next)
  carried fy ledger loss nonneg range =
      let after = add ledger fy loss in
      let ((valid, from, up), e) = add-InRange ledger fy loss nonneg range in
      (
        omega (arith, e, total-drop_expired after fy valid.0 from),
        from_config-drop_expired after fy valid up,
      )

  loss_chain :
      (used cross next expired pending negative rest left : D)
      → rest ⊕ cross ≈ negative
      → used ⊕ left ≈ pending
      → next ⊕ expired ≈ left ⊕ rest
      → used ⊕ cross ⊕ next ⊕ expired ≈ pending ⊕ negative
  loss_chain used cross next expired pending negative rest left e e' e'' = omega arith

  none_crosses :
      (a b x : D) → nought ≼ a → nought ≼ b → a ⊕ b ≼ x ⊗ nought → (a ≈ nought) × (b ≈ nought)
  none_crosses a b x pa pb le = omega (
    arith,
    nought_parts d,
    d.mul_comm x nought,
    d.mul_zero nought x (nought_parts d),
    d.add_parts a b,
  )

  module _ (filing_year : ℤ) (rcm_net gyp_net : D) (rcm_ledger gyp_ledger : LossLedger D)
      (rcm_range : InRange filing_year rcm_ledger)
      (gyp_range : InRange filing_year gyp_ledger) where
    abbrev pub IsOutcome : CrossOffset → CompensationResult D → Type 0
    IsOutcome cross r =
        compensate_savings_base filing_year rcm_net gyp_net rcm_ledger gyp_ledger cross ≡ some r

    compensate_savings_base-End :
        (cross : CrossOffset)
        → (v : Variables D) × IsOutcome cross (finish filing_year v)
          × End filing_year rcm_net gyp_net rcm_ledger gyp_ledger rcm_range gyp_range
              (fraction cross)
              (fraction_nonneg D cross)
              v
    unfolding compensate_savings_base
    compensate_savings_base-End CrossOffset.no_cross =
        aeat_order-End filing_year rcm_net gyp_net rcm_ledger gyp_ledger rcm_range gyp_range _
          (fraction_nonneg D CrossOffset.no_cross)
    compensate_savings_base-End CrossOffset.aeat_two_phase =
        aeat_order-End filing_year rcm_net gyp_net rcm_ledger gyp_ledger rcm_range gyp_range _
          (fraction_nonneg D CrossOffset.aeat_two_phase)
    compensate_savings_base-End CrossOffset.navarra_ordered =
        navarra_order-End filing_year rcm_net gyp_net rcm_ledger gyp_ledger rcm_range gyp_range _
          (fraction_nonneg D CrossOffset.navarra_ordered)

    -- From valid ledgers whose years lie in the four before the filing year or are that year, the
    -- compensation returns. Each group's positive result is what is taxed of it and what was set
    -- against it: the other group's current and prior losses, and its own prior losses less those
    -- that crossed to the other group. Neither taxable amount is negative, and the savings base is
    -- their sum.
    pub compensate_savings_base_income :
        (cross : CrossOffset)
        → (r : CompensationResult D) × IsOutcome cross r
          × (r.rcm_taxable ⊕ r.cross_offset_gyp_to_rcm ⊕ r.prior_cross_offset_gyp_to_rcm
                ⊕ r.rcm_applied.used_total
              ≈ max nought rcm_net ⊕ r.prior_cross_offset_rcm_to_gyp)
          × (r.gyp_taxable ⊕ r.cross_offset_rcm_to_gyp ⊕ r.prior_cross_offset_rcm_to_gyp
                ⊕ r.gyp_applied.used_total
              ≈ max nought gyp_net ⊕ r.prior_cross_offset_gyp_to_rcm)
          × (nought ≼ r.rcm_taxable)
          × (nought ≼ r.gyp_taxable)
          × (r.savings_base ≈ r.rcm_taxable ⊕ r.gyp_taxable)
    unfolding finish account
    compensate_savings_base_income cross =
        let (v, e, (br, bg)) = compensate_savings_base-End cross in
        (
          finish filing_year v,
          e,
          br.0.income,
          bg.0.income,
          br.0.taxable_nonneg,
          bg.0.taxable_nonneg,
          refl,
        )

    -- From valid ledgers whose years lie in the four before the filing year or are that year:
    -- what crosses into a group, current and prior losses together, is not negative and is at most
    -- the regime's share of the group's positive result.
    pub compensate_savings_base_cross_limit :
        (cross : CrossOffset)
        → (r : CompensationResult D) × IsOutcome cross r
          × (r.cross_offset_gyp_to_rcm ⊕ r.prior_cross_offset_gyp_to_rcm
              ≼ max nought rcm_net ⊗ fraction cross)
          × (r.cross_offset_rcm_to_gyp ⊕ r.prior_cross_offset_rcm_to_gyp
              ≼ max nought gyp_net ⊗ fraction cross)
          × (nought ≼ r.cross_offset_gyp_to_rcm)
          × (nought ≼ r.prior_cross_offset_gyp_to_rcm)
          × (nought ≼ r.cross_offset_rcm_to_gyp)
          × (nought ≼ r.prior_cross_offset_rcm_to_gyp)
    unfolding finish account
    compensate_savings_base_cross_limit cross =
        let (v, e, (br, bg)) = compensate_savings_base-End cross in
        (
          finish filing_year v,
          e,
          omega (
            arith,
            br.0.limited,
            nought_parts d,
            d.add_parts v.cross_offset_gyp_to_rcm v.prior_cross_offset_gyp_to_rcm,
            d.add_parts nought v.cross_offset_gyp_to_rcm,
            d.add_parts (nought ⊕ v.cross_offset_gyp_to_rcm) v.prior_cross_offset_gyp_to_rcm,
          ),
          omega (
            arith,
            bg.0.limited,
            nought_parts d,
            d.add_parts v.cross_offset_rcm_to_gyp v.prior_cross_offset_rcm_to_gyp,
            d.add_parts nought v.cross_offset_rcm_to_gyp,
            d.add_parts (nought ⊕ v.cross_offset_rcm_to_gyp) v.prior_cross_offset_rcm_to_gyp,
          ),
          br.0.cross_nonneg,
          br.0.prior_nonneg,
          bg.0.cross_nonneg,
          bg.0.prior_nonneg,
        )

    -- From valid ledgers whose years lie in the four before the filing year or are that year: under
    -- the rule without a cross, nothing crosses.
    pub no_cross_lem :
        (r : CompensationResult D) × IsOutcome CrossOffset.no_cross r
        × (r.cross_offset_gyp_to_rcm ≈ nought)
        × (r.prior_cross_offset_gyp_to_rcm ≈ nought)
        × (r.cross_offset_rcm_to_gyp ≈ nought)
        × (r.prior_cross_offset_rcm_to_gyp ≈ nought)
    no_cross_lem =
        let o = compensate_savings_base_cross_limit CrossOffset.no_cross in
        let into_rcm = none_crosses _ _ (max nought rcm_net) o.4 o.5 (unfold fraction in o.2) in
        let into_gyp = none_crosses _ _ (max nought gyp_net) o.6 o.7 (unfold fraction in o.3) in
        (o.0, o.1, into_rcm.0, into_rcm.1, into_gyp.0, into_gyp.1)

    -- From valid ledgers whose years lie in the four before the filing year or are that year, no
    -- loss disappears: what a group had pending and its loss of the year is what was applied, what
    -- crossed of the year's loss, what is carried on and what is reported as expired.
    pub compensate_savings_base_losses :
        (cross : CrossOffset)
        → (r : CompensationResult D) × IsOutcome cross r
          × (r.rcm_applied.used_total
                ⊕ r.cross_offset_rcm_to_gyp
                ⊕ total r.rcm_ledger_next
                ⊕ r.rcm_expired
              ≈ total rcm_ledger ⊕ negative_part rcm_net)
          × (r.gyp_applied.used_total
                ⊕ r.cross_offset_gyp_to_rcm
                ⊕ total r.gyp_ledger_next
                ⊕ r.gyp_expired
              ≈ total gyp_ledger ⊕ negative_part gyp_net)
          × (sum r.rcm_applied.used_by_year ≈ r.rcm_applied.used_total)
          × (sum r.gyp_applied.used_by_year ≈ r.gyp_applied.used_total)
    unfolding finish account
    compensate_savings_base_losses cross =
        let (v, e, (br, bg)) = compensate_savings_base-End cross in
        let cr =
          (carried filing_year v.rcm_ledger v.rcm_negative br.0.negative_nonneg
            (br.1.ledger-IsValid, br.1.ledger-From, br.1.ledger-UpTo)).0 in
        let cg =
          (carried filing_year v.gyp_ledger v.gyp_negative bg.0.negative_nonneg
            (bg.1.ledger-IsValid, bg.1.ledger-From, bg.1.ledger-UpTo)).0 in
        (
          finish filing_year v,
          e,
          loss_chain _ _ _ _ _ _ v.rcm_negative (total v.rcm_ledger) br.0.loss br.0.balance cr,
          loss_chain _ _ _ _ _ _ v.gyp_negative (total v.gyp_ledger) bg.0.loss bg.0.balance cg,
          br.1.years,
          bg.1.years,
        )

    -- From valid ledgers whose years lie in the four before the filing year or are that year:
    -- the ledgers that the year leaves are accepted, as they are, in the config of the next year.
    pub compensate_savings_base_next_year :
        (cross : CrossOffset)
        → (r : CompensationResult D) × IsOutcome cross r
          × (from_config r.rcm_ledger_next.balances (filing_year +ℤ pos 1) ≡ ok r.rcm_ledger_next)
          × (from_config r.gyp_ledger_next.balances (filing_year +ℤ pos 1) ≡ ok r.gyp_ledger_next)
    unfolding finish
    compensate_savings_base_next_year cross =
        let (v, e, (br, bg)) = compensate_savings_base-End cross in
        (
          finish filing_year v,
          e,
          (carried filing_year v.rcm_ledger v.rcm_negative br.0.negative_nonneg
              (br.1.ledger-IsValid, br.1.ledger-From, br.1.ledger-UpTo)).1,
          (carried filing_year v.gyp_ledger v.gyp_negative bg.0.negative_nonneg
              (bg.1.ledger-IsValid, bg.1.ledger-From, bg.1.ledger-UpTo)).1,
        )
