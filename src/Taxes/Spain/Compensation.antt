-- ===== src/Taxes/Spain/Compensation.antt =====
-- Integration and compensation of the savings base, src/taxes/spain/compensation.rs. The two orders
-- share their steps: each step is a block of statements over the same local variables, so the
-- variables are a record. The warnings of the log are left out.
pub mod Group
pub mod Steps
pub mod Settlement
pub mod Outcome
use investments.Base.{if◌then◌else◌, Option, none, some}
use investments.Base.Int.{ℤ}
use investments.Base.Decimal.{Decimal, nought, dec, negate, ◌⊕◌, ◌⊖◌, ◌⊗◌, min, max, ltd}
use investments.Taxes.Spain.Carryforward.{
  LossLedger, LedgerApplication, not_applied, apply, add, merge, expiring_after, drop_expired,
}

pub data CrossOffset : Type 0 where
  no_cross aeat_two_phase navarra_ordered : CrossOffset

pub record CompensationResult (D : Type 0) : Type 0 where
  pub rcm_taxable : D
  pub gyp_taxable : D
  pub savings_base : D
  pub rcm_applied : LedgerApplication D
  pub gyp_applied : LedgerApplication D
  pub cross_offset_rcm_to_gyp : D
  pub cross_offset_gyp_to_rcm : D
  pub prior_cross_offset_rcm_to_gyp : D
  pub prior_cross_offset_gyp_to_rcm : D
  pub rcm_ledger_next : LossLedger D
  pub gyp_ledger_next : LossLedger D
  pub rcm_expired : D
  pub gyp_expired : D

-- The local variables of `aeat_order` and `navarra_order`.
pub record Variables (D : Type 0) : Type 0 where
  pub rcm_taxable : D
  pub gyp_taxable : D
  pub rcm_negative : D
  pub gyp_negative : D
  pub rcm_allowance : D
  pub gyp_allowance : D
  pub rcm_ledger : LossLedger D
  pub gyp_ledger : LossLedger D
  pub rcm_applied : LedgerApplication D
  pub gyp_applied : LedgerApplication D
  pub cross_offset_rcm_to_gyp : D
  pub cross_offset_gyp_to_rcm : D
  pub prior_cross_offset_rcm_to_gyp : D
  pub prior_cross_offset_gyp_to_rcm : D

-- A panic inside a step ends the whole.
infixl 5 ◌>>=◌
abbrev pub ◌>>=◌ : {A B : Type 0} → Option A → (A → Option B) → Option B
none >>= f = none
some a >>= f = f a

module _ {D : Type 0} ⦃d : Decimal D⦄ where
  pub fraction : CrossOffset → D
  fraction CrossOffset.no_cross = nought
  fraction CrossOffset.aeat_two_phase = dec 25 2
  fraction CrossOffset.navarra_ordered = dec 25 2

  pub negative_part : D → D
  negative_part net = if ltd net nought then negate net else nought

  -- A current-year negative of one group reduces the other, within the allowance of the other.
  pub cross_current_rcm : Variables D → Variables D
  cross_current_rcm v =
      let x = min (min v.rcm_negative v.gyp_taxable) v.gyp_allowance in
      record v {
        gyp_taxable = v.gyp_taxable ⊖ x;
        gyp_allowance = v.gyp_allowance ⊖ x;
        rcm_negative = v.rcm_negative ⊖ x;
        cross_offset_rcm_to_gyp = x;
      }

  pub cross_current_gyp : Variables D → Variables D
  cross_current_gyp v =
      let x = min (min v.gyp_negative v.rcm_taxable) v.rcm_allowance in
      record v {
        rcm_taxable = v.rcm_taxable ⊖ x;
        rcm_allowance = v.rcm_allowance ⊖ x;
        gyp_negative = v.gyp_negative ⊖ x;
        cross_offset_gyp_to_rcm = x;
      }

  -- Prior-year balances reduce what is left of their own group.
  pub apply_own : Variables D → Option (Variables D)
  apply_own v = do
    (rcm_applied, rcm_ledger) ← apply v.rcm_ledger v.rcm_taxable none
    (gyp_applied, gyp_ledger) ← apply v.gyp_ledger v.gyp_taxable none
    some (record v {
      rcm_taxable = v.rcm_taxable ⊖ rcm_applied.used_total;
      gyp_taxable = v.gyp_taxable ⊖ gyp_applied.used_total;
      rcm_ledger = rcm_ledger;
      gyp_ledger = gyp_ledger;
      rcm_applied = rcm_applied;
      gyp_applied = gyp_applied;
    })

  -- What its own group could not absorb of a prior-year balance crosses to the other.
  pub cross_prior_rcm : Variables D → Option (Variables D)
  cross_prior_rcm v = do
    (crossed, rcm_ledger) ← apply v.rcm_ledger v.gyp_taxable (some v.gyp_allowance)
    some (record v {
      rcm_ledger = rcm_ledger;
      prior_cross_offset_rcm_to_gyp = crossed.used_total;
      gyp_taxable = v.gyp_taxable ⊖ crossed.used_total;
      rcm_applied = merge v.rcm_applied crossed;
    })

  pub cross_prior_gyp : Variables D → Option (Variables D)
  cross_prior_gyp v = do
    (crossed, gyp_ledger) ← apply v.gyp_ledger v.rcm_taxable (some v.rcm_allowance)
    some (record v {
      gyp_ledger = gyp_ledger;
      prior_cross_offset_gyp_to_rcm = crossed.used_total;
      rcm_taxable = v.rcm_taxable ⊖ crossed.used_total;
      gyp_applied = merge v.gyp_applied crossed;
    })

  -- The amounts that expire, and the ledgers that are carried on.
  pub carry_forward_and_expire :
      ℤ → LossLedger D × D → LossLedger D × D → D × D × LossLedger D × LossLedger D
  carry_forward_and_expire filing_year (rcm_ledger, rcm_negative) (gyp_ledger, gyp_negative) =
      let rcm = add rcm_ledger filing_year rcm_negative in
      let gyp = add gyp_ledger filing_year gyp_negative in
      (
        expiring_after rcm filing_year,
        expiring_after gyp filing_year,
        drop_expired rcm filing_year,
        drop_expired gyp filing_year,
      )

  -- The result that both orders build from their variables.
  pub finish : ℤ → Variables D → CompensationResult D
  unfolding carry_forward_and_expire
  finish filing_year v =
      let (rcm_expired, gyp_expired, rcm_ledger, gyp_ledger) =
        carry_forward_and_expire filing_year (v.rcm_ledger, v.rcm_negative)
          (v.gyp_ledger, v.gyp_negative) in
      record {
        rcm_taxable = v.rcm_taxable;
        gyp_taxable = v.gyp_taxable;
        savings_base = v.rcm_taxable ⊕ v.gyp_taxable;
        rcm_applied = v.rcm_applied;
        gyp_applied = v.gyp_applied;
        cross_offset_rcm_to_gyp = v.cross_offset_rcm_to_gyp;
        cross_offset_gyp_to_rcm = v.cross_offset_gyp_to_rcm;
        prior_cross_offset_rcm_to_gyp = v.prior_cross_offset_rcm_to_gyp;
        prior_cross_offset_gyp_to_rcm = v.prior_cross_offset_gyp_to_rcm;
        rcm_ledger_next = rcm_ledger;
        gyp_ledger_next = gyp_ledger;
        rcm_expired = rcm_expired;
        gyp_expired = gyp_expired;
      }

  -- The variables at the start; those that an order sets later are nought until then.
  pub start : D → D → LossLedger D → LossLedger D → Variables D
  unfolding negative_part
  start rcm_net gyp_net rcm_ledger gyp_ledger = record {
    rcm_taxable = max nought rcm_net;
    gyp_taxable = max nought gyp_net;
    rcm_negative = negative_part rcm_net;
    gyp_negative = negative_part gyp_net;
    rcm_allowance = nought;
    gyp_allowance = nought;
    rcm_ledger = rcm_ledger;
    gyp_ledger = gyp_ledger;
    rcm_applied = not_applied;
    gyp_applied = not_applied;
    cross_offset_rcm_to_gyp = nought;
    cross_offset_gyp_to_rcm = nought;
    prior_cross_offset_rcm_to_gyp = nought;
    prior_cross_offset_gyp_to_rcm = nought;
  }

  -- One allowance per group, a share of what the group has at that point.
  pub allow : D → Variables D → Variables D
  allow share v = record v {
    rcm_allowance = v.rcm_taxable ⊗ share;
    gyp_allowance = v.gyp_taxable ⊗ share;
  }

  pub cross_current : Variables D → Variables D
  unfolding cross_current_rcm cross_current_gyp
  cross_current v = cross_current_gyp (cross_current_rcm v)

  pub cross_prior : Variables D → Option (Variables D)
  unfolding cross_prior_rcm cross_prior_gyp
  cross_prior v = do v' ← cross_prior_rcm v; cross_prior_gyp v'

  pub aeat_order : ℤ → D → D → LossLedger D → LossLedger D → D → Option (CompensationResult D)
  aeat_order filing_year rcm_net gyp_net rcm_ledger gyp_ledger share = do
    let v = allow share (start rcm_net gyp_net rcm_ledger gyp_ledger)
    v₁ ← apply_own (if ltd nought share then cross_current v else v)
    v₂ ← if ltd nought share then cross_prior v₁ else some v₁
    some (finish filing_year v₂)

  pub navarra_order : ℤ → D → D → LossLedger D → LossLedger D → D → Option (CompensationResult D)
  navarra_order filing_year rcm_net gyp_net rcm_ledger gyp_ledger share = do
    v ← apply_own (start rcm_net gyp_net rcm_ledger gyp_ledger)
    v' ← cross_prior (cross_current (allow share v))
    some (finish filing_year v')

  pub compensate_savings_base :
      ℤ → D → D → LossLedger D → LossLedger D → CrossOffset → Option (CompensationResult D)
  unfolding fraction aeat_order navarra_order
  compensate_savings_base filing_year rcm_net gyp_net rcm_ledger gyp_ledger
        CrossOffset.navarra_ordered =
      navarra_order filing_year rcm_net gyp_net rcm_ledger gyp_ledger
        (fraction CrossOffset.navarra_ordered)
  compensate_savings_base filing_year rcm_net gyp_net rcm_ledger gyp_ledger cross =
      aeat_order filing_year rcm_net gyp_net rcm_ledger gyp_ledger (fraction cross)
