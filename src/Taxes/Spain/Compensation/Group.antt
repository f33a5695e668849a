-- ===== src/Taxes/Spain/Compensation/Group.antt =====
-- The account of one group of the savings base, and what each step does to one side of it.
use investments.Base.{◌≡◌, refl, subst, arith}
use investments.Base.Int.{ℤ, ◌-ℤ◌}
use investments.Base.YearMap
use investments.Base.Decimal.{Decimal, nought, ◌⊕◌, ◌⊖◌, ◌≼◌, ◌≈◌, nought_parts}
use investments.Taxes.Spain.Carryforward.{
  LossLedger, LedgerApplication, merge, total, carryforward_years,
}
use investments.Taxes.Spain.Carryforward.Conservation.{sum, IsValid, Applies}
use investments.Taxes.Spain.Carryforward.Years.{sum-merge_years}

-- What a group begins with, and the most that may cross into it.
pub record Account (D : Type 0) : Type 0 where
  pub positive : D
  pub negative : D
  pub pending : D
  pub limit : D

-- One group's share of the variables. `cross_in` and `prior_in` are the current and the prior losses
-- of the other group set against it, `cross_out` and `prior_out` its own set against the other.
pub record Group (D : Type 0) : Type 0 where
  pub taxable : D
  pub negative : D
  pub allowance : D
  pub ledger : LossLedger D
  pub applied : LedgerApplication D
  pub cross_in : D
  pub prior_in : D
  pub cross_out : D
  pub prior_out : D

module _ {D : Type 0} ⦃d : Decimal D⦄ where
  -- The amounts of the group agree with its account.
  pub record Accounted (a : Account D) (s : Group D) : Type 0 where
    pub income :
        s.taxable ⊕ s.cross_in ⊕ s.prior_in ⊕ s.applied.used_total ≈ a.positive ⊕ s.prior_out
    pub loss : s.negative ⊕ s.cross_out ≈ a.negative
    pub balance : s.applied.used_total ⊕ total s.ledger ≈ a.pending
    pub limited : s.allowance ⊕ s.cross_in ⊕ s.prior_in ≼ a.limit
    pub taxable_nonneg : nought ≼ s.taxable
    pub negative_nonneg : nought ≼ s.negative
    pub allowance_nonneg : nought ≼ s.allowance
    pub cross_nonneg : nought ≼ s.cross_in
    pub prior_nonneg : nought ≼ s.prior_in
    pub own : s.prior_out ≼ s.applied.used_total

  -- What is applied is reported by year, and the ledger is valid and lies in the window.
  pub record Labelled (filing_year : ℤ) (s : Group D) : Type 0 where
    pub years : sum s.applied.used_by_year ≈ s.applied.used_total
    pub years-Ascending : YearMap.Ascending s.applied.used_by_year
    pub ledger-IsValid : IsValid s.ledger
    pub ledger-From : YearMap.From (filing_year -ℤ carryforward_years) s.ledger.balances
    pub ledger-UpTo : YearMap.UpTo filing_year s.ledger.balances

  abbrev pub Balanced : ℤ → Account D → Group D → Type 0
  Balanced filing_year a s = Accounted a s × Labelled filing_year s

  pub relabel :
      (filing_year : ℤ) (s t : Group D)
      → s.applied ≡ t.applied
      → s.ledger ≡ t.ledger
      → Labelled filing_year s
      → Labelled filing_year t
  relabel fy s t p q l = record {
    years = subst (λ x. sum x.used_by_year ≈ x.used_total) p l.years;
    years-Ascending = subst (λ x. YearMap.Ascending x.used_by_year) p l.years-Ascending;
    ledger-IsValid = subst (λ x. IsValid x) q l.ledger-IsValid;
    ledger-From = subst (λ x. YearMap.From (fy -ℤ carryforward_years) x.balances) q l.ledger-From;
    ledger-UpTo = subst (λ x. YearMap.UpTo fy x.balances) q l.ledger-UpTo;
  }

  abbrev pub no_allowance : Group D → Group D
  no_allowance t = record t { allowance = nought }

  module _ (filing_year : ℤ) (a : Account D) (s : Group D) (b : Balanced filing_year a s) where
    -- A current loss of `x` of the group is set against the other.
    abbrev pub give : D → Group D
    give x = record s { negative = s.negative ⊖ x; cross_out = x }

    pub give-Balanced :
        (x : D) → s.cross_out ≈ nought → x ≼ s.negative → Balanced filing_year a (give x)
    give-Balanced x z le = (omega arith, relabel filing_year s (give x) refl refl b.1)

    -- A current loss of `x` of the other group is set against the group.
    abbrev pub take : D → Group D
    take x = record s { taxable = s.taxable ⊖ x; allowance = s.allowance ⊖ x; cross_in = x }

    pub take-Balanced :
        (x : D)
        → s.cross_in ≈ nought
        → nought ≼ x
        → x ≼ s.taxable
        → x ≼ s.allowance
        → Balanced filing_year a (take x)
    take-Balanced x z pos le le' = (omega arith, relabel filing_year s (take x) refl refl b.1)

    -- A prior loss of `x` of the other group is set against the group.
    abbrev pub take_prior : D → Group D
    take_prior x = record s { taxable = s.taxable ⊖ x; prior_in = x }

    -- The rest of the allowance is not used any more.
    pub take_prior-Balanced :
        (x : D)
        → s.prior_in ≈ nought
        → nought ≼ x
        → x ≼ s.taxable
        → x ≼ s.allowance
        → Balanced filing_year a (no_allowance (take_prior x))
    take_prior-Balanced x z pos le le' =
        (omega arith, relabel filing_year s (no_allowance (take_prior x)) refl refl b.1)

    -- The group's own prior losses are set against it.
    abbrev pub absorb : LedgerApplication D → LossLedger D → Group D
    absorb applied after = record s {
      taxable = s.taxable ⊖ applied.used_total;
      applied = applied;
      ledger = after;
    }

    pub absorb-Balanced :
        (budget : D) (applied : LedgerApplication D) (after : LossLedger D)
        → s.applied.used_total ≈ nought
        → s.prior_out ≈ nought
        → budget ≼ s.taxable
        → Applies s.ledger budget applied after
        → Balanced filing_year a (absorb applied after)
    absorb-Balanced budget applied after z z' le ap = (
      omega (arith, b.0, ap.conserved, ap.used_nonneg, ap.within, nought_parts d),
      record {
        years = ap.by_year;
        years-Ascending = ap.years-Ascending;
        ledger-IsValid = ap.after-IsValid;
        ledger-From = ap.after-From (filing_year -ℤ carryforward_years) b.1.ledger-From;
        ledger-UpTo = ap.after-UpTo filing_year b.1.ledger-UpTo;
      },
    )

    -- Prior losses of the group are set against the other.
    abbrev pub give_prior : LedgerApplication D → LossLedger D → Group D
    give_prior crossed after = record s {
      ledger = after;
      prior_out = crossed.used_total;
      applied = merge s.applied crossed;
    }

    pub give_prior-Balanced :
        (budget : D) (crossed : LedgerApplication D) (after : LossLedger D)
        → nought ≼ s.applied.used_total
        → s.prior_out ≈ nought
        → Applies s.ledger budget crossed after
        → Balanced filing_year a (give_prior crossed after)
    unfolding merge
    give_prior-Balanced budget crossed after pos z ap =
        let merged =
          sum-merge_years s.applied.used_by_year crossed.used_by_year b.1.years-Ascending in
        (
          omega (arith, b.0, ap.conserved, ap.used_nonneg, nought_parts d),
          record {
            years = omega (arith, merged.1, b.1.years, ap.by_year);
            years-Ascending = merged.0;
            ledger-IsValid = ap.after-IsValid;
            ledger-From = ap.after-From (filing_year -ℤ carryforward_years) b.1.ledger-From;
            ledger-UpTo = ap.after-UpTo filing_year b.1.ledger-UpTo;
          },
        )

    pub no_allowance-Balanced : Balanced filing_year a (no_allowance s)
    no_allowance-Balanced = (omega arith, relabel filing_year s (no_allowance s) refl refl b.1)
