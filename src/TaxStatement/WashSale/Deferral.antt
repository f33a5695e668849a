-- ===== src/TaxStatement/WashSale/Deferral.antt =====
-- What one disposal defers, releases and attaches again.
use investments.Base.{
  ◌≡◌, refl, sym, subst, ◌⊎◌, inl, inr, false, List, [], ◌++◌, All, Bool-cases, arith,
}
use investments.Base.Int.{ℤ}
use investments.Base.Names.{strings}
use investments.Base.Decimal.{
  Decimal, nought, dec, ◌⊕◌, ◌⊖◌, ◌⊗◌, min, ◌≼◌, ◌≺◌, ◌≈◌, ltd, led, nought_parts, mul_nonneg,
  mul_le_of_le_one, div_nonneg,
}
use investments.TaxStatement.WashSale.Data.{
  Calendar, Disposal, Reintegration, DisposalOutcome, InstrumentState,
}
use investments.TaxStatement.WashSale.Matching.{window, wider_window, match_window}
use investments.TaxStatement.WashSale.Engine.{split_released, share_of, own_placement, defer}
use investments.TaxStatement.WashSale.Sums.{amounts, IsPositive}
use investments.TaxStatement.WashSale.Capacity.{match_window_bounds, match_window_mono}
use investments.TaxStatement.WashSale.Buckets.{sum_of, window-wider_window}
use investments.TaxStatement.WashSale.Shares.{
  one_parts, share_of_bounds, share_of_zero, split_released-IsPositive, split_released-sum,
  split_released-none,
}
use investments.TaxStatement.WashSale.Placed.{
  ArePositive, placed_lots, block-eq-placed_lots, own_placement-ArePositive,
  split_released-ArePositive,
}

module _ {D : Type 0} ⦃d : Decimal D⦄ where
  -- What `defer` and `process_state` owe, of the state that the releases leave: `released` is what
  -- they have set free.
  abbrev pub IsDeferred :
      Calendar
      → InstrumentState D
      → Disposal D
      → D
      → List (Reintegration D)
      → InstrumentState D × DisposalOutcome D
      → Type 0
  IsDeferred calendar state disposal own_loss released (state', outcome) =
      let matches = match_window state disposal (window calendar disposal.date) in
      (placements : List (ℤ × D)) × (state'
        ≡ record state { blocked = state.blocked ++ placed_lots matches.0 matches.1 placements })
      × ArePositive placements
      × (outcome.deferred_loss ≈ own_loss ⊗ share_of matches.1 disposal.quantity)
      × (amounts outcome.reintegrations ⊕ sum_of placements
          ≈ amounts released ⊕ outcome.deferred_loss)
      × ((nought ≺ matches.1) ⊎ (sum_of placements ≈ nought))

  -- The bounds of an outcome.
  abbrev pub IsBounded : D → DisposalOutcome D → Type 0
  IsBounded own_loss outcome =
      (nought ≼ outcome.deferred_loss)
      × (outcome.deferred_loss ≼ own_loss)
      × (nought ≼ outcome.wider_window_loss)
      × All IsPositive outcome.reintegrations

  own_placement-sum :
      (date : ℤ) (loss : D) → nought ≼ loss → sum_of (own_placement date loss) ≈ loss
  unfolding own_placement sum_of
  own_placement-sum date loss nonneg =
      ground (arith, nonneg, nought_parts d, d.add_parts loss nought)

  fraction_bounds :
      (state : InstrumentState D) (disposal : Disposal D) (bounds : ℤ × ℤ) (blocked_consumed : D)
      → let matched_total = (match_window state disposal bounds).1 in
        ((nought ≼ share_of matched_total disposal.quantity)
          × (share_of matched_total disposal.quantity ≼ dec 1 0))
        × ((nought ≼ share_of (min matched_total blocked_consumed) blocked_consumed)
            × (share_of (min matched_total blocked_consumed) blocked_consumed ≼ dec 1 0))
  fraction_bounds state disposal bounds blocked_consumed =
      let matched_total = (match_window state disposal bounds).1 in
      let (nonneg, within) = match_window_bounds state disposal bounds in
      let matched = share_of_bounds matched_total disposal.quantity nonneg within in
      elim (Bool-cases (led blocked_consumed nought)) [
        | inl e ↦
            let none : ltd nought blocked_consumed ≡ false = ground (arith, e) in
            (matched, rw none (omega arith, omega (arith, nought_parts d, one_parts d)))
        | inr e ↦ (
          matched,
          share_of_bounds (min matched_total blocked_consumed) blocked_consumed
              (ground (arith, e, nonneg)) (inr (ground arith)),
        )
      ]

  release_fraction_zero : (a b : D) → a ≈ nought → share_of (min a b) b ≈ nought
  release_fraction_zero a b zero = elim (Bool-cases (ltd nought b)) [
    | inl e ↦ share_of_zero (min a b) b (ground (arith, e, zero))
    | inr e ↦ rw e refl
  ]

  -- Without a match nothing is placed.
  placed_or_none :
      (matched_total own_loss quantity blocked_consumed : D) (date : ℤ)
      (released : List (Reintegration D))
      → nought ≼ own_loss
      → nought ≼ matched_total
      → let placed = own_placement date (own_loss ⊗ share_of matched_total quantity) in
        let fraction = share_of (min matched_total blocked_consumed) blocked_consumed in
        (nought ≺ matched_total)
        ⊎ (sum_of (split_released fraction released ([], placed)).1 ≈ nought)
  placed_or_none matched_total own_loss quantity blocked_consumed date released nonneg matched =
      let blocked_fraction = share_of matched_total quantity in
      let fraction = share_of (min matched_total blocked_consumed) blocked_consumed in
      let loss = own_loss ⊗ blocked_fraction in
      elim (Bool-cases (ltd nought matched_total)) [
        | inl e ↦ inl (ground (arith, e))
        | inr e ↦
            let zero : matched_total ≈ nought = ground (arith, e, matched) in
            let no_loss : loss ≈ nought = omega (
              arith,
              nought_parts d,
              share_of_zero matched_total quantity zero,
              d.mul_comm own_loss blocked_fraction,
              d.mul_zero blocked_fraction own_loss,
            ) in
            let same =
              split_released-none fraction released [] (own_placement date loss)
                (release_fraction_zero matched_total blocked_consumed zero) in
            inr (
              subst (λ (p : List (ℤ × D)). sum_of p ≈ nought) (sym same)
                (omega (arith, no_loss, own_placement-sum date loss (omega (arith, no_loss)))))
      ]

  pub defer-IsDeferred :
      (calendar : Calendar) (state : InstrumentState D) (disposal : Disposal D) (own_loss : D)
      (released : List (Reintegration D)) (blocked_consumed : D)
      → nought ≼ own_loss
      → All IsPositive released
      → IsDeferred calendar state disposal own_loss released
          (defer calendar state disposal own_loss released blocked_consumed)
  unfolding defer
  defer-IsDeferred calendar state disposal own_loss released blocked_consumed nonneg positive =
      let bounds = window calendar disposal.date in
      let matched_total = (match_window state disposal bounds).1 in
      let blocked_fraction = share_of matched_total disposal.quantity in
      let fraction = share_of (min matched_total blocked_consumed) blocked_consumed in
      let loss = own_loss ⊗ blocked_fraction in
      let placed = own_placement disposal.date loss in
      let (matched, (above, below)) = fraction_bounds state disposal bounds blocked_consumed in
      let own_sum =
        own_placement-sum disposal.date loss
          (mul_nonneg own_loss blocked_fraction nonneg matched.0) in
      let sums = split_released-sum fraction released [] placed above below positive in
      let split = split_released fraction released ([], placed) in
      let matches = match_window state disposal bounds in
      let are_positive =
        split_released-ArePositive fraction released [] placed
          (own_placement-ArePositive disposal.date loss) in
      let some_or_none =
        placed_or_none matched_total own_loss disposal.quantity blocked_consumed disposal.date
          released nonneg (match_window_bounds state disposal bounds).0 in
      (
        split.1,
        block-eq-placed_lots state matches.0 matched_total split.1 are_positive some_or_none,
        are_positive,
        refl,
        unfold amounts in
            omega (
              arith,
              nought_parts d,
              own_sum,
              sums,
              d.add_parts nought (sum_of placed),
              d.add_parts (amounts released) (nought ⊕ sum_of placed),
              d.add_parts (amounts released) loss,
            ),
        some_or_none,
      )

  pub defer-IsBounded :
      (calendar : Calendar) (state : InstrumentState D) (disposal : Disposal D) (own_loss : D)
      (released : List (Reintegration D)) (blocked_consumed : D)
      → nought ≼ own_loss
      → IsBounded own_loss (defer calendar state disposal own_loss released blocked_consumed).1
  unfolding defer
  defer-IsBounded calendar state disposal own_loss released blocked_consumed nonneg =
      let bounds = window calendar disposal.date in
      let wider = wider_window calendar disposal.date in
      let matched_total = (match_window state disposal bounds).1 in
      let wider_total = (match_window state disposal wider).1 in
      let more = wider_total ⊖ matched_total in
      let blocked_fraction = share_of matched_total disposal.quantity in
      let fraction = share_of (min matched_total blocked_consumed) blocked_consumed in
      let (matched, _) = fraction_bounds state disposal bounds blocked_consumed in
      let (from, to) = window-wider_window calendar disposal.date in
      (
        mul_nonneg own_loss blocked_fraction nonneg matched.0,
        mul_le_of_le_one own_loss blocked_fraction nonneg matched.1,
        elim (Bool-cases (ltd nought disposal.quantity)) [
          | inl e ↦
              let some_sold : nought ≺ disposal.quantity = ground (arith, e) in
              let mono =
                match_window_mono state disposal bounds wider (omega (arith, some_sold)) from to in
              let nonneg' : nought ≼ more =
                omega (arith, nought_parts d, mono, d.sub_parts wider_total matched_total) in
              ground (
                arith,
                e,
                div_nonneg (own_loss ⊗ more) disposal.quantity
                    (mul_nonneg own_loss more nonneg nonneg') some_sold,
              )
          | inr e ↦ ground (arith, e)
        ],
        split_released-IsPositive fraction released []
            (own_placement disposal.date (own_loss ⊗ blocked_fraction)) tt,
      )
