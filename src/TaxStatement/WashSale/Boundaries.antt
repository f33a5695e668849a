-- ===== src/TaxStatement/WashSale/Boundaries.antt =====
-- `review_boundaries`: the edges of the window on which the deferral of a loss turns.
use investments.Base.{◌-◌, Bool, true, false, not, List, [], ◌∷◌, ◌++◌, if◌then◌else◌, ◌==◌}
use investments.Base.Int.{ℤ, pos, ◌+ℤ◌, ◌-ℤ◌, ltb_ℤ}
use investments.Base.Decimal.{Decimal, nought, ◌⊖◌, ◌⊗◌, ◌⊘◌, ltd, led}
use investments.TaxStatement.WashSale.Data.{
  Calendar, Disposal, BoundaryKind, endpoint, near_miss, clamp, BoundaryReview, InstrumentState,
}
use investments.TaxStatement.WashSale.Matching.{window, match_window}

-- The largest change of the match so far, inward and outward, with its date.
pub record Best (D : Type 0) : Type 0 where
  pub inward : D
  pub inward_date : ℤ
  pub outward : D
  pub outward_date : ℤ

unfoldable pub is_clamped : Calendar → ℤ → ℤ → Bool
is_clamped calendar edge sale_date = not (calendar.day edge == calendar.day sale_date)

-- The candidates: a day inward, a day outward, and the day to which a clamped edge rolls over.
unfoldable pub candidates : Calendar → ℤ → ℤ → List ℤ
unfolding is_clamped
candidates calendar edge sale_date =
    (edge -ℤ pos 1)
    ∷ (edge +ℤ pos 1)
    ∷ (if is_clamped calendar edge sale_date
        then (edge +ℤ pos (calendar.day sale_date - calendar.day edge)) ∷ []
        else [])

-- Whether moving an edge to a candidate makes the window smaller.
unfoldable pub is_narrowing : Bool → ℤ → ℤ → Bool
is_narrowing anterior edge candidate =
    if anterior then ltb_ℤ edge candidate else ltb_ℤ candidate edge

module _ {D : Type 0} ⦃d : Decimal D⦄ where
  unfoldable pub keep_best : Best D → Bool → D → ℤ → Best D
  keep_best best narrows delta candidate =
      if led delta nought
      then best
      else (if narrows
          then (if ltd best.inward delta
              then record best { inward = delta; inward_date = candidate }
              else best)
          else (if ltd best.outward delta
              then record best { outward = delta; outward_date = candidate }
              else best))

  unfoldable pub consider : InstrumentState D → Disposal D → ℤ × ℤ → D → Bool → ℤ → Best D → Best D
  unfolding match_window is_narrowing keep_best
  consider state disposal bounds matched_total anterior candidate best =
      let edge = if anterior then bounds.0 else bounds.1 in
      let moved = if anterior then (candidate, bounds.1) else (bounds.0, candidate) in
      let total = (match_window state disposal moved).1 in
      let narrows = is_narrowing anterior edge candidate in
      let delta = if narrows then matched_total ⊖ total else total ⊖ matched_total in
      keep_best best narrows delta candidate

  unfoldable pub consider_all :
      InstrumentState D → Disposal D → ℤ × ℤ → D → Bool → List ℤ → Best D → Best D
  unfolding consider
  consider_all state disposal bounds matched_total anterior [] best = best
  consider_all state disposal bounds matched_total anterior (candidate ∷ rest) best =
      consider_all state disposal bounds matched_total anterior rest
        (consider state disposal bounds matched_total anterior candidate best)

  unfoldable pub review_of : Bool → ℤ → D → D → ℤ → BoundaryKind → List (BoundaryReview D)
  review_of clamped edge per_share quantity alternative_date unclamped_kind =
      if led quantity nought
      then []
      else record {
        kind = if clamped then clamp else unclamped_kind;
        boundary_date = edge;
        alternative_date = alternative_date;
        amount = per_share ⊗ quantity;
      }
        ∷ []

  unfoldable pub review_edge :
      Calendar → InstrumentState D → Disposal D → ℤ × ℤ → D → D → Bool → List (BoundaryReview D)
  unfolding candidates consider_all review_of
  review_edge calendar state disposal bounds per_share matched_total anterior =
      let edge = if anterior then bounds.0 else bounds.1 in
      let clamped = is_clamped calendar edge disposal.date in
      let best =
        consider_all state disposal bounds matched_total anterior
          (candidates calendar edge disposal.date)
          (record { inward = nought; inward_date = edge; outward = nought; outward_date = edge }) in
      review_of clamped edge per_share best.inward best.inward_date endpoint
      ++ review_of clamped edge per_share best.outward best.outward_date near_miss

  unfoldable pub review_boundaries :
      Calendar → InstrumentState D → Disposal D → D → D → List (BoundaryReview D)
  unfolding review_edge window
  review_boundaries calendar state disposal own_loss matched_total =
      let bounds = window calendar disposal.date in
      let per_share = own_loss ⊘ disposal.quantity in
      review_edge calendar state disposal bounds per_share matched_total true
      ++ review_edge calendar state disposal bounds per_share matched_total false
