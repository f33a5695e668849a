-- ===== src/TaxStatement/WashSale/Matching.antt =====
-- `window`, `wider_window` and `match_window`: the acquisitions around a sale that block its loss.
-- A range of a `BTreeMap` is the list of its entries between two keys.
use investments.Base.{ℕ, Bool, ◌&&◌, List, [], ◌∷◌, ◌++◌, if◌then◌else◌}
use investments.Base.Int.{ℤ, leb_ℤ, eqb_ℤ}
use investments.Base.Names.{value_or}
use investments.Base.YearMap
use investments.Base.YearMap.{YearMap}
use investments.Base.Decimal.{Decimal, nought, ◌⊕◌, ◌⊖◌, min, led}
use investments.TaxStatement.WashSale.Data.{
  Calendar, BlockedLot, Disposal, AcquisitionBucket, InstrumentState,
}

abbrev pub window_months : ℕ
window_months = 2

abbrev pub wider_window_months : ℕ
wider_window_months = 12

unfoldable pub months_window : Calendar → ℤ → ℕ → ℤ × ℤ
months_window calendar sale_date months = (
  value_or calendar.min_date (calendar.checked_sub_months sale_date months),
  value_or calendar.max_date (calendar.checked_add_months sale_date months),
)

unfoldable pub window : Calendar → ℤ → ℤ × ℤ
unfolding months_window
window calendar sale_date = months_window calendar sale_date window_months

unfoldable pub wider_window : Calendar → ℤ → ℤ × ℤ
unfolding months_window
wider_window calendar sale_date = months_window calendar sale_date wider_window_months

unfoldable pub in_range : ℤ × ℤ → ℤ → Bool
in_range bounds date = leb_ℤ bounds.0 date && leb_ℤ date bounds.1

module _ {D : Type 0} ⦃d : Decimal D⦄ where
  unfoldable pub on_date : List (BlockedLot D) → ℤ → D → D
  on_date [] date sum = sum
  on_date (lot ∷ lots) date sum =
      on_date lots date (if eqb_ℤ lot.buy_date date then sum ⊕ lot.blocked_quantity else sum)

  -- The shares that still block on a date.
  unfoldable pub blocking : List (BlockedLot D) → ℤ → D
  unfolding on_date
  blocking lots date = on_date lots date nought

  unfoldable pub available : List (BlockedLot D) → ℤ × AcquisitionBucket D → D
  unfolding blocking
  available blocked (date, bucket) = bucket.quantity ⊖ bucket.consumed ⊖ blocking blocked date

  -- The loop over the acquisitions of the window, with what is matched so far.
  unfoldable pub match_buckets :
      List (BlockedLot D) → D → List (ℤ × AcquisitionBucket D) → List (ℤ × D) × D → List (ℤ × D) × D
  unfolding available
  match_buckets blocked quantity [] (matched, matched_total) = (matched, matched_total)
  match_buckets blocked quantity (entry ∷ entries) (matched, matched_total) =
      let remaining = quantity ⊖ matched_total in
      let free = available blocked entry in
      let taken = min free remaining in
      let next =
        if led free nought
        then (matched, matched_total)
        else (matched ++ ((entry.0, taken) ∷ []), matched_total ⊕ taken) in
      let rest = match_buckets blocked quantity entries next in
      if led remaining nought then (matched, matched_total) else rest

  unfoldable pub match_window : InstrumentState D → Disposal D → ℤ × ℤ → List (ℤ × D) × D
  unfolding match_buckets in_range
  match_window state disposal bounds =
      match_buckets state.blocked disposal.quantity
        (YearMap.retain (in_range bounds) state.acquisitions) ([], nought)
