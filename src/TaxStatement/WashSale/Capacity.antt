-- ===== src/TaxStatement/WashSale/Capacity.antt =====
-- What `match_window` matches: the shares that the acquisitions of the window still offer, at most
-- the quantity disposed of.
use investments.Base.{◌≡◌, refl, ◌⊎◌, inl, inr, true, List, [], ◌∷◌, All, Bool-cases, arith}
use investments.Base.Int.{ℤ, ◌≤ℤ◌}
use investments.Base.YearMap
use investments.Base.YearMap.{YearMap}
use investments.Base.Decimal.{Decimal, nought, ◌⊖◌, min, ◌≼◌, ◌≺◌, ◌≈◌, led, nought_parts}
use investments.TaxStatement.WashSale.Data.{
  BlockedLot, Disposal, AcquisitionBucket, InstrumentState,
}
use investments.TaxStatement.WashSale.Matching.{available, match_buckets, in_range, match_window}
use mathlib.Core.List.{Memᴰ}
use investments.TaxStatement.WashSale.Buckets.{
  offered, capacity, sum_of, capacity_nonneg, Allows, match_buckets_lem,
}

module _ {D : Type 0} ⦃d : Decimal D⦄ where
  -- A match on a date of the window, of an acquisition of that date that offers as many shares.
  abbrev pub IsOffered :
      List (BlockedLot D) → YearMap (AcquisitionBucket D) → ℤ × ℤ → ℤ × D → Type 0
  IsOffered blocked acquisitions bounds (date, taken) =
      (in_range bounds date ≡ true)
      × (nought ≺ taken)
      × ((bucket : AcquisitionBucket D) × Memᴰ (date, bucket) acquisitions
          × (taken ≼ available blocked (date, bucket)))

  retain-Allows :
      (blocked : List (BlockedLot D)) (acquisitions : YearMap (AcquisitionBucket D))
      (bounds : ℤ × ℤ) (entries : YearMap (AcquisitionBucket D))
      → ((entry : ℤ × AcquisitionBucket D) → Memᴰ entry entries → Memᴰ entry acquisitions)
      → All
          (Allows (IsOffered blocked acquisitions bounds) blocked)
          (YearMap.retain (in_range bounds) entries)
  retain-Allows blocked acquisitions bounds [] _ = tt
  retain-Allows blocked acquisitions bounds ((date, bucket) ∷ entries) within =
      let rest =
        retain-Allows blocked acquisitions bounds entries (λ e h. within e (Memᴰ.tail h)) in
      elim (Bool-cases (in_range bounds date)) [
        | inl e ↦ rw e (
          λ taken positive le. (e, positive, (bucket, within (date, bucket) (Memᴰ.head refl), le)),
          rest,
        )
        | inr e ↦ rw e rest
      ]

  -- For a disposal of a quantity that is not negative: what is matched in all is the smaller of the
  -- quantity and the shares that the acquisitions of the window still offer, and it is the sum of
  -- the matches. Each match is of shares acquired inside the window that are neither consumed nor
  -- blocking already.
  pub match_window-eq-min :
      (state : InstrumentState D) (disposal : Disposal D) (bounds : ℤ × ℤ)
      → nought ≼ disposal.quantity
      → let (matched, matched_total) = match_window state disposal bounds in
        (matched_total
          ≈ min disposal.quantity
              (capacity state.blocked (YearMap.retain (in_range bounds) state.acquisitions)))
        × (sum_of matched ≈ matched_total)
        × All (IsOffered state.blocked state.acquisitions bounds) matched
  unfolding match_window
  match_window-eq-min state disposal bounds nonneg =
      let entries = YearMap.retain (in_range bounds) state.acquisitions in
      let P = IsOffered state.blocked state.acquisitions bounds in
      let ((sum, _, all), least) =
        match_buckets_lem P state.blocked disposal.quantity entries ([], nought)
          (retain-Allows state.blocked state.acquisitions bounds state.acquisitions (λ e h. h))
          (unfold sum_of in (refl, nonneg, tt)) in
      (
        ground (arith, nought_parts d, least, d.add_parts nought (capacity state.blocked entries)),
        sum,
        all,
      )

  -- A disposal of nothing or less matches nothing.
  match_buckets-none :
      (blocked : List (BlockedLot D)) (quantity : D) (entries : YearMap (AcquisitionBucket D))
      → quantity ≼ nought
      → match_buckets blocked quantity entries ([], nought) ≡ ([], nought)
  unfolding match_buckets
  match_buckets-none blocked quantity [] none = refl
  match_buckets-none blocked quantity (entry ∷ entries) none =
      let e : led (quantity ⊖ nought) nought ≡ true =
        ground (arith, none, nought_parts d, d.sub_parts quantity nought) in
      rw e refl

  -- What is matched is not negative, and at most the quantity of a disposal that is positive.
  pub match_window_bounds :
      (state : InstrumentState D) (disposal : Disposal D) (bounds : ℤ × ℤ)
      → (nought ≼ (match_window state disposal bounds).1)
        × ((disposal.quantity ≼ nought)
            ⊎ ((match_window state disposal bounds).1 ≼ disposal.quantity))
  match_window_bounds state disposal bounds =
      let entries = YearMap.retain (in_range bounds) state.acquisitions in
      elim (Bool-cases (led disposal.quantity nought)) [
        | inl e ↦
            let none : disposal.quantity ≼ nought = ground (arith, e) in
            unfold match_window in
            rw (match_buckets-none state.blocked disposal.quantity entries none)
              (omega arith, inl none)
        | inr e ↦
            let nonneg : nought ≼ disposal.quantity = ground (arith, e) in
            let (least, _, _) = match_window-eq-min state disposal bounds nonneg in
            let offers = capacity_nonneg state.blocked entries in
            (ground (arith, least, nonneg, offers), inr (ground (arith, least)))
      ]

  capacity_mono :
      (blocked : List (BlockedLot D)) (narrow wide : ℤ × ℤ)
      (entries : YearMap (AcquisitionBucket D))
      → wide.0 ≤ℤ narrow.0
      → narrow.1 ≤ℤ wide.1
      → capacity blocked (YearMap.retain (in_range narrow) entries)
        ≼ capacity blocked (YearMap.retain (in_range wide) entries)
  unfolding capacity
  capacity_mono blocked narrow wide [] from to = omega arith
  capacity_mono blocked narrow wide (entry ∷ entries) from to =
      let rest = capacity_mono blocked narrow wide entries from to in
      let less = capacity blocked (YearMap.retain (in_range narrow) entries) in
      let more = capacity blocked (YearMap.retain (in_range wide) entries) in
      elim (Bool-cases (in_range narrow entry.0)) [
        | inl e ↦
            let e' : in_range wide entry.0 ≡ true =
              unfold in_range in ground (arith, e, from, to) in
            rw (e, e')
              (omega (
                arith,
                rest,
                d.add_parts (offered blocked entry) less,
                d.add_parts (offered blocked entry) more,
              ))
        | inr e ↦ elim (Bool-cases (in_range wide entry.0)) [
          | inl e' ↦
              rw (e, e')
                (ground (arith, nought_parts d, rest, d.add_parts (offered blocked entry) more))
          | inr e' ↦ rw (e, e') rest
        ]
      ]

  -- A wider window matches at least as much.
  pub match_window_mono :
      (state : InstrumentState D) (disposal : Disposal D) (narrow wide : ℤ × ℤ)
      → nought ≼ disposal.quantity
      → wide.0 ≤ℤ narrow.0
      → narrow.1 ≤ℤ wide.1
      → (match_window state disposal narrow).1 ≼ (match_window state disposal wide).1
  match_window_mono state disposal narrow wide nonneg from to =
      let (least, _, _) = match_window-eq-min state disposal narrow nonneg in
      let (least', _, _) = match_window-eq-min state disposal wide nonneg in
      let more = capacity_mono state.blocked narrow wide state.acquisitions from to in
      ground (arith, least, least', more)
