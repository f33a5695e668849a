-- ===== src/TaxStatement/WashSale/Buckets.antt =====
-- What the loop of match_window takes from the acquisitions.
use investments.Base.{
  inl, inr, List, [], ◌∷◌, ◌++◌, if◌then◌else◌, All, All-append, Bool-cases, arith,
}
use investments.Base.Int.{ℤ, ◌≤ℤ◌}
use investments.Base.YearMap.{YearMap}
use investments.Base.Decimal.{Decimal, nought, ◌⊕◌, ◌⊖◌, min, ◌≼◌, ◌≺◌, ◌≈◌, led, nought_parts}
use investments.TaxStatement.WashSale.Data.{Calendar, BlockedLot, AcquisitionBucket}
use investments.TaxStatement.WashSale.Matching.{
  available, match_buckets, months_window, window, wider_window,
}

-- The wider window holds the window.
pub window-wider_window :
    (calendar : Calendar) (date : ℤ)
    → ((wider_window calendar date).0 ≤ℤ (window calendar date).0)
      × ((window calendar date).1 ≤ℤ (wider_window calendar date).1)
unfolding window wider_window months_window
window-wider_window calendar date = (
  calendar.sub_months_mono date 2 12 (omega arith),
  calendar.add_months_mono date 2 12 (omega arith),
)

module _ {D : Type 0} ⦃d : Decimal D⦄ where
  abbrev pub offered : List (BlockedLot D) → ℤ × AcquisitionBucket D → D
  offered blocked entry =
      if led (available blocked entry) nought then nought else available blocked entry

  -- The shares that are neither consumed nor blocking, bucket by bucket.
  unfoldable pub capacity : List (BlockedLot D) → YearMap (AcquisitionBucket D) → D
  capacity blocked [] = nought
  capacity blocked (entry ∷ entries) = offered blocked entry ⊕ capacity blocked entries

  unfoldable pub sum_of : List (ℤ × D) → D
  sum_of [] = nought
  sum_of (match ∷ matched) = match.1 ⊕ sum_of matched

  pub sum_of-append :
      (matched : List (ℤ × D)) (date : ℤ) (taken : D)
      → sum_of (matched ++ ((date, taken) ∷ [])) ≈ sum_of matched ⊕ taken
  unfolding sum_of
  sum_of-append [] date taken =
      omega (arith, nought_parts d, d.add_parts taken nought, d.add_parts nought taken)
  sum_of-append (first ∷ rest) date taken = omega (
    arith,
    sum_of-append rest date taken,
    d.add_parts first.1 (sum_of (rest ++ ((date, taken) ∷ []))),
    d.add_parts first.1 (sum_of rest),
    d.add_parts (sum_of rest) taken,
    d.add_parts (first.1 ⊕ sum_of rest) taken,
  )

  pub capacity_nonneg :
      (blocked : List (BlockedLot D)) (entries : YearMap (AcquisitionBucket D))
      → nought ≼ capacity blocked entries
  unfolding capacity
  capacity_nonneg blocked [] = omega arith
  capacity_nonneg blocked (entry ∷ entries) = ground (
    arith,
    nought_parts d,
    capacity_nonneg blocked entries,
    d.add_parts (offered blocked entry) (capacity blocked entries),
  )

  -- A match from a bucket is one that `P` allows.
  abbrev pub Allows : (ℤ × D → Type 0) → List (BlockedLot D) → ℤ × AcquisitionBucket D → Type 0
  Allows P blocked entry =
      (taken : D) → nought ≺ taken → taken ≼ available blocked entry → P (entry.0, taken)

  -- The matches so far, in numbers, and what `P` says of each.
  abbrev pub Matches : (ℤ × D → Type 0) → D → List (ℤ × D) × D → Type 0
  Matches P quantity (matched, matched_total) =
      (sum_of matched ≈ matched_total) × (matched_total ≼ quantity) × All P matched

  pub match_buckets_lem :
      (P : ℤ × D → Type 0) (blocked : List (BlockedLot D)) (quantity : D)
      (entries : YearMap (AcquisitionBucket D)) (sofar : List (ℤ × D) × D)
      → All (Allows P blocked) entries
      → Matches P quantity sofar
      → let result = match_buckets blocked quantity entries sofar in
        Matches P quantity result × (result.1 ≈ min quantity (sofar.1 ⊕ capacity blocked entries))
  unfolding match_buckets capacity
  match_buckets_lem P blocked quantity [] (matched, total) _ (sum, le, all) =
      ((sum, le, all), ground (arith, nought_parts d, le, d.add_parts total nought))
  match_buckets_lem P blocked quantity (entry ∷ entries) (matched, total) (allows, rest)
        (sum, le, all) =
      let remaining = quantity ⊖ total in
      let free = available blocked entry in
      let taken = min free remaining in
      elim (Bool-cases (led remaining nought)) [
        | inl e ↦ rw e (
          (sum, le, all),
          ground (
            arith,
            nought_parts d,
            e,
            le,
            capacity_nonneg blocked (entry ∷ entries),
            d.sub_parts quantity total,
            d.add_parts total (capacity blocked (entry ∷ entries)),
          ),
        )
        | inr e ↦ elim (Bool-cases (led free nought)) [
          | inl none ↦
              let (kept, least) =
                match_buckets_lem P blocked quantity entries (matched, total) rest (sum, le, all) in
              rw (e, none)
                (
                  kept,
                  ground (
                    arith,
                    nought_parts d,
                    least,
                    d.add_parts nought (capacity blocked entries),
                    d.add_parts total (capacity blocked entries),
                    d.add_parts total (nought ⊕ capacity blocked entries),
                  ),
                )
          | inr some ↦
              let positive : nought ≺ taken = ground (arith, e, some) in
              let next : List (ℤ × D) × D = (matched ++ ((entry.0, taken) ∷ []), total ⊕ taken) in
              let next-Matches : Matches P quantity next = (
                omega (
                  arith,
                  sum,
                  sum_of-append matched entry.0 taken,
                  d.add_parts (sum_of matched) taken,
                  d.add_parts total taken,
                ),
                ground (arith, d.add_parts total taken, d.sub_parts quantity total),
                All-append P matched ((entry.0, taken) ∷ []) all
                    (allows taken positive (ground arith), tt),
              ) in
              let (kept, least) =
                match_buckets_lem P blocked quantity entries next rest next-Matches in
              rw (e, some)
                (
                  kept,
                  ground (
                    arith,
                    nought_parts d,
                    least,
                    some,
                    capacity_nonneg blocked entries,
                    d.sub_parts quantity total,
                    d.add_parts total taken,
                    d.add_parts (total ⊕ taken) (capacity blocked entries),
                    d.add_parts free (capacity blocked entries),
                    d.add_parts total (free ⊕ capacity blocked entries),
                  ),
                )
        ]
      ]
