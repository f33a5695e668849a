-- ===== src/Taxes/Spain/Carryforward/Years.antt =====
-- What adding to a year, merging two offsets and dropping the expired years do to a ledger's sum.
use investments.Base.{◌≡◌, refl, [], ◌∷◌, arith, inl, inr, Bool-cases}
use investments.Base.Int.{ℤ, ◌-ℤ◌, ◌≤ℤ◌, -ℤ_parts, ltb_ℤ}
use investments.Base.YearMap
use investments.Base.YearMap.{YearMap}
use investments.Base.Decimal.{Decimal, nought, ◌⊕◌, ◌≼◌, ◌≺◌, ◌≈◌, nought_parts, led}
use investments.Taxes.Spain.Carryforward.{
  LossLedger, add_at, merge_years, add, expiring_after, drop_expired, total, carryforward_years,
}
use investments.Taxes.Spain.Carryforward.Conservation.{sum, Positive, IsValid, total-eq-sum}

module _ {D : Type 0} ⦃d : Decimal D⦄ where
  pub sum-add_at :
      (k : ℤ) (x : D) (m : YearMap D) → YearMap.Ascending m → sum (add_at k x m) ≈ x ⊕ sum m
  unfolding sum add_at
  sum-add_at k x [] asc = omega (
    arith,
    nought_parts d,
    d.add_parts nought x,
    d.add_parts (nought ⊕ x) nought,
    d.add_parts x nought,
  )
  sum-add_at k x ((j, w) ∷ m) asc = ground (
    arith,
    nought_parts d,
    YearMap.get-Above k m (YearMap.Above-mono k j m _ asc.0),
    sum-add_at k x m asc.1,
    d.add_parts nought x,
    d.add_parts w x,
    d.add_parts w (sum m),
    d.add_parts (nought ⊕ x) (w ⊕ sum m),
    d.add_parts (w ⊕ x) (sum m),
    d.add_parts x (w ⊕ sum m),
    d.add_parts x (sum m),
    d.add_parts w (sum (add_at k x m)),
  )

  pub Ascending-add_at :
      (k : ℤ) (x : D) (m : YearMap D) → YearMap.Ascending m → YearMap.Ascending (add_at k x m)
  unfolding add_at
  Ascending-add_at k x m asc = YearMap.Ascending-insert k _ m asc

  Positive-insert :
      (k : ℤ) (x : D) (m : YearMap D) → nought ≺ x → Positive m → Positive (YearMap.insert k x m)
  Positive-insert k x [] lt p = (lt, tt)
  Positive-insert k x ((j, w) ∷ m) lt p = ground (arith, Positive-insert k x m lt p.1)

  get_or_nonneg : (k : ℤ) (m : YearMap D) → Positive m → nought ≼ YearMap.get_or m k nought
  get_or_nonneg k [] p = omega arith
  get_or_nonneg k ((j, w) ∷ m) p = ground (arith, get_or_nonneg k m p.1)

  pub Positive-add_at :
      (k : ℤ) (x : D) (m : YearMap D) → nought ≺ x → Positive m → Positive (add_at k x m)
  unfolding add_at
  Positive-add_at k x m lt p =
      Positive-insert k (YearMap.get_or m k nought ⊕ x) m
        (omega
          (arith, nought_parts d, get_or_nonneg k m p, d.add_parts (YearMap.get_or m k nought) x))
        p

  pub sum-merge_years :
      (m other : YearMap D)
      → YearMap.Ascending m
      → YearMap.Ascending (merge_years m other) × (sum (merge_years m other) ≈ sum m ⊕ sum other)
  unfolding merge_years sum
  sum-merge_years m [] asc = (asc, omega (arith, nought_parts d, d.add_parts (sum m) nought))
  sum-merge_years m ((k, x) ∷ other) asc =
      let (asc', e) = sum-merge_years (add_at k x m) other (Ascending-add_at k x m asc) in
      (
        asc',
        omega (
          arith,
          e,
          sum-add_at k x m asc,
          d.add_parts (sum (add_at k x m)) (sum other),
          d.add_parts x (sum m),
          d.add_parts x (sum other),
          d.add_parts (sum m) (x ⊕ sum other),
        ),
      )

  abbrev kept : ℤ → YearMap D → YearMap D
  kept expired_origin = YearMap.retain (λ origin. ltb_ℤ expired_origin origin)

  kept-Above : (k : ℤ) (m : YearMap D) → YearMap.Above k m → kept k m ≡ m
  kept-Above k [] h = refl
  kept-Above k ((j, w) ∷ m) h = ground (arith, kept-Above k m h.1)

  sum-kept :
      (k : ℤ) (m : YearMap D)
      → YearMap.Ascending m
      → YearMap.From k m
      → sum (kept k m) ⊕ YearMap.get_or m k nought ≈ sum m
  unfolding sum
  sum-kept k [] asc f = omega (arith, nought_parts d, d.add_parts nought nought)
  sum-kept k ((j, w) ∷ m) asc f = ground (
    arith,
    nought_parts d,
    sum-kept k m asc.1 f.1,
    kept-Above k m (YearMap.Above-mono k j m _ asc.0),
    YearMap.get-Above k m (YearMap.Above-mono k j m _ asc.0),
    d.add_parts (sum m) w,
    d.add_parts w (sum m),
    d.add_parts w (sum (kept k m)),
    d.add_parts (sum (kept k m)) (YearMap.get_or m k nought),
    d.add_parts (w ⊕ sum (kept k m)) (YearMap.get_or m k nought),
    d.add_parts (w ⊕ sum m) nought,
    d.add_parts (sum m) nought,
  )

  -- What is reported as expiring is what dropping the expired years takes from the ledger, if no
  -- year of it had expired before.
  pub total-drop_expired :
      (ledger : LossLedger D) (filing_year : ℤ)
      → YearMap.Ascending ledger.balances
      → YearMap.From (filing_year -ℤ carryforward_years) ledger.balances
      → total (drop_expired ledger filing_year) ⊕ expiring_after ledger filing_year ≈ total ledger
  unfolding drop_expired expiring_after
  total-drop_expired ledger fy asc f =
      let k = fy -ℤ carryforward_years in
      let left : LossLedger D = record { balances = kept k ledger.balances } in
      omega (
        arith,
        total-eq-sum ledger,
        total-eq-sum left,
        sum-kept k ledger.balances asc f,
        d.add_parts (total left) (YearMap.get_or ledger.balances k nought),
        d.add_parts (sum (kept k ledger.balances)) (YearMap.get_or ledger.balances k nought),
      )

  -- A ledger that may be used in the year `filing_year` or comes from it.
  abbrev pub InRange : ℤ → LossLedger D → Type 0
  InRange filing_year ledger =
      IsValid ledger
      × YearMap.From (filing_year -ℤ carryforward_years) ledger.balances
      × YearMap.UpTo filing_year ledger.balances

  add_at-InRange :
      (ledger : LossLedger D) (filing_year : ℤ) (loss : D)
      → nought ≺ loss
      → InRange filing_year ledger
      → InRange filing_year (record { balances = add_at filing_year loss ledger.balances })
  unfolding add_at
  add_at-InRange ledger fy loss lt (v, from, up) =
      let m = ledger.balances in
      let low : fy -ℤ carryforward_years ≤ℤ fy = omega (arith, -ℤ_parts fy carryforward_years) in
      (
        (Ascending-add_at fy loss m v.0, Positive-add_at fy loss m lt v.1),
        YearMap.From-insert (fy -ℤ carryforward_years) fy _ m low from,
        YearMap.UpTo-insert fy fy _ m (omega arith) up,
      )

  -- In a ledger in range, recording a loss of the year that is not negative adds it to the total, and keeps the ledger in range.
  pub add-InRange :
      (ledger : LossLedger D) (filing_year : ℤ) (loss : D)
      → nought ≼ loss
      → InRange filing_year ledger
      → InRange filing_year (add ledger filing_year loss)
        × (total (add ledger filing_year loss) ≈ total ledger ⊕ loss)
  unfolding add
  add-InRange ledger fy loss nonneg range =
      let m = ledger.balances in
      let after : LossLedger D = record { balances = add_at fy loss m } in
      elim (Bool-cases (led loss nought)) [
        | inl none_lost ↦
            rw none_lost (range, ground (arith, nought_parts d, d.add_parts (total ledger) loss))
        | inr lost ↦ rw lost (
          add_at-InRange ledger fy loss (ground arith) range,
          omega (
            arith,
            total-eq-sum ledger,
            total-eq-sum after,
            sum-add_at fy loss m range.0.0,
            d.add_parts loss (sum m),
            d.add_parts (total ledger) loss,
          ),
        )
      ]
