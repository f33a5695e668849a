-- ===== src/Taxes/Spain/Carryforward/Offset.antt =====
-- `LossLedger::apply` against a reference that takes from the oldest year first: no loop over a
-- snapshot of the keys, no lookup, no removal.
use investments.Base.{
  if◌then◌else◌, true, false, ◌≡◌, refl, Option, some, List, [], ◌∷◌, ◌++◌, arith, Bool-cases, inl,
  inr, ◌∙◌, ap,
}
use investments.Base.Int.{ℤ}
use mathlib.Core.List.{append-nil, append_assoc}
use investments.Base.YearMap
use investments.Base.YearMap.{YearMap}
use investments.Base.Decimal.{Decimal, nought, ◌⊕◌, ◌⊖◌, led, is_zero, sum_from}
use investments.Taxes.Spain.Carryforward.{
  LossLedger, LedgerApplication, Progress, consume, consume_year, budget_of, apply,
}

module _ {D : Type 0} ⦃d : Decimal D⦄ where
  -- What a budget takes from the oldest years, by year.
  unfoldable pub used_of : D → YearMap D → YearMap D
  used_of budget [] = []
  used_of budget ((k, v) ∷ m) =
      let rest = used_of (budget ⊖ v) m in
      if is_zero budget then [] else (if led v budget then (k, v) ∷ rest else (k, budget) ∷ [])

  -- What it leaves.
  unfoldable pub left_of : D → YearMap D → YearMap D
  left_of budget [] = []
  left_of budget ((k, v) ∷ m) =
      let rest = left_of (budget ⊖ v) m in
      if is_zero budget then (k, v) ∷ m else (if led v budget then rest else (k, v ⊖ budget) ∷ m)

  unfoldable pub applied : D → YearMap D → LedgerApplication D
  applied budget m = record {
    used_total = sum_from nought (YearMap.values (used_of budget m));
    used_by_year = used_of budget m;
  }

  abbrev progress : D → YearMap D → D → YearMap D → Progress D
  progress budget m sum used = record {
    budget = budget;
    balances = m;
    application = record { used_total = sum; used_by_year = used };
  }

  -- One year is used up, or it takes the rest of the budget.
  consume_year-head :
      (budget sum : D) (k : ℤ) (v : D) (m used : YearMap D)
      → YearMap.Below k used
      → consume_year k v (progress budget ((k, v) ∷ m) sum used) ≡ (
          if led v budget
          then progress (budget ⊖ v) m (sum ⊕ v) (used ++ ((k, v) ∷ []))
          else progress
              (budget ⊖ budget)
              ((k, v ⊖ budget) ∷ m)
              (sum ⊕ budget)
              (used ++ ((k, budget) ∷ [])))
  unfolding consume_year
  consume_year-head budget sum k v m used h =
      ground (arith, YearMap.insert-Below k v used h, YearMap.insert-Below k budget used h)

  get-head : (k : ℤ) (v : D) (m : YearMap D) → YearMap.get k ((k, v) ∷ m) ≡ some v
  get-head k v m = ground arith

  consume_done : (ks : List ℤ) (p : Progress D) → is_zero p.budget ≡ true → consume ks p ≡ some p
  unfolding consume
  consume_done [] p h = refl
  consume_done (k ∷ ks) p h = ground arith

  consume-step :
      (ks : List ℤ) (k : ℤ) (v : D) (p : Progress D)
      → is_zero p.budget ≡ false
      → YearMap.get k p.balances ≡ some v
      → consume (k ∷ ks) p ≡ consume ks (consume_year k v p)
  unfolding consume
  consume-step ks k v p h e = ground arith

  consume-used :
      (budget sum : D) (m used : YearMap D)
      → YearMap.Ascending m
      → YearMap.Precedes used m
      → (b : D) × (consume (YearMap.keys m) (progress budget m sum used)
          ≡ some (
              progress b
                (left_of budget m)
                (sum_from sum (YearMap.values (used_of budget m)))
                (used ++ used_of budget m)))
  unfolding used_of left_of
  consume-used budget sum [] used asc pre = (budget, unfold consume in rw (append-nil used) refl)
  consume-used budget sum ((k, v) ∷ m) used (above, asc) pre = elim (Bool-cases (is_zero budget)) [
    | inl spent ↦ (
      budget,
      rw spent (
          rw (append-nil used)
            (consume_done (k ∷ YearMap.keys m) (progress budget ((k, v) ∷ m) sum used) spent)),
    )
    | inr more ↦
        let step =
          consume-step (YearMap.keys m) k v (progress budget ((k, v) ∷ m) sum used) more
            (get-head k v m)
          ∙ ap (consume (YearMap.keys m)) (consume_year-head budget sum k v m used pre.0) in
        elim (Bool-cases (led v budget)) [
          | inl whole ↦
              let rec =
                consume-used (budget ⊖ v) (sum ⊕ v) m (used ++ ((k, v) ∷ [])) asc
                  (YearMap.Precedes-append k v used m above pre.1) in
              (
                rec.0,
                ground
                    (arith, step, rec.1, append_assoc used ((k, v) ∷ []) (used_of (budget ⊖ v) m)),
              )
          | inr part ↦ (
            budget ⊖ budget,
            ground (
              arith,
              step,
              d.sub_parts budget budget,
              consume_done (YearMap.keys m) (
                  progress (budget ⊖ budget) ((k, v ⊖ budget) ∷ m) (sum ⊕ budget)
                    (used ++ ((k, budget) ∷ []))),
            ),
          )
        ]
  ]

  used_of-zero :
      (budget : D) (m : YearMap D)
      → is_zero budget ≡ true
      → (used_of budget m ≡ []) × (left_of budget m ≡ m)
  unfolding used_of left_of
  used_of-zero budget [] h = (refl, refl)
  used_of-zero budget ((k, v) ∷ m) h = (rw h, rw h)

  -- Over keys that ascend, `apply` never panics. It takes the budget from the oldest year first: a
  -- year is touched only when all before it are used up, and only the last one is used in part.
  -- What it reports by year is what it took, and the total is the sum of these.
  pub apply-eq-applied :
      (ledger : LossLedger D) (amount : D) (cap : Option D)
      → YearMap.Ascending ledger.balances
      → let budget = budget_of amount cap in
        apply ledger amount cap
        ≡ some
            (applied budget ledger.balances, record { balances = left_of budget ledger.balances })
  unfolding apply applied
  apply-eq-applied ledger amount cap asc =
      let budget = budget_of amount cap in
      let m = ledger.balances in
      ground (
        arith,
        used_of-zero budget m,
        (consume-used budget nought m [] asc (YearMap.Precedes-nil m)).1,
      )
