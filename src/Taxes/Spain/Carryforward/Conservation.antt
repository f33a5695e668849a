-- ===== src/Taxes/Spain/Carryforward/Conservation.antt =====
-- Nothing is lost or invented when a ledger is applied, and its balances stay positive.
use investments.Base.{◌≡◌, refl, ◌⊎◌, inl, inr, [], ◌∷◌, arith, Option, none, some}
use investments.Base.Int.{ℤ}
use investments.Base.YearMap
use investments.Base.YearMap.{YearMap}
use investments.Base.Decimal.{Decimal, nought, ◌⊕◌, ◌⊖◌, ◌≼◌, ◌≺◌, ◌≈◌, sum_from, nought_parts}
use investments.Taxes.Spain.Carryforward.{LossLedger, LedgerApplication, budget_of, apply, total}
use investments.Taxes.Spain.Carryforward.Order.{
  left_of-Ascending, used_of-Ascending, left_of-From, left_of-UpTo,
}
use investments.Taxes.Spain.Carryforward.Offset.{used_of, left_of, applied, apply-eq-applied}

module _ {D : Type 0} ⦃d : Decimal D⦄ where
  -- Every balance is a positive magnitude.
  abbrev pub Positive : YearMap D → Type 0
  Positive [] = Unit
  Positive ((_, v) ∷ m) = (nought ≺ v) × Positive m

  -- The form of every ledger that the program builds.
  abbrev pub IsValid : LossLedger D → Type 0
  IsValid ledger = YearMap.Ascending ledger.balances × Positive ledger.balances

  unfoldable pub sum : YearMap D → D
  sum [] = nought
  sum ((_, v) ∷ m) = v ⊕ sum m

  pub sum_from-eq-add-sum :
      (acc : D) (m : YearMap D) → sum_from acc (YearMap.values m) ≈ acc ⊕ sum m
  unfolding sum
  sum_from-eq-add-sum acc [] = omega (arith, d.add_parts acc nought, nought_parts d)
  sum_from-eq-add-sum acc ((k, v) ∷ m) = omega (
    arith,
    sum_from-eq-add-sum (acc ⊕ v) m,
    d.add_parts (acc ⊕ v) (sum m),
    d.add_parts acc v,
    d.add_parts v (sum m),
    d.add_parts acc (v ⊕ sum m),
  )

  pub total-eq-sum : (ledger : LossLedger D) → total ledger ≈ sum ledger.balances
  unfolding total
  total-eq-sum ledger = omega (
    arith,
    sum_from-eq-add-sum nought ledger.balances,
    d.add_parts nought (sum ledger.balances),
    nought_parts d,
  )

  pub sum_nonneg : (m : YearMap D) → Positive m → nought ≼ sum m
  unfolding sum
  sum_nonneg [] h = omega arith
  sum_nonneg ((k, v) ∷ m) h = omega (arith, sum_nonneg m h.1, d.add_parts v (sum m), nought_parts d)

  -- What a budget takes from positive balances and what it leaves.
  abbrev pub IsSplit : D → YearMap D → YearMap D → YearMap D → Type 0
  IsSplit budget m used left =
      (sum used ⊕ sum left ≈ sum m)
      × (sum used ≼ budget)
      × ((sum used ≈ budget) ⊎ (left ≡ []))
      × Positive used
      × Positive left

  used_of-IsSplit :
      (budget : D) (m : YearMap D)
      → nought ≼ budget
      → Positive m
      → IsSplit budget m (used_of budget m) (left_of budget m)
  unfolding used_of left_of sum
  used_of-IsSplit budget [] b p =
      (omega (arith, d.add_parts nought nought, nought_parts d), omega arith, inr refl, tt, tt)
  used_of-IsSplit budget ((k, v) ∷ m) b p = ground (
    arith,
    nought_parts d,
    d.sub_parts budget v,
    d.sub_parts v budget,
    d.add_parts v (sum m),
    d.add_parts nought (v ⊕ sum m),
    d.add_parts v (sum (used_of (budget ⊖ v) m)),
    d.add_parts (sum (used_of (budget ⊖ v) m)) (sum (left_of (budget ⊖ v) m)),
    d.add_parts (v ⊕ sum (used_of (budget ⊖ v) m)) (sum (left_of (budget ⊖ v) m)),
    d.add_parts budget nought,
    d.add_parts (v ⊖ budget) (sum m),
    d.add_parts (budget ⊕ nought) ((v ⊖ budget) ⊕ sum m),
    used_of-IsSplit (budget ⊖ v) m,
  )

  pub budget_of_nonneg : (amount : D) (cap : Option D) → nought ≼ budget_of amount cap
  unfolding budget_of
  budget_of_nonneg amount none = ground arith
  budget_of_nonneg amount (some cap) = ground arith

  -- The offset `a` leaves `after` of the ledger: it is what was taken, within the budget; it uses
  -- the whole budget or empties the ledger; and it reports itself by year.
  pub record Applies (ledger : LossLedger D) (budget : D) (a : LedgerApplication D)
      (after : LossLedger D) : Type 0 where
    pub conserved : a.used_total ⊕ total after ≈ total ledger
    pub used_nonneg : nought ≼ a.used_total
    pub within : a.used_total ≼ budget
    pub greedy : (a.used_total ≈ budget) ⊎ (after.balances ≡ [])
    pub by_year : sum a.used_by_year ≈ a.used_total
    pub years_Positive : Positive a.used_by_year
    pub after-IsValid : IsValid after
    pub years-Ascending : YearMap.Ascending a.used_by_year
    pub after-From : (k : ℤ) → YearMap.From k ledger.balances → YearMap.From k after.balances
    pub after-UpTo : (k : ℤ) → YearMap.UpTo k ledger.balances → YearMap.UpTo k after.balances

  pub applied-Applies :
      (ledger : LossLedger D) (budget : D)
      → IsValid ledger
      → nought ≼ budget
      → Applies ledger budget
          (applied budget ledger.balances)
          (record { balances = left_of budget ledger.balances })
  unfolding applied
  applied-Applies ledger budget v b =
      let m = ledger.balances in
      let used = used_of budget m in
      let left = left_of budget m in
      let split = used_of-IsSplit budget m b v.1 in
      let sum_used = sum_from-eq-add-sum nought used in
      let value : sum_from nought (YearMap.values used) ≈ sum used =
        omega (arith, sum_used, d.add_parts nought (sum used), nought_parts d) in
      let totals = total-eq-sum ledger in
      let rest = total-eq-sum (record { balances = left }) in
      record {
        conserved = omega (
          arith,
          value,
          totals,
          rest,
          split.0,
          d.add_parts (sum used) (sum left),
          d.add_parts (sum_from nought (YearMap.values used)) (total (record { balances = left })),
        );
        used_nonneg = omega (arith, value, sum_nonneg used split.3);
        within = omega (arith, value, split.1);
        greedy = elim split.2 [ inl e ↦ inl (omega (arith, value, e)) | inr e ↦ inr e ];
        by_year = omega (arith, value);
        years_Positive = split.3;
        after-IsValid = (left_of-Ascending budget m v.0, split.4);
        years-Ascending = used_of-Ascending budget m v.0;
        after-From = λ k. left_of-From k budget m;
        after-UpTo = λ k. left_of-UpTo k budget m;
      }

  -- On a valid ledger `apply` never panics. The total it reports is what the ledger has lost, and
  -- is neither negative nor above the budget, which is the amount, or the cap if that is less, or
  -- zero if one is negative. It uses the whole budget unless the ledger runs out, its report by year
  -- is positive and in order and adds up to its total, and the ledger stays valid, with no year
  -- outside of the range that its years had.
  pub apply-Applies :
      (ledger : LossLedger D) (amount : D) (cap : Option D)
      → IsValid ledger
      → (r : LedgerApplication D × LossLedger D) × (apply ledger amount cap ≡ some r)
        × Applies ledger (budget_of amount cap) r.0 r.1
  apply-Applies ledger amount cap v =
      let budget = budget_of amount cap in
      (
        (applied budget ledger.balances, record { balances = left_of budget ledger.balances }),
        apply-eq-applied ledger amount cap v.0,
        applied-Applies ledger budget v (budget_of_nonneg amount cap),
      )
