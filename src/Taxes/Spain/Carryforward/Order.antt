-- ===== src/Taxes/Spain/Carryforward/Order.antt =====
-- Taking from the oldest years keeps the order of the years and their range.
use investments.Base.{[], ◌∷◌, arith}
use investments.Base.Int.{ℤ}
use investments.Base.YearMap
use investments.Base.YearMap.{YearMap}
use investments.Base.Decimal.{Decimal, ◌⊖◌}
use investments.Taxes.Spain.Carryforward.Offset.{used_of, left_of}

module _ {D : Type 0} ⦃d : Decimal D⦄ where
  left_of-Above :
      (j : ℤ) (budget : D) (m : YearMap D)
      → YearMap.Above j m
      → YearMap.Ascending m
      → YearMap.Above j (left_of budget m)
  unfolding left_of
  left_of-Above j budget [] h asc = tt
  left_of-Above j budget ((k, v) ∷ m) h asc =
      ground (arith, left_of-Above j (budget ⊖ v) m h.1 asc.1)

  pub left_of-Ascending :
      (budget : D) (m : YearMap D) → YearMap.Ascending m → YearMap.Ascending (left_of budget m)
  unfolding left_of
  left_of-Ascending budget [] asc = tt
  left_of-Ascending budget ((k, v) ∷ m) asc = ground (arith, left_of-Ascending (budget ⊖ v) m asc.1)

  used_of-Above :
      (j : ℤ) (budget : D) (m : YearMap D) → YearMap.Above j m → YearMap.Above j (used_of budget m)
  unfolding used_of
  used_of-Above j budget [] h = tt
  used_of-Above j budget ((k, v) ∷ m) h = ground (arith, used_of-Above j (budget ⊖ v) m h.1)

  pub used_of-Ascending :
      (budget : D) (m : YearMap D) → YearMap.Ascending m → YearMap.Ascending (used_of budget m)
  unfolding used_of
  used_of-Ascending budget [] asc = tt
  used_of-Ascending budget ((k, v) ∷ m) asc =
      ground (arith, used_of-Above k (budget ⊖ v) m asc.0, used_of-Ascending (budget ⊖ v) m asc.1)

  pub left_of-From :
      (k : ℤ) (budget : D) (m : YearMap D) → YearMap.From k m → YearMap.From k (left_of budget m)
  unfolding left_of
  left_of-From k budget [] h = tt
  left_of-From k budget ((j, v) ∷ m) h = ground (arith, left_of-From k (budget ⊖ v) m h.1)

  pub left_of-UpTo :
      (k : ℤ) (budget : D) (m : YearMap D) → YearMap.UpTo k m → YearMap.UpTo k (left_of budget m)
  unfolding left_of
  left_of-UpTo k budget [] h = tt
  left_of-UpTo k budget ((j, v) ∷ m) h = ground (arith, left_of-UpTo k (budget ⊖ v) m h.1)
