-- ===== src/Base/YearMap/Sorted.antt =====
-- Maps whose keys ascend, which every `BTreeMap` does, and appending at the end of one.
use investments.Base.Int.{ℤ, ◌<ℤ◌, ◌≤ℤ◌}
use investments.Base.YearMap.Defs.{YearMap, get, insert, retain}
use mathlib.Core.Path.{◌≡◌, refl}
use mathlib.Core.Bool.{Bool}
use mathlib.Core.Option.{none}
use mathlib.Core.List.{[], ◌∷◌, ◌++◌}
use native.Mathlib.Omega.{arith}

module _ {ℓ} {V : Type ℓ} where
  -- Every key lies below `k`.
  abbrev pub Below : ℤ → YearMap V → Type 0
  Below k [] = Unit
  Below k ((j, _) ∷ m) = (j <ℤ k) × Below k m

  -- Every key lies above `k`.
  abbrev pub Above : ℤ → YearMap V → Type 0
  Above k [] = Unit
  Above k ((j, _) ∷ m) = (k <ℤ j) × Above k m

  abbrev pub Ascending : YearMap V → Type 0
  Ascending [] = Unit
  Ascending ((j, _) ∷ m) = Above j m × Ascending m

  -- A key above all others goes to the end.
  pub insert-Below : (k : ℤ) (v : V) (m : YearMap V) → Below k m → insert k v m ≡ m ++ ((k, v) ∷ [])
  insert-Below k v [] h = refl
  insert-Below k v ((j, w) ∷ m) h = ground (arith, insert-Below k v m h.1)

  pub Below-append : (k : ℤ) (xs ys : YearMap V) → Below k xs → Below k ys → Below k (xs ++ ys)
  Below-append k [] ys h g = g
  Below-append k ((j, w) ∷ xs) ys h g = (h.0, Below-append k xs ys h.1 g)

  pub Below-mono : (j k : ℤ) (m : YearMap V) → j ≤ℤ k → Below j m → Below k m
  Below-mono j k [] le h = tt
  Below-mono j k ((i, w) ∷ m) le h = (omega arith, Below-mono j k m le h.1)

  pub Above-mono : (j k : ℤ) (m : YearMap V) → j ≤ℤ k → Above k m → Above j m
  Above-mono j k [] le h = tt
  Above-mono j k ((i, w) ∷ m) le h = (omega arith, Above-mono j k m le h.1)

  pub Above-retain : (j : ℤ) (keep : ℤ → Bool) (m : YearMap V) → Above j m → Above j (retain keep m)
  Above-retain j keep [] h = tt
  Above-retain j keep ((i, w) ∷ m) h = ground (arith, Above-retain j keep m h.1)

  pub Ascending-retain : (keep : ℤ → Bool) (m : YearMap V) → Ascending m → Ascending (retain keep m)
  Ascending-retain keep [] h = tt
  Ascending-retain keep ((i, w) ∷ m) h =
      ground (arith, Above-retain i keep m h.0, Ascending-retain keep m h.1)

  pub Above-insert : (j k : ℤ) (v : V) (m : YearMap V) → j <ℤ k → Above j m → Above j (insert k v m)
  Above-insert j k v [] lt h = (lt, tt)
  Above-insert j k v ((i, w) ∷ m) lt h = ground (arith, Above-insert j k v m lt h.1)

  pub Ascending-insert : (k : ℤ) (v : V) (m : YearMap V) → Ascending m → Ascending (insert k v m)
  Ascending-insert k v [] h = (tt, tt)
  Ascending-insert k v ((i, w) ∷ m) h =
      grind (arith, Above-insert i k v m, Above-mono k i m, Ascending-insert k v m h.1)

  -- Every key of `m` lies above all keys of `used`.
  abbrev pub Precedes : YearMap V → YearMap V → Type 0
  Precedes used [] = Unit
  Precedes used ((k, _) ∷ m) = Below k used × Precedes used m

  pub Precedes-append :
      (k : ℤ) (v : V) (used m : YearMap V)
      → Above k m
      → Precedes used m
      → Precedes (used ++ ((k, v) ∷ [])) m
  Precedes-append k v used [] h p = tt
  Precedes-append k v used ((j, w) ∷ m) h p =
      (Below-append j used ((k, v) ∷ []) p.0 (h.0, tt), Precedes-append k v used m h.1 p.1)

  pub Precedes-nil : (m : YearMap V) → Precedes [] m
  Precedes-nil [] = tt
  Precedes-nil ((k, v) ∷ m) = (tt, Precedes-nil m)

  -- No key lies below `k`; none lies above it.
  abbrev pub From : ℤ → YearMap V → Type 0
  From k [] = Unit
  From k ((j, _) ∷ m) = (k ≤ℤ j) × From k m

  abbrev pub UpTo : ℤ → YearMap V → Type 0
  UpTo k [] = Unit
  UpTo k ((j, _) ∷ m) = (j ≤ℤ k) × UpTo k m

  pub get-Above : (k : ℤ) (m : YearMap V) → Above k m → get k m ≡ none
  get-Above k [] h = refl
  get-Above k ((j, w) ∷ m) h = ground (arith, get-Above k m h.1)

  pub From-insert : (k j : ℤ) (v : V) (m : YearMap V) → k ≤ℤ j → From k m → From k (insert j v m)
  From-insert k j v [] le h = (le, tt)
  From-insert k j v ((i, w) ∷ m) le h = ground (arith, From-insert k j v m le h.1)

  pub UpTo-insert : (k j : ℤ) (v : V) (m : YearMap V) → j ≤ℤ k → UpTo k m → UpTo k (insert j v m)
  UpTo-insert k j v [] le h = (le, tt)
  UpTo-insert k j v ((i, w) ∷ m) le h = ground (arith, UpTo-insert k j v m le h.1)
