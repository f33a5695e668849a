-- ===== src/Base/YearMap/Defs.antt =====
-- The operations of `std::collections::BTreeMap` that the program uses on years.
use investments.Base.Tests.{if◌then◌else◌}
use investments.Base.Int.{ℤ, ltb_ℤ, eqb_ℤ}
use mathlib.Core.Bool.{Bool}
use mathlib.Core.Option.{Option, none, some}
use mathlib.Core.List.{List, [], ◌∷◌}

abbrev pub YearMap {ℓ} : Type ℓ → Type ℓ
YearMap V = List (ℤ × V)

module _ {ℓ} {V : Type ℓ} where
  abbrev pub get : ℤ → YearMap V → Option V
  get k [] = none
  get k ((j, v) ∷ m) = if eqb_ℤ k j then some v else get k m

  abbrev pub get_or : YearMap V → ℤ → V → V
  get_or m k default = elim (get k m) [ none ↦ default | some v ↦ v ]

  abbrev pub insert : ℤ → V → YearMap V → YearMap V
  insert k v [] = (k, v) ∷ []
  insert k v ((j, w) ∷ m) =
      let rest = insert k v m in
      if ltb_ℤ k j then (k, v) ∷ (j, w) ∷ m else (if eqb_ℤ k j then (k, v) ∷ m else (j, w) ∷ rest)

  abbrev pub remove : ℤ → YearMap V → YearMap V
  remove k [] = []
  remove k ((j, w) ∷ m) = let rest = remove k m in if eqb_ℤ k j then m else (j, w) ∷ rest

  abbrev pub retain : (ℤ → Bool) → YearMap V → YearMap V
  retain keep [] = []
  retain keep ((j, w) ∷ m) = let rest = retain keep m in if keep j then (j, w) ∷ rest else rest

  abbrev pub keys : YearMap V → List ℤ
  keys [] = []
  keys ((j, _) ∷ m) = j ∷ keys m

  abbrev pub values : YearMap V → List V
  values [] = []
  values ((_, w) ∷ m) = w ∷ values m
