-- ===== src/Base/Totals.antt =====
-- What a loop over a list keeps, and what it adds up.
use investments.Base.Lists.{All, each}
use investments.Base.Decimal.{Decimal, nought, ◌⊕◌, ◌≈◌, sum_from, nought_parts}
use mathlib.Core.Path.{◌≡◌, refl}
use mathlib.Core.List.{List, [], ◌∷◌, map}
use native.Mathlib.Omega.{arith}

-- A loop none of whose steps changes a value keeps it.
pub each-keeps :
    {S A V : Type 0} (step : S → A → S) (value : S → V)
    (keeps : (s : S) (entry : A) → value (step s entry) ≡ value s) (s : S) (entries : List A)
    → value (each step s entries) ≡ value s
each-keeps step value keeps s [] = refl
each-keeps step value keeps s (entry ∷ entries) =
    cc (each-keeps step value keeps (step s entry) entries, keeps s entry)

-- A loop whose steps all preserve a property preserves it.
pub each-preserves :
    {S A : Type 0} (step : S → A → S) (P : S → Type 0)
    (kept : (s : S) (entry : A) → P s → P (step s entry)) (s : S) (entries : List A)
    → P s
    → P (each step s entries)
each-preserves step P kept s [] p = p
each-preserves step P kept s (entry ∷ entries) p =
    each-preserves step P kept (step s entry) entries (kept s entry p)

pub every : {A : Type 0} (xs : List A) → All (λ (_ : A). Unit {0}) xs
every [] = tt
every (x ∷ xs) = (tt, every xs)

module _ {D : Type 0} ⦃d : Decimal D⦄ where
  -- The sum of an amount of each entry.
  unfoldable pub total : {A : Type 0} → (A → D) → List A → D
  total amount [] = nought
  total amount (entry ∷ entries) = amount entry ⊕ total amount entries

  -- A loop whose every step adds the amount of its entry adds the sum of the amounts.
  pub each-total :
      {S A : Type 0} (step : S → A → S) (value : S → D) (amount : A → D) (P : A → Type 0)
      (adds : (s : S) (entry : A) → P entry → value (step s entry) ≈ value s ⊕ amount entry) (s : S)
      (entries : List A)
      → All P entries
      → value (each step s entries) ≈ value s ⊕ total amount entries
  unfolding total
  each-total step value amount P adds s [] _ =
      omega (arith, nought_parts d, d.add_parts (value s) nought)
  each-total step value amount P adds s (entry ∷ entries) (p, all) = omega (
    arith,
    adds s entry p,
    each-total step value amount P adds (step s entry) entries all,
    d.add_parts (value s) (amount entry),
    d.add_parts (value (step s entry)) (total amount entries),
    d.add_parts (amount entry) (total amount entries),
    d.add_parts (value s) (amount entry ⊕ total amount entries),
  )

  -- `Iterator::sum`, as that sum.
  pub sum_from-total :
      {A : Type 0} (amount : A → D) (acc : D) (entries : List A)
      → sum_from acc (map amount entries) ≈ acc ⊕ total amount entries
  unfolding total
  sum_from-total amount acc [] = omega (arith, nought_parts d, d.add_parts acc nought)
  sum_from-total amount acc (entry ∷ entries) = omega (
    arith,
    sum_from-total amount (acc ⊕ amount entry) entries,
    d.add_parts acc (amount entry),
    d.add_parts (acc ⊕ amount entry) (total amount entries),
    d.add_parts (amount entry) (total amount entries),
    d.add_parts acc (amount entry ⊕ total amount entries),
  )
