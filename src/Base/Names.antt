-- ===== src/Base/Names.antt =====
-- Names that are compared for equality, and hash maps keyed by them, as the list of their entries.
use Prim.Native.String.{String}
use mathlib.Core.Path.{◌≡◌, refl, sym, ap, ◌∙◌}
use mathlib.Core.Logic.{◌↔◌, inl, inr}
use mathlib.Core.Bool.{Bool, true, false}
use mathlib.Core.Option.{Option, none, some}
use mathlib.Core.List.{List, [], ◌∷◌}
use native.Mathlib.Omega.{arith}
use text.Mathlib.Text.{◌==◌ as same_text}
use text.Mathlib.TextEquality.{eq_iff}
use investments.Base.Tests.{if◌then◌else◌, Bool-cases}

pub record Names (S : Type 0) : Type 0 where
  pub same : S → S → Bool
  pub same_iff : (a b : S) → (same a b ≡ true) ↔ (a ≡ b)

instance abbrev pub strings : Names String
strings = record { same = same_text; same_iff = eq_iff }

module _ {S : Type 0} ⦃names : Names S⦄ where
  pub same_self : (a : S) → names.same a a ≡ true
  same_self a = (names.same_iff a a).1 refl

  pub same_congr : (a b c : S) → names.same a b ≡ true → names.same a c ≡ names.same b c
  same_congr a b c e = ap (λ (x : S). names.same x c) ((names.same_iff a b).0 e)

  -- Two names that differ are not both the third.
  pub same_apart :
      (a b c : S) → names.same a c ≡ true → names.same a b ≡ false → names.same b c ≡ false
  same_apart a b c e differ = elim (Bool-cases (names.same b c)) [
    | inl e' ↦
        let equal : a ≡ b = (names.same_iff a c).0 e ∙ sym ((names.same_iff b c).0 e') in
        let same : names.same a b ≡ true = (names.same_iff a b).1 equal in
        absurd (ground (arith, same, differ))
    | inr e' ↦ e'
  ]

abbrev pub value_or {ℓ} : {V : Type ℓ} → V → Option V → V
value_or default none = default
value_or default (some value) = value

module _ {ℓ} {S : Type 0} {V : Type ℓ} ⦃names : Names S⦄ where
  unfoldable pub get : List (S × V) → S → Option V
  get [] name = none
  get ((key, value) ∷ rest) name = if names.same key name then some value else get rest name

  -- The value of a name, or what `or_insert` and `or_default` put in.
  unfoldable pub get_or : V → List (S × V) → S → V
  unfolding get
  get_or default entries name = value_or default (get entries name)

  unfoldable pub insert : List (S × V) → S → V → List (S × V)
  insert [] name value = (name, value) ∷ []
  insert ((key, old) ∷ rest) name value =
      let rest' = insert rest name value in
      if names.same key name then (key, value) ∷ rest else (key, old) ∷ rest'

  pub get-insert :
      (entries : List (S × V)) (name other : S) (value : V)
      → get (insert entries name value) other
        ≡ (if names.same name other then some value else get entries other)
  unfolding get insert
  get-insert [] name other value = refl
  get-insert ((key, old) ∷ rest) name other value = ground (
    arith,
    get-insert rest name other value,
    same_congr key name other,
    same_apart key name other,
  )

  -- A name that is missing after an insertion is another one, and was missing before.
  pub get-insert-none :
      (entries : List (S × V)) (name other : S) (value : V)
      → get (insert entries name value) other ≡ none
      → (names.same name other ≡ false) × (get entries other ≡ none)
  get-insert-none entries name other value e =
      let put = get-insert entries name other value in
      elim (Bool-cases (names.same name other)) [
        | inl same ↦ absurd (ground (arith, put, same, e))
        | inr differ ↦ (differ, ground (arith, put, differ, e))
      ]

  pub get_or-insert :
      (default : V) (entries : List (S × V)) (name other : S) (value : V)
      → get_or default (insert entries name value) other
        ≡ (if names.same name other then value else get_or default entries other)
  unfolding get_or
  get_or-insert default entries name other value =
      ground (arith, ap (value_or default) (get-insert entries name other value))

  pub get_or-none :
      (default : V) (entries : List (S × V)) (name : S)
      → get entries name ≡ none
      → get_or default entries name ≡ default
  unfolding get_or
  get_or-none default entries name e = ap (value_or default) e
