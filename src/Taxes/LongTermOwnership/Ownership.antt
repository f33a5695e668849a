-- ===== src/Taxes/LongTermOwnership/Ownership.antt =====
-- The years of an ownership, and the shares that the exemption applies to.
use investments.Base.{
  String, ◌≡◌, refl, ◌↔◌, ap, inl, inr, ℕ, suc, Bool, true, false, not, ◌&&◌, ◌||◌, Option, none,
  some, List, [], ◌∷◌, if◌then◌else◌, ltb, leb, ◌==◌, Bool-cases, arith,
}
use investments.Base.Int.{
  ℤ, pos, negsuc, ◌+ℤ◌, ◌-ℤ◌, ◌≤ℤ◌, pos_part, neg_part, ltb_ℤ, eqb_ℤ, +ℤ_parts, -ℤ_parts,
}
use investments.Base.Names.{strings}
use investments.Taxes.LongTermOwnership.{
  Date, before, cast_u32, is_incomplete, calculate_ownership_years, same_prefix, is_applicable,
}

-- An integer that is not negative is a number.
number_of : (z : ℤ) → pos 0 ≤ℤ z → (n : ℕ) × (z ≡ pos n) × (pos_part z ≡ n) × (neg_part z ≡ 0)
number_of (pos n) h = (n, refl, refl, refl)
number_of (negsuc n) h = absurd (omega arith)

module _ (succ : Date → Date) where
  -- Whether the anniversary of a purchase has come: its month is past, or it is the month and
  -- either its day has come or the month ends.
  unfoldable pub has_come : Date → ℕ → Date → Bool
  has_come buy_date years sell_date =
      let year = buy_date.year +ℤ pos years in
      ltb_ℤ year sell_date.year
      || (eqb_ℤ year sell_date.year
          && (ltb buy_date.month sell_date.month
              || ((buy_date.month == sell_date.month)
                  && (leb buy_date.day sell_date.day
                      || not ((succ sell_date).month == sell_date.month)))))

  -- For a sale on the day of the purchase or later, the years of the ownership are a number: the
  -- anniversary of that many years has come, and the next one has not.
  pub calculate_ownership_years_lem :
      (buy_date sell_date : Date)
      → before sell_date buy_date ≡ false
      → (years : ℕ) × (calculate_ownership_years succ buy_date sell_date ≡ some years)
        × (has_come buy_date years sell_date ≡ true)
        × (has_come buy_date (suc years) sell_date ≡ false)
  unfolding calculate_ownership_years has_come before is_incomplete
  calculate_ownership_years_lem buy_date sell_date later =
      let years = sell_date.year -ℤ buy_date.year in
      let parts = -ℤ_parts sell_date.year buy_date.year in
      elim (Bool-cases (is_incomplete succ buy_date sell_date)) [
        | inl e ↦
            let parts' = -ℤ_parts years (pos 1) in
            let (n, same, value, zero_part) =
              number_of (years -ℤ pos 1) (ground (arith, e, later, parts, parts')) in
            (
              n,
              rw (later, e) (ap cast_u32 same),
              ground (
                arith,
                e,
                later,
                parts,
                parts',
                value,
                zero_part,
                +ℤ_parts buy_date.year (pos n),
              ),
              ground (
                arith,
                e,
                later,
                parts,
                parts',
                value,
                zero_part,
                +ℤ_parts buy_date.year (pos (suc n)),
              ),
            )
        | inr e ↦
            let (n, same, value, zero_part) = number_of years (ground (arith, e, later, parts)) in
            (
              n,
              rw (later, e) (ap cast_u32 same),
              ground (arith, e, later, parts, value, zero_part, +ℤ_parts buy_date.year (pos n)),
              ground
                  (arith, e, later, parts, value, zero_part, +ℤ_parts buy_date.year (pos (suc n))),
            )
      ]

-- The first ISIN decides, and the rest must agree with it.
first_and_rest :
    (russian' russian : Bool) (every : Bool → Bool) (found : Option Bool)
    → found ≡ (if every russian' then some russian' else none)
    → (found ≡ some russian)
      ↔ ((if russian then russian' else not russian') && every russian ≡ true)
first_and_rest true true every found e = elim (Bool-cases (every true)) [
  | inl h ↦ ground (arith, e, h)
  | inr h ↦ ground (arith, e, h)
]
first_and_rest true false every found e = elim (Bool-cases (every true)) [
  | inl h ↦ ground (arith, e, h)
  | inr h ↦ ground (arith, e, h)
]
first_and_rest false true every found e = elim (Bool-cases (every false)) [
  | inl h ↦ ground (arith, e, h)
  | inr h ↦ ground (arith, e, h)
]
first_and_rest false false every found e = elim (Bool-cases (every false)) [
  | inl h ↦ ground (arith, e, h)
  | inr h ↦ ground (arith, e, h)
]

module _ {Isin : Type 0} (prefix : Isin → String) where
  -- Whether every ISIN is of Russia, or none is.
  unfoldable pub all_are : Bool → List Isin → Bool
  all_are russian [] = true
  all_are russian (isin ∷ isins) =
      (if russian then strings.same (prefix isin) "RU" else not (strings.same (prefix isin) "RU"))
      && all_are russian isins

  same_prefix-some :
      (isins : List Isin) (russian : Bool)
      → same_prefix prefix isins (some russian)
        ≡ (if all_are russian isins then some russian else none)
  unfolding same_prefix all_are
  same_prefix-some [] russian = refl
  same_prefix-some (isin ∷ isins) true = elim (Bool-cases (strings.same (prefix isin) "RU")) [
    | inl e ↦ rw e (same_prefix-some isins true)
    | inr e ↦ rw e refl
  ]
  same_prefix-some (isin ∷ isins) false = elim (Bool-cases (strings.same (prefix isin) "RU")) [
    | inl e ↦ rw e refl
    | inr e ↦ rw e (same_prefix-some isins false)
  ]

  -- Of a sale in 2024 or later, and shares with an ISIN: the exemption is said to apply exactly
  -- when every ISIN is of Russia, and not to apply exactly when none is, in whatever order the
  -- ISINs come.
  pub is_applicable_iff :
      (isin : Isin) (isins : List Isin) (sell_date : Date) (russian : Bool)
      → pos 2024 ≤ℤ sell_date.year
      → (is_applicable prefix (isin ∷ isins) sell_date ≡ some russian)
        ↔ (all_are russian (isin ∷ isins) ≡ true)
  unfolding is_applicable same_prefix all_are
  is_applicable_iff isin isins sell_date russian late =
      let late' : ltb_ℤ sell_date.year (pos 2024) ≡ false = ground (arith, late) in
      let russian' = strings.same (prefix isin) "RU" in
      rw late' (
        first_and_rest russian' russian (λ r. all_are r isins)
          (same_prefix prefix isins (some russian')) (same_prefix-some isins russian'))
