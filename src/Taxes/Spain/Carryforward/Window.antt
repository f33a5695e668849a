-- ===== src/Taxes/Spain/Carryforward/Window.antt =====
-- The four-year window: what `from_config` accepts, and that the ledger which a return leaves is
-- accepted by the next one.
use investments.Base.{
  ◌≡◌, refl, ◌↔◌, [], ◌∷◌, ◌++◌, arith, if◌then◌else◌, ok, Result-cases, inl, inr,
}
use investments.Base.Int.{ℤ, pos, ◌+ℤ◌, ◌-ℤ◌, ◌<ℤ◌, ◌≤ℤ◌, +ℤ_parts, -ℤ_parts}
use investments.Base.YearMap
use investments.Base.YearMap.{YearMap}
use investments.Base.Decimal.{Decimal, nought, ◌≼◌, ltd}
use mathlib.Core.List.{append-nil, append_assoc}
use investments.Taxes.Spain.Carryforward.{
  LossLedger, config_entries, from_config, drop_expired, carryforward_years,
}
use investments.Taxes.Spain.Carryforward.Conservation.{Positive, IsValid}

module _ {D : Type 0} ⦃d : Decimal D⦄ where
  -- A loss that the return of `filing_year` may still use.
  abbrev pub IsUsable : ℤ → ℤ → D → Type 0
  IsUsable filing_year origin amount =
      (nought ≼ amount) × (origin <ℤ filing_year) × (filing_year -ℤ carryforward_years ≤ℤ origin)

  abbrev pub AllUsable : ℤ → YearMap D → Type 0
  AllUsable filing_year [] = Unit
  AllUsable filing_year ((origin, amount) ∷ m) =
      IsUsable filing_year origin amount × AllUsable filing_year m

  -- The entries that are not zero.
  pub positives : YearMap D → YearMap D
  positives [] = []
  positives ((k, v) ∷ m) = let rest = positives m in if ltd nought v then (k, v) ∷ rest else rest

  positives_self : (m : YearMap D) → Positive m → positives m ≡ m
  unfolding positives
  positives_self [] p = refl
  positives_self ((k, v) ∷ m) p = ground (arith, positives_self m p.1)

  config_entries_usable :
      (filing_year : ℤ) (m acc : YearMap D)
      → YearMap.Ascending m
      → YearMap.Precedes acc m
      → AllUsable filing_year m
      → config_entries filing_year m acc ≡ ok (acc ++ positives m)
  unfolding config_entries positives
  config_entries_usable fy [] acc asc pre u = rw (append-nil acc) refl
  config_entries_usable fy ((k, v) ∷ m) acc asc pre u = ground (
    arith,
    YearMap.insert-Below k v acc pre.0,
    append_assoc acc ((k, v) ∷ []) (positives m),
    config_entries_usable fy m (acc ++ ((k, v) ∷ [])) asc.1
        (YearMap.Precedes-append k v acc m asc.0 pre.1) u.1,
    config_entries_usable fy m acc asc.1 pre.1 u.1,
  )

  config_entries-AllUsable :
      (filing_year : ℤ) (m acc r : YearMap D)
      → config_entries filing_year m acc ≡ ok r
      → AllUsable filing_year m
  unfolding config_entries
  config_entries-AllUsable fy [] acc r e = tt
  config_entries-AllUsable fy ((k, v) ∷ m) acc r e = ground (
    arith,
    config_entries-AllUsable fy m (if ltd nought v then YearMap.insert k v acc else acc) r,
  )

  -- A configured map, its years in ascending order, is accepted exactly when each of its amounts is not negative and each of its
  -- years is one of the four before the filing year.
  pub from_config_iff :
      (balances : YearMap D) (filing_year : ℤ)
      → YearMap.Ascending balances
      → ((ledger : LossLedger D) × (from_config balances filing_year ≡ ok ledger))
        ↔ AllUsable filing_year balances
  unfolding from_config
  from_config_iff balances fy asc = (
    λ h. elim (Result-cases (config_entries fy balances [])) [
      | inl (m, e) ↦ config_entries-AllUsable fy balances [] m e
      | inr (x, e) ↦ absurd (ground (arith, e, h.1))
    ],
    λ u. (
      record { balances = positives balances },
      ground (arith, config_entries_usable fy balances [] asc (YearMap.Precedes-nil balances) u),
    ),
  )

  positives-Above : (j : ℤ) (m : YearMap D) → YearMap.Above j m → YearMap.Above j (positives m)
  unfolding positives
  positives-Above j [] h = tt
  positives-Above j ((k, v) ∷ m) h = ground (arith, positives-Above j m h.1)

  positives-IsValid :
      (m : YearMap D)
      → YearMap.Ascending m
      → YearMap.Ascending (positives m) × Positive (positives m)
  unfolding positives
  positives-IsValid [] asc = (tt, tt)
  positives-IsValid ((k, v) ∷ m) asc =
      ground (arith, positives-Above k m asc.0, positives-IsValid m asc.1)

  -- The ledger that is built is valid and holds the entries that are not zero.
  pub from_config-IsValid :
      (balances : YearMap D) (filing_year : ℤ) {ledger : LossLedger D}
      → YearMap.Ascending balances
      → from_config balances filing_year ≡ ok ledger
      → IsValid ledger × (ledger.balances ≡ positives balances)
  unfolding from_config
  from_config-IsValid balances fy asc e =
      let u = (from_config_iff balances fy asc).0 (_, unfold from_config in e) in
      let valid = positives-IsValid balances asc in
      ground (arith, config_entries_usable fy balances [] asc (YearMap.Precedes-nil balances) u)

  AllUsable-drop_expired :
      (filing_year : ℤ) (m : YearMap D)
      → Positive m
      → YearMap.UpTo filing_year m
      → let kept = (drop_expired (record { balances = m }) filing_year).balances in
        AllUsable (filing_year +ℤ pos 1) kept × Positive kept
  unfolding drop_expired
  AllUsable-drop_expired fy [] p w = (tt, tt)
  AllUsable-drop_expired fy ((k, v) ∷ m) p w = ground (
    arith,
    AllUsable-drop_expired fy m p.1 w.1,
    +ℤ_parts fy (pos 1),
    -ℤ_parts fy (pos 4),
    -ℤ_parts (fy +ℤ pos 1) (pos 4),
  )

  -- A valid ledger with no year after the filing year is accepted as it is by the next return, once
  -- the expired years are dropped.
  pub from_config-drop_expired :
      (ledger : LossLedger D) (filing_year : ℤ)
      → IsValid ledger
      → YearMap.UpTo filing_year ledger.balances
      → let next = drop_expired ledger filing_year in
        from_config next.balances (filing_year +ℤ pos 1) ≡ ok next
  unfolding from_config
  from_config-drop_expired ledger fy v w =
      let next = drop_expired ledger fy in
      let (usable, p) = AllUsable-drop_expired fy ledger.balances v.1 w in
      let asc : YearMap.Ascending next.balances =
        unfold drop_expired in YearMap.Ascending-retain _ ledger.balances v.0 in
      ground (
        arith,
        positives_self next.balances p,
        config_entries_usable (fy +ℤ pos 1) next.balances [] asc
            (YearMap.Precedes-nil next.balances) usable,
      )
