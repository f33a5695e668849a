-- ===== src/Taxes/Spain/Coefficients/Lookup.antt =====
-- Which coefficient is found, and its bounds.
use investments.Base.{
  ◌≡◌, refl, subst, ◌↔◌, ◌⊎◌, inl, inr, ◌≤◌, true, false, ℕ, none, some, List, [], ◌∷◌, ok, err,
  All, arith, if◌then◌else◌, Bool-cases, Option-cases, Result-cases,
}
use investments.Base.Int.{ℤ, pos, ltb_ℤ, leb_ℤ, eqb_ℤ, ◌≤ℤ◌, ◌<ℤ◌}
use investments.Base.YearMap
use investments.Base.YearMap.{YearMap}
use investments.Base.Decimal.{Decimal, nought, dec, ◌≼◌, ◌≺◌, nought_parts}
use investments.Taxes.Spain.Coefficients.{
  AcquisitionDate, CoefficientError, acquired_after_disposal, no_table, coefficients_2024,
  coefficients_2025, coefficients_2026, shipped_table, last_row, row_of, shipped, effective_year,
  max_coefficient, validate_table, validate_overrides, overridden, gipuzkoa_coefficient,
}

abbrev Within : ℕ → Type 0
Within thousandths = (1_000 ≤ thousandths) × (thousandths ≤ 10_000)

last_row-Within :
    (rows : List (ℤ × ℕ)) (year : ℤ) (row : ℕ)
    → All (λ r. Within r.1) rows
    → Within row
    → Within (last_row rows year row)
unfolding last_row
last_row-Within [] year row all h = h
last_row-Within ((key, coefficient) ∷ rest) year row (h', all) h =
    last_row-Within rest year (if leb_ℤ key year then coefficient else row) all
      (ground (arith, h, h'))

coefficients_2024-Within : All (λ r. Within r.1) coefficients_2024
unfolding coefficients_2024
coefficients_2024-Within = omega arith

coefficients_2025-Within : All (λ r. Within r.1) coefficients_2025
unfolding coefficients_2025
coefficients_2025-Within = omega arith

coefficients_2026-Within : All (λ r. Within r.1) coefficients_2026
unfolding coefficients_2026
coefficients_2026-Within = omega arith

-- A table is shipped for each of the three years, and its rows lie between 1 and 10.
shipped-Within :
    (disposal_year acquisition_year : ℤ)
    → (pos 2024 ≤ℤ disposal_year) × (disposal_year ≤ℤ pos 2026)
    → (row : ℕ) × (shipped disposal_year acquisition_year ≡ some row) × Within row
unfolding shipped shipped_table row_of coefficients_2024 coefficients_2025 coefficients_2026
shipped-Within disposal_year year h =
    let opened : (table : List (ℤ × ℕ))
        → shipped_table disposal_year ≡ some table
        → shipped disposal_year year ≡ row_of table year =
      λ table e. rw (shipped, e) refl in
    elim (Bool-cases (eqb_ℤ disposal_year (pos 2024))) [
      | inl e ↦ (
        _,
        opened coefficients_2024 (ground (arith, e)),
        last_row-Within coefficients_2024 year 1_945 coefficients_2024-Within (omega arith),
      )
      | inr e ↦ elim (Bool-cases (eqb_ℤ disposal_year (pos 2025))) [
        | inl e' ↦ (
          _,
          opened coefficients_2025 (ground (arith, e, e')),
          last_row-Within coefficients_2025 year 1_969 coefficients_2025-Within (omega arith),
        )
        | inr e' ↦ (
          _,
          opened coefficients_2026 (ground (arith, e, e', h)),
          last_row-Within coefficients_2026 year 2_030 coefficients_2026-Within (omega arith),
        )
      ]
    ]

not_shipped :
    (disposal_year acquisition_year : ℤ)
    → (disposal_year ≤ℤ pos 2023) ⊎ (pos 2027 ≤ℤ disposal_year)
    → shipped disposal_year acquisition_year ≡ none
unfolding shipped shipped_table
not_shipped disposal_year year h = ground (arith, h)

module _ {D : Type 0} ⦃d : Decimal D⦄ where
  abbrev Plausible : D → Type 0
  Plausible coefficient = (nought ≺ coefficient) × (coefficient ≼ dec 10 0)

  validate_table-get :
      (disposal_year year : ℤ) (table : YearMap D) (coefficient : D)
      → validate_table disposal_year table ≡ ok tt
      → YearMap.get year table ≡ some coefficient
      → Plausible coefficient
  unfolding validate_table max_coefficient
  validate_table-get dy year [] c v e = absurd (ground (arith, e))
  validate_table-get dy year ((key, x) ∷ table) c v e =
      let here : Plausible x = ground (arith, v) in
      let rest : validate_table dy table ≡ ok tt = ground (arith, v) in
      elim (Bool-cases (eqb_ℤ year key)) [
        | inl same ↦
            let found : x ≡ c = ground (arith, same, e) in subst (λ (y : D). Plausible y) found here
        | inr other ↦ validate_table-get dy year table c rest (ground (arith, other, e))
      ]

  validate_overrides-get :
      (disposal_year : ℤ) (overrides : YearMap (YearMap D)) (table : YearMap D)
      → validate_overrides overrides ≡ ok tt
      → YearMap.get disposal_year overrides ≡ some table
      → (key : ℤ) × (validate_table key table ≡ ok tt)
  unfolding validate_overrides
  validate_overrides-get dy [] table v e = absurd (ground (arith, e))
  validate_overrides-get dy ((key, x) ∷ overrides) table v e =
      elim (Result-cases (validate_table key x)) [
        | inl (_, fine) ↦ elim (Bool-cases (eqb_ℤ dy key)) [
          | inl same ↦
              let found : x ≡ table = ground (arith, same, e) in
              (key, subst (λ (y : YearMap D). validate_table key y ≡ ok tt) found fine)
          | inr other ↦
              validate_overrides-get dy overrides table (ground (arith, fine, v))
                (ground (arith, other, e))
        ]
        | inr (cause, refused) ↦ absurd (ground (arith, refused, v))
      ]

  overridden-Plausible :
      (disposal_year year : ℤ) (overrides : YearMap (YearMap D)) (coefficient : D)
      → validate_overrides overrides ≡ ok tt
      → overridden disposal_year year overrides ≡ some coefficient
      → Plausible coefficient
  unfolding overridden
  overridden-Plausible dy year overrides c v e = elim (Option-cases (YearMap.get dy overrides)) [
    | inl missing ↦ absurd (ground (arith, missing, e))
    | inr (table, found) ↦
        let valid = validate_overrides-get dy overrides table v found in
        validate_table-get valid.0 year table c valid.1 (ground (arith, found, e))
  ]

  -- With overrides that were accepted, a coefficient is found for every acquisition not after the
  -- disposal, if the disposal year is one of the three with a shipped table, and what is found is
  -- greater than zero and at most ten.
  pub gipuzkoa_coefficient_bounds :
      (disposal_year : ℤ) (date : AcquisitionDate) (overrides : YearMap (YearMap D))
      → validate_overrides overrides ≡ ok tt
      → effective_year date ≤ℤ disposal_year
      → (pos 2024 ≤ℤ disposal_year) × (disposal_year ≤ℤ pos 2026)
      → (coefficient : D) × (gipuzkoa_coefficient disposal_year date overrides ≡ ok coefficient)
        × (nought ≺ coefficient)
        × (coefficient ≼ dec 10 0)
  unfolding gipuzkoa_coefficient
  gipuzkoa_coefficient_bounds dy date overrides v le h =
      let year = effective_year date in
      let in_time : ltb_ℤ dy year ≡ false = ground (arith, le) in
      elim (Option-cases (overridden dy year overrides)) [
        | inl e ↦
            let (row, found, (low, high)) = shipped-Within dy year h in
            (
              dec row 3,
              rw in_time (rw e (rw found refl)),
              omega (arith, low, nought_parts d, d.dec_parts row 3 (omega arith)),
              omega (arith, high, d.dec_parts row 3 (omega arith), d.dec_parts 10 0 (omega arith)),
            )
        | inr (c, e) ↦
            let (low, high) : Plausible c = overridden-Plausible dy year overrides c v e in
            (c, rw in_time (rw e refl), low, high)
      ]

  -- The coefficient is refused exactly when the acquisition lies after the disposal, or when the
  -- year has neither a shipped table nor an override for the acquisition.
  pub gipuzkoa_coefficient_iff :
      (disposal_year : ℤ) (date : AcquisitionDate) (overrides : YearMap (YearMap D))
      → ((e : CoefficientError) × (gipuzkoa_coefficient disposal_year date overrides ≡ err e)) ↔ (
          (disposal_year <ℤ effective_year date)
          ⊎ (((disposal_year ≤ℤ pos 2023) ⊎ (pos 2027 ≤ℤ disposal_year))
              × (overridden disposal_year (effective_year date) overrides ≡ none)))
  unfolding gipuzkoa_coefficient
  gipuzkoa_coefficient_iff dy date overrides =
      let year = effective_year date in
      (
        λ refused. elim (Bool-cases (ltb_ℤ dy year)) [
          | inl late ↦ inl (ground (arith, late))
          | inr in_time ↦ elim (Option-cases (overridden dy year overrides)) [
            | inr (c, e) ↦ absurd (ground (arith, in_time, e, refused.1))
            | inl e ↦ elim (Bool-cases (ltb_ℤ dy (pos 2024))) [
              | inl early ↦ inr (inl (ground (arith, early)), e)
              | inr from ↦ elim (Bool-cases (ltb_ℤ (pos 2026) dy)) [
                | inl later ↦ inr (inr (ground (arith, later)), e)
                | inr until ↦
                    let row = shipped-Within dy year (ground (arith, from, until)) in
                    absurd (ground (arith, in_time, e, row.1, refused.1))
              ]
            ]
          ]
        ],
        λ reason. elim reason [
          | inl late ↦
              let test : ltb_ℤ dy year ≡ true = ground (arith, late) in
              (acquired_after_disposal dy year, rw test refl)
          | inr (outside, e) ↦ elim (Bool-cases (ltb_ℤ dy year)) [
            | inl late ↦ (acquired_after_disposal dy year, rw late refl)
            | inr in_time ↦
                (no_table dy year, rw in_time (rw e (rw (not_shipped dy year outside) refl)))
          ]
        ],
      )
