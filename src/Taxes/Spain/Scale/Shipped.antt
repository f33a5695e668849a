-- ===== src/Taxes/Spain/Scale/Shipped.antt =====
-- The bracket tables that the program ships, src/taxes/spain/scale.rs.
use investments.Base.{◌≡◌, refl, Bool-cases, inl, inr, ◌↔◌, ◌≤◌, ◌<◌, ℕ, arith, ok}
use investments.Base.Int.{ℤ, pos, eqb_ℤ, ◌≤ℤ◌}
use investments.Base.Decimal.{Decimal, dec, ◌≺◌, ◌≼◌, nought, nought_parts}
use investments.Taxes.Spain.Scale.{
  SpanishTaxRegime, SavingsScale, for_year, gipuzkoa_2024, gipuzkoa_2026, comun_2024, comun_2025,
  navarra_2024,
}
use investments.Taxes.Spain.Scale.Slices.{IsScale}

module _ (D : Type 0) ⦃d : Decimal D⦄ where
  below : (m n : ℕ) → m < n → ◌≺◌ {D = D} (dec m 0) (dec n 0)
  below m n h = omega (arith, d.dec_parts m 0 (omega arith), d.dec_parts n 0 (omega arith))

  share :
      (rate : ℕ)
      → rate ≤ 1_000
      → (◌≼◌ {D = D} nought (dec rate 3)) × (◌≼◌ {D = D} (dec rate 3) (dec 1 0))
  share rate h =
      omega (arith, nought_parts d, d.dec_parts rate 3 (omega arith), d.dec_parts 1 0 (omega arith))

  pub gipuzkoa_2024-IsScale : IsScale {D = D} gipuzkoa_2024
  unfolding gipuzkoa_2024
  gipuzkoa_2024-IsScale = (
    refl,
    (
      below 0 2_500 (omega arith),
      (
        below 2_500 10_000 (omega arith),
        (below 10_000 15_000 (omega arith), (below 15_000 30_000 (omega arith), tt)),
      ),
    ),
    (
      (share 200 (omega arith)).0,
      (share 200 (omega arith)).1,
      (
        (share 210 (omega arith)).0,
        (share 210 (omega arith)).1,
        (
          (share 220 (omega arith)).0,
          (share 220 (omega arith)).1,
          (
            (share 230 (omega arith)).0,
            (share 230 (omega arith)).1,
            ((share 250 (omega arith)).0, (share 250 (omega arith)).1, tt),
          ),
        ),
      ),
    ),
  )

  gipuzkoa_2026-IsScale : IsScale {D = D} gipuzkoa_2026
  unfolding gipuzkoa_2026
  gipuzkoa_2026-IsScale = (
    refl,
    (
      below 0 7_500 (omega arith),
      (
        below 7_500 15_000 (omega arith),
        (
          below 15_000 30_000 (omega arith),
          (
            below 30_000 50_000 (omega arith),
            (
              below 50_000 90_000 (omega arith),
              (
                below 90_000 120_000 (omega arith),
                (below 120_000 240_000 (omega arith), (below 240_000 300_000 (omega arith), tt)),
              ),
            ),
          ),
        ),
      ),
    ),
    (
      (share 190 (omega arith)).0,
      (share 190 (omega arith)).1,
      (
        (share 200 (omega arith)).0,
        (share 200 (omega arith)).1,
        (
          (share 220 (omega arith)).0,
          (share 220 (omega arith)).1,
          (
            (share 240 (omega arith)).0,
            (share 240 (omega arith)).1,
            (
              (share 255 (omega arith)).0,
              (share 255 (omega arith)).1,
              (
                (share 260 (omega arith)).0,
                (share 260 (omega arith)).1,
                (
                  (share 265 (omega arith)).0,
                  (share 265 (omega arith)).1,
                  (
                    (share 270 (omega arith)).0,
                    (share 270 (omega arith)).1,
                    ((share 280 (omega arith)).0, (share 280 (omega arith)).1, tt),
                  ),
                ),
              ),
            ),
          ),
        ),
      ),
    ),
  )

  comun_2024-IsScale : IsScale {D = D} comun_2024
  unfolding comun_2024
  comun_2024-IsScale = (
    refl,
    (
      below 0 6_000 (omega arith),
      (
        below 6_000 50_000 (omega arith),
        (below 50_000 200_000 (omega arith), (below 200_000 300_000 (omega arith), tt)),
      ),
    ),
    (
      (share 190 (omega arith)).0,
      (share 190 (omega arith)).1,
      (
        (share 210 (omega arith)).0,
        (share 210 (omega arith)).1,
        (
          (share 230 (omega arith)).0,
          (share 230 (omega arith)).1,
          (
            (share 270 (omega arith)).0,
            (share 270 (omega arith)).1,
            ((share 280 (omega arith)).0, (share 280 (omega arith)).1, tt),
          ),
        ),
      ),
    ),
  )

  comun_2025-IsScale : IsScale {D = D} comun_2025
  unfolding comun_2025
  comun_2025-IsScale = (
    refl,
    (
      below 0 6_000 (omega arith),
      (
        below 6_000 50_000 (omega arith),
        (below 50_000 200_000 (omega arith), (below 200_000 300_000 (omega arith), tt)),
      ),
    ),
    (
      (share 190 (omega arith)).0,
      (share 190 (omega arith)).1,
      (
        (share 210 (omega arith)).0,
        (share 210 (omega arith)).1,
        (
          (share 230 (omega arith)).0,
          (share 230 (omega arith)).1,
          (
            (share 270 (omega arith)).0,
            (share 270 (omega arith)).1,
            ((share 300 (omega arith)).0, (share 300 (omega arith)).1, tt),
          ),
        ),
      ),
    ),
  )

  navarra_2024-IsScale : IsScale {D = D} navarra_2024
  unfolding navarra_2024
  navarra_2024-IsScale = (
    refl,
    (
      below 0 6_000 (omega arith),
      (
        below 6_000 10_000 (omega arith),
        (
          below 10_000 15_000 (omega arith),
          (below 15_000 200_000 (omega arith), (below 200_000 300_000 (omega arith), tt)),
        ),
      ),
    ),
    (
      (share 200 (omega arith)).0,
      (share 200 (omega arith)).1,
      (
        (share 220 (omega arith)).0,
        (share 220 (omega arith)).1,
        (
          (share 240 (omega arith)).0,
          (share 240 (omega arith)).1,
          (
            (share 260 (omega arith)).0,
            (share 260 (omega arith)).1,
            (
              (share 270 (omega arith)).0,
              (share 270 (omega arith)).1,
              ((share 280 (omega arith)).0, (share 280 (omega arith)).1, tt),
            ),
          ),
        ),
      ),
    ),
  )

  -- A scale is found exactly for the years 2024 to 2026, in each regime, and the floors of the
  -- scale found ascend from zero, with rates between zero and one.
  pub for_year-IsScale :
      (regime : SpanishTaxRegime) (year : ℤ)
      → ((scale : SavingsScale D) × (for_year regime year ≡ ok scale) × IsScale scale.brackets)
        ↔ ((pos 2024 ≤ℤ year) × (year ≤ℤ pos 2026))
  unfolding for_year
  for_year-IsScale SpanishTaxRegime.gipuzkoa year = (
    λ r. ground (arith, r.1),
    λ h. elim (Bool-cases (eqb_ℤ year (pos 2026))) [
      | inl last ↦
          (record { brackets = gipuzkoa_2026 }, ground (arith, last), gipuzkoa_2026-IsScale)
      | inr early ↦
          (record { brackets = gipuzkoa_2024 }, ground (arith, early), gipuzkoa_2024-IsScale)
    ],
  )
  for_year-IsScale SpanishTaxRegime.comun year = (
    λ r. ground (arith, r.1),
    λ h. elim (Bool-cases (eqb_ℤ year (pos 2024))) [
      | inl first ↦ (record { brackets = comun_2024 }, ground (arith, first), comun_2024-IsScale)
      | inr later ↦ (record { brackets = comun_2025 }, ground (arith, later), comun_2025-IsScale)
    ],
  )
  for_year-IsScale SpanishTaxRegime.navarra year = (
    λ r. ground (arith, r.1),
    λ h. (record { brackets = navarra_2024 }, ground arith, navarra_2024-IsScale),
  )
