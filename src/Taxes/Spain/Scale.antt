-- ===== src/Taxes/Spain/Scale.antt =====
-- The progressive scale of the savings base, src/taxes/spain/scale.rs.
pub mod Shipped
pub mod Slices
use investments.Base.{if◌then◌else◌, ℕ, List, [], ◌∷◌, Result, ok, err, ◌||◌, ◌&&◌}
use investments.Base.Int.{ℤ, pos, eqb_ℤ, leb_ℤ}
use investments.Base.Decimal.{Decimal, RoundingStrategy, nought, dec, ◌⊕◌, ◌⊖◌, ◌⊗◌, ◌⊘◌, min, led}

-- `SpanishTaxRegime` of src/taxes/spain/mod.rs.
pub data SpanishTaxRegime : Type 0 where
  gipuzkoa comun navarra : SpanishTaxRegime

pub record SavingsScale (D : Type 0) : Type 0 where
  pub brackets : List (D × D)

pub data ScaleError : Type 0 where
  unsupported_year : SpanishTaxRegime → ℤ → ScaleError

module _ {D : Type 0} ⦃d : Decimal D⦄ where
  -- A floor in whole euros, and a rate in thousandths.
  abbrev pub bracket : ℕ → ℕ → D × D
  bracket floor rate = (dec floor 0, dec rate 3)

  pub gipuzkoa_2024 : List (D × D)
  gipuzkoa_2024 =
      bracket 0 200
      ∷ bracket 2_500 210
      ∷ bracket 10_000 220
      ∷ bracket 15_000 230
      ∷ bracket 30_000 250
      ∷ []

  pub gipuzkoa_2026 : List (D × D)
  gipuzkoa_2026 =
      bracket 0 190
      ∷ bracket 7_500 200
      ∷ bracket 15_000 220
      ∷ bracket 30_000 240
      ∷ bracket 50_000 255
      ∷ bracket 90_000 260
      ∷ bracket 120_000 265
      ∷ bracket 240_000 270
      ∷ bracket 300_000 280
      ∷ []

  pub comun_2024 : List (D × D)
  comun_2024 =
      bracket 0 190
      ∷ bracket 6_000 210
      ∷ bracket 50_000 230
      ∷ bracket 200_000 270
      ∷ bracket 300_000 280
      ∷ []

  pub comun_2025 : List (D × D)
  comun_2025 =
      bracket 0 190
      ∷ bracket 6_000 210
      ∷ bracket 50_000 230
      ∷ bracket 200_000 270
      ∷ bracket 300_000 300
      ∷ []

  pub navarra_2024 : List (D × D)
  navarra_2024 =
      bracket 0 200
      ∷ bracket 6_000 220
      ∷ bracket 10_000 240
      ∷ bracket 15_000 260
      ∷ bracket 200_000 270
      ∷ bracket 300_000 280
      ∷ []

  pub for_year : SpanishTaxRegime → ℤ → Result ScaleError (SavingsScale D)
  for_year SpanishTaxRegime.gipuzkoa year =
      if eqb_ℤ year (pos 2024) || eqb_ℤ year (pos 2025)
      then ok (record { brackets = gipuzkoa_2024 })
      else (if eqb_ℤ year (pos 2026)
          then ok (record { brackets = gipuzkoa_2026 })
          else err (unsupported_year SpanishTaxRegime.gipuzkoa year))
  for_year SpanishTaxRegime.comun year =
      if eqb_ℤ year (pos 2024)
      then ok (record { brackets = comun_2024 })
      else (if eqb_ℤ year (pos 2025) || eqb_ℤ year (pos 2026)
          then ok (record { brackets = comun_2025 })
          else err (unsupported_year SpanishTaxRegime.comun year))
  for_year SpanishTaxRegime.navarra year =
      if leb_ℤ (pos 2024) year && leb_ℤ year (pos 2026)
      then ok (record { brackets = navarra_2024 })
      else err (unsupported_year SpanishTaxRegime.navarra year)

  -- The end of a bracket, which is the next floor or nothing.
  pub upper : D → List (D × D) → D
  upper base [] = base
  upper base ((next_floor, _) ∷ _) = min base next_floor

  -- The loop of `tax` over the brackets that are left.
  pub tax_from : D → List (D × D) → D → D
  unfolding upper
  tax_from base [] tax = tax
  tax_from base ((floor, rate) ∷ rest) tax =
      let next = tax_from base rest (tax ⊕ (upper base rest ⊖ floor) ⊗ rate) in
      if led base floor then tax else next

  pub tax : SavingsScale D → D → D
  unfolding tax_from
  tax scale base = if led base nought then nought else tax_from base scale.brackets nought

  pub average_rate : SavingsScale D → D → D
  unfolding tax
  average_rate scale base =
      if led base nought
      then nought
      else d.round_dp RoundingStrategy.midpoint_away_from_zero 4 (tax scale base ⊘ base)
