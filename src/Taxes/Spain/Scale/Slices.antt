-- ===== src/Taxes/Spain/Scale/Slices.antt =====
-- The tax of a scale: the loop against the sum over all brackets, its order and its bounds.
use investments.Base.{◌≡◌, List, [], ◌∷◌, arith, inl, inr, Bool-cases}
use investments.Base.Decimal.{
  Decimal, nought, dec, ◌⊕◌, ◌⊖◌, ◌⊗◌, ◌≼◌, ◌≺◌, ◌≈◌, min, max, nought_parts, mul_nonneg,
  mul_le_of_le_one, led,
}
use investments.Taxes.Spain.Scale.{SavingsScale, upper, tax_from, tax}

module _ {D : Type 0} ⦃d : Decimal D⦄ where
  -- Floors ascend, and rates are fractions.
  abbrev pub IsAscending : D → List (D × D) → Type 0
  IsAscending floor [] = Unit
  IsAscending floor ((next, _) ∷ rest) = (floor ≺ next) × IsAscending next rest

  abbrev pub AreRates : List (D × D) → Type 0
  AreRates [] = Unit
  AreRates ((_, rate) ∷ rest) = (nought ≼ rate) × (rate ≼ dec 1 0) × AreRates rest

  -- The first floor is zero.
  abbrev pub IsScale : List (D × D) → Type 0
  IsScale [] = Unit
  IsScale ((floor, rate) ∷ rest) =
      (floor ≈ nought) × IsAscending floor rest × AreRates ((floor, rate) ∷ rest)

  -- What lies of the base in a bracket.
  pub slice : D → D → List (D × D) → D
  unfolding upper
  slice base floor rest = max (upper base rest ⊖ floor) nought

  -- The sum over all brackets, with no early end.
  pub slices : D → List (D × D) → D
  slices base [] = nought
  slices base ((floor, rate) ∷ rest) = slice base floor rest ⊗ rate ⊕ slices base rest

  slice_nonneg : (base floor : D) (rest : List (D × D)) → nought ≼ slice base floor rest
  unfolding slice
  slice_nonneg base floor rest = ground arith

  slice_mono :
      (base base' floor : D) (rest : List (D × D))
      → base ≼ base'
      → slice base floor rest ≼ slice base' floor rest
  unfolding slice
  slice_mono base base' floor [] h =
      ground (arith, h, d.sub_parts base floor, d.sub_parts base' floor)
  slice_mono base base' floor ((next, _) ∷ rest) h =
      ground (arith, h, d.sub_parts (min base next) floor, d.sub_parts (min base' next) floor)

  slice_zero :
      (base floor : D) (rest : List (D × D))
      → base ≼ floor
      → d.pos_part (slice base floor rest) ≡ d.neg_part (slice base floor rest)
  unfolding slice
  slice_zero base floor [] h = ground (arith, h, nought_parts d, d.sub_parts base floor)
  slice_zero base floor ((next, _) ∷ rest) h =
      ground (arith, h, nought_parts d, d.sub_parts (min base next) floor)

  slices_zero :
      (base floor : D) (brackets : List (D × D))
      → base ≼ floor
      → IsAscending floor brackets
      → slices base brackets ≈ nought
  unfolding slices
  slices_zero base floor [] h asc = omega arith
  slices_zero base floor ((next, rate) ∷ rest) h (lt, asc) = omega (
    arith,
    nought_parts d,
    d.mul_zero (slice base next rest) rate (slice_zero base next rest (omega arith)),
    slices_zero base next rest (omega arith) asc,
    d.add_parts (slice base next rest ⊗ rate) (slices base rest),
  )

  slice_whole :
      (base floor : D) (rest : List (D × D))
      → floor ≺ base
      → IsAscending floor rest
      → upper base rest ⊖ floor ≈ slice base floor rest
  unfolding slice
  slice_whole base floor [] h asc = ground (arith, h, nought_parts d, d.sub_parts base floor)
  slice_whole base floor ((next, _) ∷ rest) h asc =
      ground (arith, h, asc.0, nought_parts d, d.sub_parts (min base next) floor)

  mul_congr : (a b c : D) → a ≈ b → nought ≼ c → a ⊗ c ≈ b ⊗ c
  mul_congr a b c e h = omega (
    arith,
    nought_parts d,
    d.mul_mono a b c (omega arith) (omega (arith, nought_parts d)),
    d.mul_mono b a c (omega arith) (omega (arith, nought_parts d)),
  )

  tax_from-eq-slices :
      (base floor acc : D) (brackets : List (D × D))
      → IsAscending floor brackets
      → AreRates brackets
      → tax_from base brackets acc ≈ acc ⊕ slices base brackets
  unfolding tax_from slices
  tax_from-eq-slices base floor acc [] asc rates =
      omega (arith, nought_parts d, d.add_parts acc nought)
  tax_from-eq-slices base floor acc ((next, rate) ∷ rest) (lt, asc) (r0, r1, rates) =
      let base_slice = slice base next rest in
      elim (Bool-cases (led base next)) [
        | inl within ↦
            let zero_slice =
              d.mul_zero base_slice rate (slice_zero base next rest (ground arith)) in
            ground (
              arith,
              within,
              nought_parts d,
              zero_slice,
              slices_zero base next rest (ground arith) asc,
              d.add_parts acc (base_slice ⊗ rate ⊕ slices base rest),
              d.add_parts (base_slice ⊗ rate) (slices base rest),
            )
        | inr beyond ↦
            let taxed = (upper base rest ⊖ next) ⊗ rate in
            let whole =
              mul_congr (upper base rest ⊖ next) base_slice rate
                (slice_whole base next rest (ground arith) asc) r0 in
            ground (
              arith,
              beyond,
              whole,
              tax_from-eq-slices base next (acc ⊕ taxed) rest asc rates,
              d.add_parts acc taxed,
              d.add_parts (acc ⊕ taxed) (slices base rest),
              d.add_parts acc (base_slice ⊗ rate ⊕ slices base rest),
              d.add_parts (base_slice ⊗ rate) (slices base rest),
            )
      ]

  slices_nonneg :
      (base : D) (brackets : List (D × D)) → AreRates brackets → nought ≼ slices base brackets
  unfolding slices
  slices_nonneg base [] rates = omega (arith, nought_parts d)
  slices_nonneg base ((floor, rate) ∷ rest) (r0, r1, rates) = omega (
    arith,
    nought_parts d,
    mul_nonneg (slice base floor rest) rate (slice_nonneg base floor rest) r0,
    slices_nonneg base rest rates,
    d.add_parts (slice base floor rest ⊗ rate) (slices base rest),
  )

  slices_mono :
      (base base' : D) (brackets : List (D × D))
      → base ≼ base'
      → AreRates brackets
      → slices base brackets ≼ slices base' brackets
  unfolding slices
  slices_mono base base' [] h rates = omega arith
  slices_mono base base' ((floor, rate) ∷ rest) h (r0, r1, rates) = omega (
    arith,
    nought_parts d,
    d.mul_mono (slice base floor rest) (slice base' floor rest) rate
        (slice_mono base base' floor rest h) (omega (arith, nought_parts d)),
    slices_mono base base' rest h rates,
    d.add_parts (slice base floor rest ⊗ rate) (slices base rest),
    d.add_parts (slice base' floor rest ⊗ rate) (slices base' rest),
  )

  -- What lies above a floor, whatever brackets it falls into.
  slices_le :
      (base floor rate : D) (rest : List (D × D))
      → floor ≼ base
      → IsAscending floor rest
      → AreRates ((floor, rate) ∷ rest)
      → slices base ((floor, rate) ∷ rest) ≼ base ⊖ floor
  unfolding slices slice
  slices_le base floor rate [] h asc (r0, r1, rates) =
      let share = mul_le_of_le_one (slice base floor []) rate (slice_nonneg base floor []) r1 in
      ground (
        arith,
        share,
        nought_parts d,
        d.sub_parts base floor,
        d.add_parts (slice base floor [] ⊗ rate) nought,
      )
  slices_le base floor rate ((next, next_rate) ∷ rest) h (lt, asc) (r0, r1, rates) =
      let brackets = (next, next_rate) ∷ rest in
      let base_slice = slice base floor brackets in
      let share = mul_le_of_le_one base_slice rate (slice_nonneg base floor brackets) r1 in
      elim (Bool-cases (led base next)) [
        | inl within ↦ ground (
          arith,
          within,
          share,
          nought_parts d,
          slices_zero base floor brackets,
          slices_zero base next rest (ground arith) asc,
          d.mul_zero (slice base next rest) next_rate (slice_zero base next rest (ground arith)),
          d.add_parts (slice base next rest ⊗ next_rate) (slices base rest),
          d.sub_parts base floor,
          d.sub_parts (min base next) floor,
          d.add_parts (base_slice ⊗ rate) (slices base brackets),
        )
        | inr beyond ↦ ground (
          arith,
          beyond,
          share,
          nought_parts d,
          slices_le base next next_rate rest (ground arith) asc rates,
          d.sub_parts base next,
          d.sub_parts base floor,
          d.sub_parts (min base next) floor,
          d.add_parts (base_slice ⊗ rate) (slices base brackets),
        )
      ]

  scale_rates : (brackets : List (D × D)) → IsScale brackets → AreRates brackets
  scale_rates [] h = tt
  scale_rates ((floor, rate) ∷ rest) (_, _, rates) = rates

  scale_zero :
      (base : D) (brackets : List (D × D))
      → IsScale brackets
      → base ≼ nought
      → slices base brackets ≈ nought
  unfolding slices
  scale_zero base [] h le = omega arith
  scale_zero base ((floor, rate) ∷ rest) (zero_floor, asc, rates) le = omega (
    arith,
    nought_parts d,
    d.mul_zero (slice base floor rest) rate (slice_zero base floor rest (omega arith)),
    slices_zero base floor rest (omega arith) asc,
    d.add_parts (slice base floor rest ⊗ rate) (slices base rest),
  )

  scale_le :
      (base : D) (brackets : List (D × D))
      → IsScale brackets
      → nought ≼ base
      → slices base brackets ≼ base
  scale_le base [] h le = unfold slices in omega (arith, nought_parts d)
  scale_le base ((floor, rate) ∷ rest) (zero_floor, asc, rates) le = omega (
    arith,
    nought_parts d,
    d.sub_parts base floor,
    slices_le base floor rate rest (omega arith) asc rates,
  )

  scale_loop :
      (base : D) (brackets : List (D × D))
      → IsScale brackets
      → nought ≺ base
      → tax_from base brackets nought ≈ slices base brackets
  scale_loop base [] h lt = unfold tax_from slices in omega arith
  scale_loop base ((floor, rate) ∷ rest) (zero_floor, asc, rates) lt =
      let next = d.sub floor (dec 1 0) in
      omega (
        arith,
        nought_parts d,
        d.dec_parts 1 0 (omega arith),
        tax_from-eq-slices base next nought ((floor, rate) ∷ rest)
            (omega (arith, d.sub_parts floor (dec 1 0), d.dec_parts 1 0 (omega arith)), asc) rates,
        d.add_parts nought (slices base ((floor, rate) ∷ rest)),
      )

  -- The loop that stops at the first floor not below the base returns what the whole scale
  -- yields: the sum, over all brackets, of the part of the base that lies in the bracket times the
  -- bracket's rate. At a base of zero or less, both are zero. The floors ascend from zero, and the
  -- rates lie between zero and one.
  pub tax-eq-slices :
      (scale : SavingsScale D) (base : D)
      → IsScale scale.brackets
      → tax scale base ≈ slices base scale.brackets
  unfolding tax
  tax-eq-slices scale base h =
      ground (arith, scale_zero base scale.brackets h, scale_loop base scale.brackets h)

  -- With ascending floors from zero and rates between zero and one, the tax is not negative, does
  -- not fall when the base grows, and is at most the base, or zero where the base is negative.
  pub tax_bounds :
      (scale : SavingsScale D) (base base' : D)
      → IsScale scale.brackets
      → base ≼ base'
      → (nought ≼ tax scale base)
        × (tax scale base ≼ tax scale base')
        × (tax scale base ≼ max base nought)
  tax_bounds scale base base' h le =
      let rates = scale_rates scale.brackets h in
      let same = tax-eq-slices scale base h in
      let same' = tax-eq-slices scale base' h in
      (
        omega (arith, same, slices_nonneg base scale.brackets rates),
        omega (arith, same, same', slices_mono base base' scale.brackets le rates),
        ground (
          arith,
          same,
          nought_parts d,
          scale_le base scale.brackets h,
          scale_zero base scale.brackets h,
        ),
      )
