-- ===== src/Taxes/Rates/Progressive.antt =====
-- The tax at progressive rates: the loop ends, and moves the base by the income.
use investments.Base.{
  ◌≡◌, refl, ◌≤◌, ◌<◌, ◌+◌, ℕ, zero, suc, none, some, List, [], ◌∷◌, length, ok, arith,
  if◌then◌else◌, Bool-cases, All, true, not, ◌&&◌, Option-cases, ◌⊎◌, inl, inr,
}
use investments.Base.Decimal.{
  Decimal, nought, ◌⊕◌, ◌⊖◌, ◌⊗◌, ◌≼◌, ◌≺◌, ◌≈◌, max, max_bounds, min, led, ltd, is_zero,
  nought_parts, mul_nonneg,
}
use investments.Util.{round_amount, round_tax, is_sign_positive}
use investments.Util.Rounding.{round_tax_mono}
use investments.Taxes.Rates.{
  ProgressiveTaxRate, current_rate, next_key, portion_to, found_rate, tax_loop, progressive_tax,
}

module _ {D : Type 0} ⦃d : Decimal D⦄ where
  -- The keys above a base, of which there is one less with each round of the loop.
  pub above : List (D × D) → D → ℕ
  above [] base = 0
  above ((key, _) ∷ rest) base = (if ltd base key then 1 else 0) + above rest base

  above_mono :
      (rates : List (D × D)) (base base' : D) → base ≼ base' → above rates base' ≤ above rates base
  unfolding above
  above_mono [] base base' h = omega arith
  above_mono ((key, _) ∷ rest) base base' h = ground (arith, above_mono rest base base' h)

  above-next_key :
      (rates : List (D × D)) (base base' key : D)
      → next_key rates base ≡ some key
      → base ≼ base'
      → key ≼ base'
      → (base ≺ key) × (above rates base' < above rates base)
  unfolding above next_key
  above-next_key [] base base' key e le above_le = absurd (ground (arith, e))
  above-next_key ((k, _) ∷ rest) base base' key e le h = elim (Bool-cases (ltd base k)) [
    | inl first ↦ ground (arith, first, e, above_mono rest base base' le)
    | inr skipped ↦ ground (arith, skipped, e, above-next_key rest base base' key)
  ]

  above_le : (rates : List (D × D)) (base : D) → above rates base ≤ length rates
  unfolding above
  above_le [] base = omega arith
  above_le ((key, _) ∷ rest) base = ground (arith, above_le rest base)

  current_rate-found :
      (rates : List (D × D)) (base found : D)
      → nought ≼ found
      → All (λ r. nought ≼ r.1) rates
      → (rate : D) × (current_rate rates base (some found) ≡ some rate) × (nought ≼ rate)
  unfolding current_rate
  current_rate-found [] base found h rates = (found, refl, h)
  current_rate-found ((key, rate) ∷ rest) base found h (r, rates) =
      elim (Bool-cases (led key base)) [
        | inl e ↦ rw e (current_rate-found rest base rate r rates)
        | inr e ↦ rw e (current_rate-found rest base found h rates)
      ]

  -- The first key is at most the base, and no rate is negative.
  abbrev pub Covers : List (D × D) → D → Type 0
  Covers [] base = ⊥
  Covers ((key, rate) ∷ rest) base = (key ≼ base) × All (λ r. nought ≼ r.1) ((key, rate) ∷ rest)

  current_rate-covered :
      (rates : List (D × D)) (base : D)
      → Covers rates base
      → (rate : D) × (current_rate rates base none ≡ some rate) × (nought ≼ rate)
  unfolding current_rate
  current_rate-covered [] base h = absurd h
  current_rate-covered ((key, rate) ∷ rest) base (le, (r, rates)) =
      let e : led key base ≡ true = ground arith in rw e (current_rate-found rest base rate r rates)

  pub Covers-mono :
      (rates : List (D × D)) (base base' : D)
      → base ≼ base'
      → Covers rates base
      → Covers rates base'
  Covers-mono [] base base' le h = h
  Covers-mono ((key, rate) ∷ rest) base base' le (h, rates) = (omega arith, rates)

  key_ahead : (rates : List (D × D)) (base key : D) → next_key rates base ≡ some key → base ≺ key
  key_ahead rates base key e =
      (above-next_key rates base (max base key) key e (max_bounds base key).0
        (max_bounds base key).1).0

  -- A round takes a part of the income that is not zero: all of it, or up to the next key.
  portion_lem :
      (rates : List (D × D)) (base income : D)
      → nought ≺ income
      → let current = portion_to (next_key rates base) base income in
        (nought ≺ current)
        × (current ≼ income)
        × ((current ≈ income) ⊎ (above rates (base ⊕ current) < above rates base))
  unfolding portion_to
  portion_lem rates base income h = elim (Option-cases (next_key rates base)) [
    | inl e ↦ rw e (h, omega arith, inl refl)
    | inr (key, e) ↦
        let ahead = key_ahead rates base key e in
        let current = min (key ⊖ base) income in
        rw e (
          ground (arith, nought_parts d, h, ahead, d.sub_parts key base),
          ground arith,
          elim (Bool-cases (ltd income (key ⊖ base))) [
            | inl whole ↦ inl (ground (arith, whole))
            | inr part ↦
                inr
                  (above-next_key rates base (base ⊕ current) key e
                    (ground (
                      arith,
                      part,
                      nought_parts d,
                      ahead,
                      d.sub_parts key base,
                      d.add_parts base current,
                    ))
                    (ground (
                      arith,
                      part,
                      nought_parts d,
                      ahead,
                      d.sub_parts key base,
                      d.add_parts base current,
                    ))).1
          ],
        )
  ]

  tax_loop_lem :
      (fuel : ℕ) (rates : List (D × D)) (precision : ℕ) (income base tax : D)
      → Covers rates base
      → 1 ≤ fuel
      → (nought ≺ income → above rates base + 2 ≤ fuel)
      → (r : D × D) × (tax_loop fuel rates precision income base tax ≡ ok r)
        × (tax ≼ r.0)
        × (r.1 ≈ base ⊕ max nought income)
  unfolding tax_loop found_rate is_sign_positive
  tax_loop_lem zero rates precision income base tax cover some_fuel enough = absurd (omega arith)
  tax_loop_lem (suc fuel) rates precision income base tax cover some_fuel enough =
      elim (Bool-cases (ltd nought income)) [
        | inr over ↦ (
          (tax, base),
          ground (arith, over, nought_parts d, d.sign_of_neg income),
          omega arith,
          ground (arith, over, nought_parts d, d.add_parts base income, d.add_parts base nought),
        )
        | inl more ↦
            let left : nought ≺ income = ground (arith, more) in
            let current = portion_to (next_key rates base) base income in
            let part = portion_lem rates base income left in
            let rate = current_rate-covered rates base cover in
            let due = round_tax (current ⊗ rate.0) precision in
            let due_nonneg =
              (round_tax_mono (current ⊗ rate.0) (current ⊗ rate.0) precision (omega arith)).1
                (mul_nonneg current rate.0 (omega arith) rate.2) in
            let next =
              tax_loop_lem fuel rates precision (income ⊖ current) (base ⊕ current) (tax ⊕ due)
                (Covers-mono rates base (base ⊕ current)
                  (omega (arith, part, nought_parts d, d.add_parts base current)) cover)
                (omega (arith, enough left))
                (λ m.
                  ground
                    (arith, enough left, part, m, nought_parts d, d.sub_parts income current)) in
            let test : (not (is_zero income) && is_sign_positive income) ≡ true =
              ground (arith, more, nought_parts d, d.sign_of_pos income) in
            (
              next.0,
              rw test (rw rate.1 next.1),
              omega (arith, next.2, due_nonneg, nought_parts d, d.add_parts tax due),
              ground (
                arith,
                next.3,
                left,
                part,
                nought_parts d,
                d.sub_parts income current,
                d.add_parts base current,
                d.add_parts base income,
                d.add_parts (base ⊕ current) (income ⊖ current),
                d.add_parts (base ⊕ current) nought,
              ),
            )
      ]

  -- Where a key lies at or below the base and no rate is negative, the loop ends without a panic
  -- on every income: the call returns a tax that is not negative, and a calculator with the same
  -- rates whose base is greater by the rounded income, or is the same where the income is negative.
  pub progressive_tax_lem :
      (calc : ProgressiveTaxRate D) (income : D)
      → Covers calc.rates calc.tax_base
      → (tax : D) × (calc' : ProgressiveTaxRate D) × (progressive_tax calc income ≡ ok (tax, calc'))
        × (nought ≼ tax)
        × (calc'.rates ≡ calc.rates)
        × (calc'.precision ≡ calc.precision)
        × (calc'.tax_base ≈ calc.tax_base ⊕ max nought (round_amount income))
  unfolding progressive_tax
  progressive_tax_lem calc income cover =
      let fuel = suc (suc (length calc.rates)) in
      let result =
        tax_loop_lem fuel calc.rates calc.precision (round_amount income) calc.tax_base nought cover
          (omega arith) (λ _. omega (arith, above_le calc.rates calc.tax_base)) in
      (
        result.0.0,
        record calc { tax_base = result.0.1 },
        rw result.1 refl,
        result.2,
        refl,
        refl,
        result.3,
      )
