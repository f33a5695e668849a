-- ===== src/Taxes/LongTermOwnership/Limit.antt =====
-- The deduction against its limit.
use investments.Base.{
  ◌≡◌, refl, ap, ◌∙◌, inl, inr, ◌≤◌, ℕ, Bool, true, false, Option, some, List, [], ◌∷◌, ltb, All,
  Bool-cases, arith,
}
use investments.Base.Decimal.{
  Decimal, nought, dec, ◌⊕◌, ◌⊖◌, ◌⊗◌, ◌⊘◌, min, ◌≼◌, ◌≺◌, ◌≈◌, is_zero, nought_parts, mul_nonneg,
  div_nonneg,
}
use investments.Util.{is_sign_positive}
use investments.Util.Rounding.{round_amount_mono, round_amount_zero}
use investments.Taxes.LongTermOwnership.{
  LtoDeductibleProfit, LtoDeductionCalculator, LtoDeduction, new_lto, add_lto, add_deductible,
  weighted_limit, calculate_lto,
}

dec_nonneg : {D : Type 0} (d : Decimal D) (n : ℕ) → ◌≼◌ ⦃d = d⦄ (d.dec 0 0) (d.dec n 0)
dec_nonneg d n = omega (arith, nought_parts d, d.dec_parts n 0 (omega arith))

module _ {D : Type 0} ⦃d : Decimal D⦄ where
  -- What the assertions of `add` ask for.
  abbrev pub IsAccepted : LtoDeductibleProfit D → Type 0
  IsAccepted p = (is_sign_positive p.profit ≡ true) × (3 ≤ p.years)

  unfoldable pub total_profit : List (LtoDeductibleProfit D) → D
  total_profit [] = nought
  total_profit (p ∷ profits) = p.profit ⊕ total_profit profits

  abbrev IsSound : LtoDeductionCalculator D → Type 0
  IsSound calc =
      (nought ≼ calc.profit) × (nought ≼ calc.weighted_profit) × (nought ≼ calc.out_of_limit)

  -- What an addition keeps: the sum of both profits grows by the profit.
  abbrev Adds : LtoDeductionCalculator D → D → Option (LtoDeductionCalculator D) → Type 0
  Adds calc profit result =
      (calc' : LtoDeductionCalculator D) × (result ≡ some calc')
      × IsSound calc'
      × (calc'.profit ⊕ calc'.out_of_limit ≈ profit ⊕ (calc.profit ⊕ calc.out_of_limit))

  add_lto-Adds :
      (calc : LtoDeductionCalculator D) (p : LtoDeductibleProfit D) (out_of_limit : Bool)
      → IsSound calc
      → IsAccepted p
      → Adds calc p.profit (add_lto calc p.profit p.years out_of_limit)
  unfolding add_lto
  add_lto-Adds calc p true (sound, weighted, out) (positive, years) =
      let enough : ltb p.years 3 ≡ false = ground (arith, years) in
      let nonneg : nought ≼ p.profit =
        unfold is_sign_positive in
        ground (arith, positive, nought_parts d, d.sign_of_neg p.profit) in
      rw (positive, enough)
        (
          _,
          refl,
          (
            sound,
            weighted,
            omega (arith, out, nonneg, nought_parts d, d.add_parts calc.out_of_limit p.profit),
          ),
          omega (
            arith,
            d.add_parts calc.out_of_limit p.profit,
            d.add_parts calc.profit (calc.out_of_limit ⊕ p.profit),
            d.add_parts calc.profit calc.out_of_limit,
            d.add_parts p.profit (calc.profit ⊕ calc.out_of_limit),
          ),
        )
  add_lto-Adds calc p false (sound, weighted, out) (positive, years) =
      let enough : ltb p.years 3 ≡ false = ground (arith, years) in
      let nonneg : nought ≼ p.profit =
        unfold is_sign_positive in
        ground (arith, positive, nought_parts d, d.sign_of_neg p.profit) in
      let weight = mul_nonneg p.profit (dec p.years 0) nonneg (dec_nonneg d p.years) in
      rw (positive, enough)
        (
          _,
          refl,
          (
            omega (arith, sound, nonneg, nought_parts d, d.add_parts calc.profit p.profit),
            omega (
              arith,
              weighted,
              weight,
              nought_parts d,
              d.add_parts calc.weighted_profit (p.profit ⊗ dec p.years 0),
            ),
            out,
          ),
          omega (
            arith,
            d.add_parts calc.profit p.profit,
            d.add_parts (calc.profit ⊕ p.profit) calc.out_of_limit,
            d.add_parts calc.profit calc.out_of_limit,
            d.add_parts p.profit (calc.profit ⊕ calc.out_of_limit),
          ),
        )

  add_deductible-Adds :
      (calc : LtoDeductionCalculator D) (profits : List (LtoDeductibleProfit D))
      (emulated_trade : Bool)
      → IsSound calc
      → All IsAccepted profits
      → Adds calc (total_profit profits) (add_deductible (some calc) profits emulated_trade)
  unfolding add_deductible total_profit
  add_deductible-Adds calc [] emulated_trade sound _ = (
    calc,
    refl,
    sound,
    omega (arith, nought_parts d, d.add_parts nought (calc.profit ⊕ calc.out_of_limit)),
  )
  add_deductible-Adds calc (p ∷ profits) emulated_trade sound (accepted, all) =
      let (calc', e, sound', sum) = add_lto-Adds calc p emulated_trade sound accepted in
      let (calc'', e', sound'', sum') =
        add_deductible-Adds calc' profits emulated_trade sound' all in
      (
        calc'',
        ap (λ o. add_deductible o profits emulated_trade) e ∙ e',
        sound'',
        omega (
          arith,
          sum,
          sum',
          d.add_parts p.profit (total_profit profits),
          d.add_parts (total_profit profits) (calc'.profit ⊕ calc'.out_of_limit),
          d.add_parts p.profit (calc.profit ⊕ calc.out_of_limit),
          d.add_parts (p.profit ⊕ total_profit profits) (calc.profit ⊕ calc.out_of_limit),
        ),
      )

  weighted_limit_nonneg :
      (calc : LtoDeductionCalculator D)
      → IsSound calc
      → is_zero calc.profit ≡ false
      → nought ≼ weighted_limit calc
  unfolding weighted_limit
  weighted_limit_nonneg calc (sound, weighted, _) some_profit =
      let per = calc.weighted_profit ⊘ calc.profit in
      let positive : nought ≺ calc.profit = ground (arith, some_profit, sound, nought_parts d) in
      let nonneg =
        mul_nonneg per (dec 3000000 0)
          (div_nonneg calc.weighted_profit calc.profit weighted positive) (dec_nonneg d 3000000) in
      omega (
        arith,
        nonneg,
        round_amount_mono nought (per ⊗ dec 3000000 0) nonneg,
        round_amount_zero {D = D} nought (omega arith),
      )

  -- The deduction is not negative and within the limit, and with the loss it makes up the profit.
  abbrev pub IsWithin : D → LtoDeduction D → Type 0
  IsWithin profit result =
      (nought ≼ result.deduction)
      × (result.deduction ≼ result.limit)
      × (nought ≼ result.loss)
      × (result.deduction ⊕ result.loss ≈ profit)

  calculate_lto-IsWithin :
      (calc : LtoDeductionCalculator D)
      → IsSound calc
      → IsWithin (calc.profit ⊕ calc.out_of_limit) (calculate_lto calc)
  unfolding calculate_lto
  calculate_lto-IsWithin calc (sound, weighted, out) =
      let o = calc.out_of_limit in
      let p = calc.profit in
      let limit = weighted_limit calc in
      elim (Bool-cases (is_zero p)) [
        | inl e ↦ rw e (
          out,
          omega arith,
          omega (arith, nought_parts d, d.sub_parts o o),
          ground
              (arith, e, nought_parts d, d.sub_parts o o, d.add_parts o (o ⊖ o), d.add_parts p o),
        )
        | inr e ↦
            let nonneg = weighted_limit_nonneg calc (sound, weighted, out) e in
            let least = min p limit in
            rw e (
              ground (arith, nought_parts d, nonneg, sound, out, d.add_parts o least),
              ground (arith, d.add_parts o least, d.add_parts o limit),
              ground (
                arith,
                nought_parts d,
                d.add_parts o least,
                d.add_parts o p,
                d.sub_parts (o ⊕ p) (o ⊕ least),
              ),
              omega (
                arith,
                d.add_parts o p,
                d.add_parts p o,
                d.sub_parts (o ⊕ p) (o ⊕ least),
                d.add_parts (o ⊕ least) ((o ⊕ p) ⊖ (o ⊕ least)),
              ),
            )
      ]

  -- Of profits that are not negative, owned for three years at least, none is refused. The
  -- deduction from them is not negative and within its limit, the loss is not negative, and both
  -- together are the sum of the profits, whether the limit applies to these or not.
  pub add_deductible-IsWithin :
      (profits : List (LtoDeductibleProfit D)) (emulated_trade : Bool)
      → All IsAccepted profits
      → (calc : LtoDeductionCalculator D) × (add_deductible (some new_lto) profits emulated_trade
          ≡ some calc)
        × IsWithin (total_profit profits) (calculate_lto calc)
  unfolding new_lto
  add_deductible-IsWithin profits emulated_trade all =
      let (calc, e, sound, sum) =
        add_deductible-Adds new_lto profits emulated_trade (omega arith, omega arith, omega arith)
          all in
      let (nonneg, within, no_gain, whole) = calculate_lto-IsWithin calc sound in
      (
        calc,
        e,
        (
          nonneg,
          within,
          no_gain,
          omega (
            arith,
            nought_parts d,
            sum,
            whole,
            d.add_parts nought nought,
            d.add_parts (total_profit profits) (nought ⊕ nought),
          ),
        ),
      )
