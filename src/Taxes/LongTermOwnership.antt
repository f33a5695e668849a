-- ===== src/Taxes/LongTermOwnership.antt =====
-- The deduction for long-term ownership, src/taxes/long_term_ownership.rs, and the loop of
-- `NetTaxCalculator::add_profit` of src/taxes/net_calculator.rs that fills it. A failed assertion
-- is `none`. A date of the crate `chrono` is its year, month and day, the next day is a parameter,
-- and so is the prefix of an ISIN. A map keyed by years is the list of its entries.
pub mod Limit
pub mod Ownership
use investments.Base.{
  String, ℕ, Bool, true, false, not, ◌&&◌, ◌||◌, Option, none, some, List, [], ◌∷◌, if◌then◌else◌,
  ltb, ◌==◌,
}
use investments.Base.Int.{ℤ, pos, negsuc, ◌-ℤ◌, ltb_ℤ, leb_ℤ, eqb_ℤ}
use investments.Base.Names.{strings, value_or}
use investments.Base.YearMap
use investments.Base.YearMap.{YearMap}
use investments.Base.Decimal.{Decimal, nought, dec, ◌⊕◌, ◌⊖◌, ◌⊗◌, ◌⊘◌, min, max, is_zero}
use investments.Util.{is_sign_positive, round_amount}

pub record LtoDeductibleProfit (D : Type 0) : Type 0 where
  pub profit : D
  pub years : ℕ

pub record LtoDeductionCalculator (D : Type 0) : Type 0 where
  pub profit : D
  pub weighted_profit : D
  pub out_of_limit : D

pub record LtoDeduction (D : Type 0) : Type 0 where
  pub deduction : D
  pub limit : D
  pub loss : D

pub record NetLtoDeduction (D : Type 0) : Type 0 where
  pub applied_above_limit : D
  pub loss : D

pub record TaxYearLto (D : Type 0) : Type 0 where
  pub calc : LtoDeductionCalculator D
  pub applied_deduction : D
  pub applied_loss : D

pub record Date : Type 0 where
  pub year : ℤ
  pub month : ℕ
  pub day : ℕ

module _ {D : Type 0} ⦃d : Decimal D⦄ where
  unfoldable pub new_lto : LtoDeductionCalculator D
  new_lto = record { profit = nought; weighted_profit = nought; out_of_limit = nought }

  unfoldable pub add_lto :
      LtoDeductionCalculator D → D → ℕ → Bool → Option (LtoDeductionCalculator D)
  unfolding is_sign_positive
  add_lto calc profit years out_of_limit =
      if not (is_sign_positive profit) || ltb years 3
      then none
      else some (
          if out_of_limit
          then record calc { out_of_limit = calc.out_of_limit ⊕ profit }
          else record calc {
            profit = calc.profit ⊕ profit;
            weighted_profit = calc.weighted_profit ⊕ profit ⊗ dec years 0;
          })

  -- The loop of `NetTaxCalculator::add_profit`.
  unfoldable pub add_deductible :
      Option (LtoDeductionCalculator D)
      → List (LtoDeductibleProfit D)
      → Bool
      → Option (LtoDeductionCalculator D)
  unfolding add_lto
  add_deductible none profits emulated_trade = none
  add_deductible (some calc) [] emulated_trade = some calc
  add_deductible (some calc) (p ∷ profits) emulated_trade =
      add_deductible (add_lto calc p.profit p.years emulated_trade) profits emulated_trade

  unfoldable pub weighted_limit : LtoDeductionCalculator D → D
  unfolding round_amount
  weighted_limit calc = round_amount (calc.weighted_profit ⊘ calc.profit ⊗ dec 3000000 0)

  unfoldable pub calculate_lto : LtoDeductionCalculator D → LtoDeduction D
  unfolding weighted_limit
  calculate_lto calc =
      let out = calc.out_of_limit in
      let limit = weighted_limit calc in
      let total_profit = if is_zero calc.profit then out else out ⊕ calc.profit in
      let total_limit = if is_zero calc.profit then out else out ⊕ limit in
      let total_deduction = if is_zero calc.profit then out else out ⊕ min calc.profit limit in
      record {
        deduction = total_deduction;
        limit = total_limit;
        loss = total_profit ⊖ total_deduction;
      }

  -- `NetLtoDeductionCalculator::tax_year`, for the value of the entry.
  unfoldable pub tax_year : YearMap (TaxYearLto D) → ℤ → TaxYearLto D
  unfolding new_lto
  tax_year tax_years year =
      YearMap.get_or tax_years year
        (record { calc = new_lto; applied_deduction = nought; applied_loss = nought })

  unfoldable pub put_year :
      YearMap (TaxYearLto D)
      → ℤ
      → Option (LtoDeductionCalculator D)
      → Option (YearMap (TaxYearLto D))
  unfolding tax_year
  put_year tax_years year none = none
  put_year tax_years year (some calc) =
      some (YearMap.insert year (record (tax_year tax_years year) { calc = calc }) tax_years)

  unfoldable pub add_profit :
      YearMap (TaxYearLto D) → ℤ → D → ℕ → Bool → Option (YearMap (TaxYearLto D))
  unfolding tax_year add_lto put_year
  add_profit tax_years year profit years out_of_limit =
      put_year tax_years year (add_lto (tax_year tax_years year).calc profit years out_of_limit)

  unfoldable pub add_applied_deduction :
      YearMap (TaxYearLto D) → ℤ → D → D → Option (YearMap (TaxYearLto D))
  unfolding tax_year is_sign_positive
  add_applied_deduction tax_years year deduction loss =
      let stat = tax_year tax_years year in
      if not (is_sign_positive deduction) || not (is_sign_positive loss)
      then none
      else some (
          YearMap.insert year
            (record stat {
              applied_deduction = stat.applied_deduction ⊕ deduction;
              applied_loss = stat.applied_loss ⊕ loss;
            })
            tax_years)

  unfoldable pub net_deduction : TaxYearLto D → NetLtoDeduction D
  unfolding calculate_lto
  net_deduction stat = record {
    applied_above_limit = max nought (stat.applied_deduction ⊖ (calculate_lto stat.calc).limit);
    loss = stat.applied_loss;
  }

  unfoldable pub calculate_net : YearMap (TaxYearLto D) → YearMap (NetLtoDeduction D)
  unfolding net_deduction
  calculate_net [] = []
  calculate_net ((year, stat) ∷ tax_years) =
      YearMap.insert year (net_deduction stat) (calculate_net tax_years)

module _ {Isin : Type 0} (prefix : Isin → String) where
  -- The loop of `is_applicable`: `result.replace`, and the return on a difference.
  unfoldable pub same_prefix : List Isin → Option Bool → Option Bool
  same_prefix [] result = result
  same_prefix (isin ∷ isins) result =
      let applicable = strings.same (prefix isin) "RU" in
      let differs : Bool = elim result [
        | none ↦ false
        | some prev ↦ if prev then not applicable else applicable
      ] in
      let rest = same_prefix isins (some applicable) in if differs then none else rest

  unfoldable pub is_applicable : List Isin → Date → Option Bool
  unfolding same_prefix
  is_applicable isins sell_date =
      if ltb_ℤ sell_date.year (pos 2024) then some true else same_prefix isins none

-- The order of dates.
unfoldable pub before : Date → Date → Bool
before a b =
    ltb_ℤ a.year b.year
    || (eqb_ℤ a.year b.year && (ltb a.month b.month || ((a.month == b.month) && ltb a.day b.day)))

-- `cast::u32`, which refuses a negative number.
abbrev pub cast_u32 : ℤ → Option ℕ
cast_u32 (pos n) = some n
cast_u32 (negsuc n) = none

module _ (succ : Date → Date) where
  unfoldable pub is_incomplete : Date → Date → Bool
  is_incomplete buy_date sell_date =
      ltb sell_date.month buy_date.month
      || ((sell_date.month == buy_date.month)
          && (ltb sell_date.day buy_date.day && ((succ sell_date).month == sell_date.month)))

  unfoldable pub calculate_ownership_years : Date → Date → Option ℕ
  unfolding before is_incomplete
  calculate_ownership_years buy_date sell_date =
      let years = sell_date.year -ℤ buy_date.year in
      if before sell_date buy_date
      then none
      else cast_u32 (if is_incomplete buy_date sell_date then years -ℤ pos 1 else years)

  unfoldable pub at_least_three : Option ℕ → Option (Option ℕ)
  at_least_three none = none
  at_least_three (some years) = some (if ltb years 3 then none else some years)

  -- The outer `none` is a failed assertion of `calculate_ownership_years`.
  unfoldable pub is_deductible :
      {Isin : Type 0} → (Isin → String) → List Isin → Date → Date → Option (Option ℕ)
  unfolding is_applicable before calculate_ownership_years at_least_three
  is_deductible prefix isins buy_date sell_date =
      if not (value_or false (is_applicable prefix isins sell_date))
      then some none
      else (if before buy_date (record { year = pos 2014; month = 1; day = 1 })
          then some none
          else at_least_three (calculate_ownership_years buy_date sell_date))
