-- ===== src/Examples/LongTermOwnership.antt =====
-- The theorems on the deduction for long-term ownership at concrete inputs.
use investments.Util.{is_sign_positive}
use investments.Base.{
  ap, not, String, ◌≡◌, refl, ◌↔◌, ℕ, suc, leb, if◌then◌else◌, true, false, some, List, [], ◌∷◌,
  All, arith,
}
use investments.Base.Int.{ℤ, pos}
use investments.Base.Names.{strings}
use investments.Base.Decimal.Units.{units}
use investments.Examples.Amounts.{eur}
use investments.Taxes.LongTermOwnership.{
  Date, LtoDeductibleProfit, LtoDeductionCalculator, new_lto, add_deductible, calculate_lto, before,
  calculate_ownership_years, is_applicable,
}
use investments.Taxes.LongTermOwnership.Limit.{
  IsAccepted, IsWithin, total_profit, add_deductible-IsWithin,
}
use investments.Taxes.LongTermOwnership.Ownership.{
  has_come, all_are, calculate_ownership_years_lem, is_applicable_iff,
}

-- Thirteen millions of an ownership of four years, and half a million of three years.
abbrev profits : List (LtoDeductibleProfit ℤ)
profits =
    record { profit = eur 13000000; years = 4 } ∷ record { profit = eur 500000; years = 3 } ∷ []

profits-AllAccepted : All IsAccepted profits
unfolding is_sign_positive
profits-AllAccepted = (
  (ap not (units.sign_of_dec 13000000 0), omega arith),
  ((ap not (units.sign_of_dec 500000 0), omega arith), tt),
)

add_deductible-IsWithin_example :
    (calc : LtoDeductionCalculator ℤ) × (add_deductible (some new_lto) profits false ≡ some calc)
    × IsWithin (total_profit profits) (calculate_lto calc)
add_deductible-IsWithin_example = add_deductible-IsWithin profits false profits-AllAccepted

-- The next day, in a calendar in which every month ends on its day 28.
abbrev next_day : Date → Date
next_day date = record {
  year = date.year;
  month = if leb 28 date.day then suc date.month else date.month;
  day = if leb 28 date.day then 1 else suc date.day;
}

abbrev bought : Date
bought = record { year = pos 2020; month = 2; day = 29 }

abbrev sold : Date
sold = record { year = pos 2024; month = 2; day = 28 }

calculate_ownership_years_example :
    (years : ℕ) × (calculate_ownership_years next_day bought sold ≡ some years)
    × (has_come next_day bought years sold ≡ true)
    × (has_come next_day bought (suc years) sold ≡ false)
unfolding before
calculate_ownership_years_example = calculate_ownership_years_lem next_day bought sold refl

-- An ISIN is told by its prefix.
abbrev own_prefix : String → String
own_prefix prefix = prefix

is_applicable_iff_example :
    (is_applicable own_prefix ("RU" ∷ "RU" ∷ []) sold ≡ some true)
    ↔ (all_are own_prefix true ("RU" ∷ "RU" ∷ []) ≡ true)
is_applicable_iff_example = is_applicable_iff own_prefix "RU" ("RU" ∷ []) sold true (omega arith)
