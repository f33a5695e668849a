-- ===== src/Taxes/Spain/Coefficients.antt =====
-- The actualization coefficients of Gipuzkoa, src/taxes/spain/coefficients.rs. A coefficient of the
-- shipped tables is a number of thousandths, in place of its text. A date, of the crate `chrono`, is
-- its year and whether it is 31 December 1994.
pub mod Lookup
use investments.Base.{
  Bool, true, false, ◌||◌, ℕ, Option, none, some, List, [], ◌∷◌, Result, ok, err, if◌then◌else◌,
  ◌==◌,
}
use investments.Base.Int.{ℤ, pos, ltb_ℤ, leb_ℤ, eqb_ℤ}
use investments.Base.YearMap
use investments.Base.YearMap.{YearMap}
use investments.Base.Decimal.{Decimal, nought, dec, ltd, led}

pub record AcquisitionDate : Type 0 where
  pub year : ℤ
  pub is_last_day_of_1994 : Bool

pub data CoefficientError : Type 0 where
  not_positive not_plausible : ℤ → ℤ → CoefficientError
  acquired_after_disposal no_table : ℤ → ℤ → CoefficientError

pub coefficients_2026 : List (ℤ × ℕ)
coefficients_2026 =
    (pos 1994, 2030)
    ∷ (pos 1995, 2156)
    ∷ (pos 1996, 2076)
    ∷ (pos 1997, 2030)
    ∷ (pos 1998, 1985)
    ∷ (pos 1999, 1931)
    ∷ (pos 2000, 1866)
    ∷ (pos 2001, 1796)
    ∷ (pos 2002, 1732)
    ∷ (pos 2003, 1685)
    ∷ (pos 2004, 1635)
    ∷ (pos 2005, 1583)
    ∷ (pos 2006, 1531)
    ∷ (pos 2007, 1489)
    ∷ (pos 2008, 1430)
    ∷ (pos 2009, 1426)
    ∷ (pos 2010, 1402)
    ∷ (pos 2011, 1360)
    ∷ (pos 2012, 1330)
    ∷ (pos 2013, 1309)
    ∷ (pos 2014, 1307)
    ∷ (pos 2015, 1307)
    ∷ (pos 2016, 1307)
    ∷ (pos 2017, 1281)
    ∷ (pos 2018, 1261)
    ∷ (pos 2019, 1249)
    ∷ (pos 2020, 1249)
    ∷ (pos 2021, 1212)
    ∷ (pos 2022, 1121)
    ∷ (pos 2023, 1082)
    ∷ (pos 2024, 1050)
    ∷ (pos 2025, 1020)
    ∷ (pos 2026, 1000)
    ∷ []

pub coefficients_2025 : List (ℤ × ℕ)
coefficients_2025 =
    (pos 1994, 1969)
    ∷ (pos 1995, 2091)
    ∷ (pos 1996, 2014)
    ∷ (pos 1997, 1969)
    ∷ (pos 1998, 1925)
    ∷ (pos 1999, 1873)
    ∷ (pos 2000, 1809)
    ∷ (pos 2001, 1742)
    ∷ (pos 2002, 1680)
    ∷ (pos 2003, 1634)
    ∷ (pos 2004, 1586)
    ∷ (pos 2005, 1536)
    ∷ (pos 2006, 1485)
    ∷ (pos 2007, 1444)
    ∷ (pos 2008, 1387)
    ∷ (pos 2009, 1383)
    ∷ (pos 2010, 1360)
    ∷ (pos 2011, 1319)
    ∷ (pos 2012, 1290)
    ∷ (pos 2013, 1270)
    ∷ (pos 2014, 1268)
    ∷ (pos 2015, 1268)
    ∷ (pos 2016, 1267)
    ∷ (pos 2017, 1243)
    ∷ (pos 2018, 1223)
    ∷ (pos 2019, 1212)
    ∷ (pos 2020, 1212)
    ∷ (pos 2021, 1175)
    ∷ (pos 2022, 1088)
    ∷ (pos 2023, 1050)
    ∷ (pos 2024, 1018)
    ∷ (pos 2025, 1000)
    ∷ []

pub coefficients_2024 : List (ℤ × ℕ)
coefficients_2024 =
    (pos 1994, 1945)
    ∷ (pos 1995, 2066)
    ∷ (pos 1996, 1989)
    ∷ (pos 1997, 1945)
    ∷ (pos 1998, 1902)
    ∷ (pos 1999, 1850)
    ∷ (pos 2000, 1787)
    ∷ (pos 2001, 1721)
    ∷ (pos 2002, 1660)
    ∷ (pos 2003, 1614)
    ∷ (pos 2004, 1567)
    ∷ (pos 2005, 1517)
    ∷ (pos 2006, 1467)
    ∷ (pos 2007, 1426)
    ∷ (pos 2008, 1370)
    ∷ (pos 2009, 1366)
    ∷ (pos 2010, 1344)
    ∷ (pos 2011, 1303)
    ∷ (pos 2012, 1274)
    ∷ (pos 2013, 1254)
    ∷ (pos 2014, 1252)
    ∷ (pos 2015, 1252)
    ∷ (pos 2016, 1252)
    ∷ (pos 2017, 1228)
    ∷ (pos 2018, 1208)
    ∷ (pos 2019, 1197)
    ∷ (pos 2020, 1197)
    ∷ (pos 2021, 1161)
    ∷ (pos 2022, 1074)
    ∷ (pos 2023, 1036)
    ∷ (pos 2024, 1000)
    ∷ []

pub shipped_table : ℤ → Option (List (ℤ × ℕ))
shipped_table disposal_year =
    if eqb_ℤ disposal_year (pos 2024)
    then some coefficients_2024
    else (if eqb_ℤ disposal_year (pos 2025)
        then some coefficients_2025
        else (if eqb_ℤ disposal_year (pos 2026) then some coefficients_2026 else none))

-- The last row at or below a year, or the one given.
pub last_row : List (ℤ × ℕ) → ℤ → ℕ → ℕ
last_row [] year row = row
last_row ((key, coefficient) ∷ rest) year row =
    last_row rest year (if leb_ℤ key year then coefficient else row)

-- `none` is the panic of the index `table[0]`.
pub row_of : List (ℤ × ℕ) → ℤ → Option ℕ
unfolding last_row
row_of [] year = none
row_of ((key, coefficient) ∷ rest) year =
    some (last_row ((key, coefficient) ∷ rest) year coefficient)

pub shipped : ℤ → ℤ → Option ℕ
unfolding shipped_table row_of
shipped disposal_year acquisition_year = elim (shipped_table disposal_year) [
  | none ↦ none
  | some table ↦ row_of table acquisition_year
]

unfoldable pub effective_year : AcquisitionDate → ℤ
effective_year date = if date.is_last_day_of_1994 then pos 1995 else date.year

module _ {D : Type 0} ⦃d : Decimal D⦄ where
  pub max_coefficient : D
  max_coefficient = dec 10 0

  pub validate_table : ℤ → YearMap D → Result CoefficientError (Unit {0})
  unfolding max_coefficient
  validate_table disposal_year [] = ok tt
  validate_table disposal_year ((acquisition_year, coefficient) ∷ table) =
      let rest = validate_table disposal_year table in
      if led coefficient nought
      then err (not_positive disposal_year acquisition_year)
      else (if ltd max_coefficient coefficient
          then err (not_plausible disposal_year acquisition_year)
          else rest)

  unfoldable pub validate_overrides : YearMap (YearMap D) → Result CoefficientError (Unit {0})
  unfolding validate_table
  validate_overrides [] = ok tt
  validate_overrides ((disposal_year, table) ∷ overrides) =
      elim (validate_table disposal_year table) [
        | ok _ ↦ validate_overrides overrides
        | err e ↦ err e
      ]

  pub has_table : ℤ → YearMap (YearMap D) → Bool
  unfolding shipped_table
  has_table disposal_year overrides = elim (shipped_table disposal_year) [
    | some _ ↦ true
    | none ↦ elim (YearMap.get disposal_year overrides) [ some _ ↦ true | none ↦ false ]
  ]

  pub overridden : ℤ → ℤ → YearMap (YearMap D) → Option D
  overridden disposal_year acquisition_year overrides = elim (YearMap.get disposal_year overrides) [
    | none ↦ none
    | some table ↦ YearMap.get acquisition_year table
  ]

  pub gipuzkoa_coefficient : ℤ → AcquisitionDate → YearMap (YearMap D) → Result CoefficientError D
  unfolding effective_year overridden shipped
  gipuzkoa_coefficient disposal_year acquisition_date overrides =
      let acquisition_year = effective_year acquisition_date in
      if ltb_ℤ disposal_year acquisition_year
      then err (acquired_after_disposal disposal_year acquisition_year)
      else elim (overridden disposal_year acquisition_year overrides) [
        | some coefficient ↦ ok coefficient
        | none ↦ elim (shipped disposal_year acquisition_year) [
          | some thousandths ↦ ok (dec thousandths 3)
          | none ↦ err (no_table disposal_year acquisition_year)
        ]
      ]
