-- ===== src/Examples/WashSale.antt =====
-- The theorems on homogeneous securities at concrete inputs: shares are sold at a loss, and bought
-- back within two months, in a calendar with months of 30 days.
use investments.Base.{String, ◌≡◌, ◌⊎◌, ◌*◌, ◌%◌, List, [], ◌∷◌, some, All, arith}
use investments.Base.Int.{ℤ, pos, negsuc, pos_part, ◌+ℤ◌, ◌-ℤ◌, +ℤ_parts, -ℤ_parts}
use investments.Base.Names.{strings, get_or}
use investments.Base.YearMap
use investments.Base.YearMap.{YearMap}
use investments.Base.Decimal.{◌⊕◌, ◌≈◌, min}
use investments.Base.Decimal.Units.{units}
use investments.Base.Decimal.Magnitude.{digit}
use investments.Examples.Amounts.{eur, loss}
use investments.TaxStatement.WashSale.Data.{
  Calendar, BlockedLot, Disposal, InstrumentState, AcquisitionBucket,
}
use investments.TaxStatement.WashSale.Release.{release}
use investments.TaxStatement.WashSale.Matching.{blocking, in_range, match_window}
use investments.TaxStatement.WashSale.Engine.{no_state, own_loss_of, process}
use investments.TaxStatement.WashSale.Conservation.{release-conserves}
use investments.TaxStatement.WashSale.Sums.{IsBlocking, deferred, amounts}
use investments.TaxStatement.WashSale.Capacity.{IsOffered, match_window-eq-min}
use investments.TaxStatement.WashSale.Buckets.{capacity, sum_of}
use investments.TaxStatement.WashSale.Deferral.{IsBounded}
use investments.TaxStatement.WashSale.Replayed.{process-IsBounded}

abbrev months_of_30_days : Calendar
months_of_30_days = record {
  day = λ date. pos_part date % 30;
  checked_sub_months = λ date months. some (date -ℤ pos (30 * months));
  checked_add_months = λ date months. some (date +ℤ pos (30 * months));
  min_date = negsuc 0;
  max_date = pos 1000000;
  sub_months_mono =
      λ date m n h. omega (arith, h, -ℤ_parts date (pos (30 * m)), -ℤ_parts date (pos (30 * n)));
  add_months_mono =
      λ date m n h. omega (arith, h, +ℤ_parts date (pos (30 * m)), +ℤ_parts date (pos (30 * n)));
}

-- Forty shares of day 980 block a loss of an earlier sale, and ten of day 990 another.
abbrev blocked_lots : List (BlockedLot ℤ)
blocked_lots =
    record {
      buy_date = pos 980;
      blocked_quantity = eur 40;
      deferred_loss = eur 120;
      origin_sale_date = pos 950;
    }
    ∷ record {
      buy_date = pos 990;
      blocked_quantity = eur 10;
      deferred_loss = eur 5;
      origin_sale_date = pos 950;
    }
    ∷ []

abbrev buckets : YearMap (AcquisitionBucket ℤ)
buckets =
    (pos 980, record { quantity = eur 100; consumed = eur 0 })
    ∷ (pos 990, record { quantity = eur 10; consumed = eur 0 })
    ∷ (pos 1030, record { quantity = eur 25; consumed = eur 0 })
    ∷ []

abbrev shares_of_one : InstrumentState ℤ
shares_of_one = record { acquisitions = buckets; blocked = blocked_lots }

abbrev sale : Disposal ℤ
sale = record {
  key = "US0378331005";
  date = pos 1000;
  quantity = eur 60;
  fiscal_result = some (loss 90);
  consumed = (pos 980, eur 60) ∷ [];
}

blocked_lots-AllBlocking : All IsBlocking blocked_lots
unfolding digit
blocked_lots-AllBlocking = omega arith

release-conserves_example :
    let result = release blocked_lots (pos 980) (eur 60) [] in
    (result.1.consumed ≈ min (eur 60) (blocking blocked_lots (pos 980)))
    × (blocking result.0 (pos 980) ⊕ result.1.consumed ≈ blocking blocked_lots (pos 980))
    × (deferred result.0 ⊕ amounts result.1.reintegrations ≈ deferred blocked_lots ⊕ amounts [])
unfolding digit
release-conserves_example =
    release-conserves blocked_lots (pos 980) (eur 60) [] blocked_lots-AllBlocking (omega arith)

match_window-eq-min_example :
    let bounds : ℤ × ℤ = (pos 940, pos 1060) in
    let matches = match_window shares_of_one sale bounds in
    (matches.1 ≈ min (eur 60) (capacity blocked_lots (YearMap.retain (in_range bounds) buckets)))
    × (sum_of matches.0 ≈ matches.1)
    × All (IsOffered blocked_lots buckets bounds) matches.0
unfolding digit
match_window-eq-min_example =
    match_window-eq-min shares_of_one sale (pos 940, pos 1060) (omega arith)

abbrev instruments : List (String × InstrumentState ℤ)
instruments = ("US0378331005", shares_of_one) ∷ []

process-IsBounded_example :
    IsBounded (own_loss_of (some (loss 90))) (process months_of_30_days instruments sale).1
    × ((other : String)
        → ("US0378331005" ≡ other)
          ⊎ (get_or no_state (process months_of_30_days instruments sale).0 other
              ≡ get_or no_state instruments other))
process-IsBounded_example = process-IsBounded months_of_30_days instruments sale
