-- ===== src/TaxStatement/WashSale/Data.antt =====
-- The records of src/tax_statement/spain/wash_sale.rs. A date is its number of days, and the calendar
-- of the crate `chrono` is a parameter.
use investments.Base.{String, Option, List, ℕ, ◌≤◌}
use investments.Base.Int.{ℤ, ◌≤ℤ◌}
use investments.Base.Names.{value_or}
use investments.Base.YearMap.{YearMap}

-- The calls of the crate: the day of the month, the dates some months before and after, where they
-- can be represented, and the first and the last date that can be. More months lead further away.
pub record Calendar : Type 0 where
  pub day : ℤ → ℕ
  pub checked_sub_months : ℤ → ℕ → Option ℤ
  pub checked_add_months : ℤ → ℕ → Option ℤ
  pub min_date : ℤ
  pub max_date : ℤ
  pub sub_months_mono :
      (date : ℤ) (m n : ℕ)
      → m ≤ n
      → value_or min_date (checked_sub_months date n)
        ≤ℤ value_or min_date (checked_sub_months date m)
  pub add_months_mono :
      (date : ℤ) (m n : ℕ)
      → m ≤ n
      → value_or max_date (checked_add_months date m)
        ≤ℤ value_or max_date (checked_add_months date n)

pub record BlockedLot (D : Type 0) : Type 0 where
  pub buy_date : ℤ
  pub blocked_quantity : D
  pub deferred_loss : D
  pub origin_sale_date : ℤ

pub record Acquisition (D : Type 0) : Type 0 where
  pub key : String
  pub date : ℤ
  pub quantity : D

pub record Disposal (D : Type 0) : Type 0 where
  pub key : String
  pub date : ℤ
  pub quantity : D
  pub fiscal_result : Option D
  pub consumed : List (ℤ × D)

pub record Reintegration (D : Type 0) : Type 0 where
  pub buy_date : ℤ
  pub origin_sale_date : ℤ
  pub amount : D

pub data BoundaryKind : Type 0 where
  endpoint near_miss clamp : BoundaryKind

pub record BoundaryReview (D : Type 0) : Type 0 where
  pub kind : BoundaryKind
  pub boundary_date : ℤ
  pub alternative_date : ℤ
  pub amount : D

pub record DisposalOutcome (D : Type 0) : Type 0 where
  pub deferred_loss : D
  pub reintegrations : List (Reintegration D)
  pub wider_window_loss : D
  pub boundary_reviews : List (BoundaryReview D)

pub record AcquisitionBucket (D : Type 0) : Type 0 where
  pub quantity : D
  pub consumed : D

pub record InstrumentState (D : Type 0) : Type 0 where
  pub acquisitions : YearMap (AcquisitionBucket D)
  pub blocked : List (BlockedLot D)
