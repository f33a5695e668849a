-- ===== src/Time.antt =====
-- Periods of days, `Period` of src/time/period.rs. A date is its number of days, an error the two
-- dates or periods that do not fit, and the first and the last date that the crate can represent
-- are left out.
pub mod Days
use investments.Base.{Bool, ◌&&◌, not, Option, none, some, Result, ok, err, if◌then◌else◌}
use investments.Base.Int.{ℤ, pos, ◌+ℤ◌, ◌-ℤ◌, ltb_ℤ, leb_ℤ, eqb_ℤ}

pub record Period : Type 0 where
  pub first : ℤ
  pub last : ℤ

pub data PeriodError : Type 0 where
  invalid_period : ℤ → ℤ → PeriodError
  not_continuous : Period → Period → PeriodError

unfoldable pub new_period : ℤ → ℤ → Result PeriodError Period
new_period first last =
    if ltb_ℤ last first
    then err (invalid_period first last)
    else ok (record { first = first; last = last })

unfoldable pub prev_date : Period → ℤ
prev_date period = period.first -ℤ pos 1

unfoldable pub next_date : Period → ℤ
next_date period = period.last +ℤ pos 1

unfoldable pub join : Period → Period → Result PeriodError Period
unfolding next_date
join period other =
    if not (eqb_ℤ other.first (next_date period))
    then err (not_continuous period other)
    else ok (record period { last = other.last })

unfoldable pub contains : Period → ℤ → Bool
contains period date = leb_ℤ period.first date && leb_ℤ date period.last

unfoldable pub contains_period : Period → Period → Bool
contains_period period other = leb_ℤ period.first other.first && leb_ℤ other.last period.last

-- The two periods, the one that starts earlier first.
unfoldable pub in_order : Period → Period → Period × Period
in_order period other = if leb_ℤ period.first other.first then (period, other) else (other, period)

unfoldable pub intersect_ordered : Period × Period → Option Period
intersect_ordered (earlier, later) =
    if ltb_ℤ earlier.last later.first
    then none
    else some (record {
      first = later.first;
      last = if ltb_ℤ later.last earlier.last then later.last else earlier.last;
    })

unfoldable pub try_intersect : Period → Period → Option Period
unfolding in_order intersect_ordered
try_intersect period other = intersect_ordered (in_order period other)

unfoldable pub union_ordered : Period × Period → Option Period
unfolding next_date
union_ordered (earlier, later) =
    if ltb_ℤ (next_date earlier) later.first
    then none
    else some (record {
      first = earlier.first;
      last = if ltb_ℤ later.last earlier.last then earlier.last else later.last;
    })

unfoldable pub try_union : Period → Period → Option Period
unfolding in_order union_ordered
try_union period other = union_ordered (in_order period other)

unfoldable pub days : Period → ℤ
days period = (period.last -ℤ period.first) +ℤ pos 1
