-- ===== src/Examples/Time.antt =====
-- The theorems on periods at concrete inputs.
use investments.Base.{arith}
use investments.Base.Int.{pos}
use investments.Time.{Period, try_union}
use investments.Time.Days.{IsUnion, try_union-IsUnion}

abbrev january : Period
january = record { first = pos 1; last = pos 31 }

abbrev late_january_and_february : Period
late_january_and_february = record { first = pos 20; last = pos 59 }

try_union-IsUnion_example :
    IsUnion late_january_and_february january (try_union late_january_and_february january)
try_union-IsUnion_example =
    try_union-IsUnion late_january_and_february january (omega arith) (omega arith)
