-- ===== src/BrokerStatement/StockSplits.antt =====
-- `StockSplitController` of src/broker_statement/corporate_actions.rs: the splits of each symbol, in
-- the order of their times. A divisor is a number; a time is one as well.
use investments.Base.{
  String, ℕ, Bool, true, false, ◌&&◌, Option, none, some, List, [], ◌∷◌, ◌++◌, Result, ok, err,
  ◌>>=◌, if◌then◌else◌, each,
}
use investments.Base.Int.{ℤ, ltb_ℤ, leb_ℤ, eqb_ℤ}
use investments.Base.Names.{strings, get, get_or, insert}
use investments.Base.Decimal.{Decimal, dec, ◌⊗◌, ◌⊘◌, eqd}
use investments.BrokerStatement.Trades.{TradeError, panic}

pub data SplitError (D : Type 0) : Type 0 where
  duplicated : ℤ → String → SplitError D
  unsupported_divisor : D → SplitError D

abbrev pub StockSplits : Type 0
StockSplits = List (String × List (ℤ × ℕ))

-- The map of a symbol with a split put in, in the order of the times.
unfoldable pub insert_split : ℤ → ℕ → List (ℤ × ℕ) → List (ℤ × ℕ)
insert_split time divisor [] = (time, divisor) ∷ []
insert_split time divisor ((time', divisor') ∷ splits) =
    let rest = insert_split time divisor splits in
    if ltb_ℤ time time'
    then (time, divisor) ∷ (time', divisor') ∷ splits
    else (time', divisor') ∷ rest

unfoldable pub has_split : ℤ → List (ℤ × ℕ) → Bool
has_split time [] = false
has_split time ((time', _) ∷ splits) =
    let rest = has_split time splits in if eqb_ℤ time time' then true else rest

unfoldable pub latest_first : List (ℤ × ℕ) → List ℕ
latest_first [] = []
latest_first ((_, divisor) ∷ splits) = latest_first splits ++ (divisor ∷ [])

module _ {D : Type 0} ⦃d : Decimal D⦄ where
  -- The product of the divisors, the latest first, each step of which has to be exact.
  unfoldable pub check_divisors : D → List ℕ → Result (SplitError D) (Unit {0})
  check_divisors full_divisor [] = ok tt
  check_divisors full_divisor (divisor ∷ divisors) =
      let product = full_divisor ⊗ dec divisor 0 in
      let rest = check_divisors product divisors in
      if eqd (dec 1 0 ⊘ product ⊗ product) (dec 1 0)
      then rest
      else err (unsupported_divisor product)

  unfoldable pub add : StockSplits → ℤ → String → ℕ → Result (SplitError D) StockSplits
  unfolding insert_split has_split check_divisors latest_first
  add symbols time symbol divisor =
      let splits = get_or [] symbols symbol in
      let split = insert_split time divisor splits in
      if has_split time splits
      then err (duplicated time symbol)
      else check_divisors (dec 1 0) (latest_first split) >>= λ _. ok (insert symbols symbol split)

  -- The splits after `start`, up to `end`.
  unfoldable pub multiply : ℤ → ℤ → D → ℤ × ℕ → D
  multiply start end multiplier (time, divisor) =
      if ltb_ℤ start time && leb_ℤ time end then multiplier ⊗ dec divisor 0 else multiplier

  unfoldable pub range_multiplier : Option (List (ℤ × ℕ)) → ℤ → ℤ → D
  unfolding multiply
  range_multiplier none start end = dec 1 0
  range_multiplier (some splits) start end = each (multiply start end) (dec 1 0) splits

  unfoldable pub reciprocal : D → Result TradeError D
  reciprocal multiplier =
      let inverse = dec 1 0 ⊘ multiplier in
      if eqd (dec 1 0 ⊗ inverse ⊘ inverse) (dec 1 0) then ok inverse else err panic

  -- Without splits of the symbol the code returns before the division.
  unfoldable pub divided : Option (List (ℤ × ℕ)) → ℤ → ℤ → Result TradeError D
  unfolding range_multiplier reciprocal
  divided none start end = ok (dec 1 0)
  divided (some splits) start end = reciprocal (range_multiplier (some splits) start end)

  unfoldable pub get_multiplier : StockSplits → String → ℤ → ℤ → Result TradeError D
  unfolding range_multiplier divided
  get_multiplier symbols symbol from_time to_time =
      let splits = get symbols symbol in
      if eqb_ℤ from_time to_time
      then ok (dec 1 0)
      else (if ltb_ℤ from_time to_time
          then ok (range_multiplier splits from_time to_time)
          else divided splits to_time from_time)
