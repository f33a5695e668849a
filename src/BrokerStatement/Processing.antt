-- ===== src/BrokerStatement/Processing.antt =====
-- `process_trades` and `calculate_open_positions` of src/broker_statement/mod.rs. The unsold lots of a
-- symbol, which the code lists by their indices with the earliest last, are the lots themselves with
-- the earliest first; a lot that is sold out moves to the closed ones. The loop that takes lots runs
-- on fuel. Trades from a given time on (`until`) and the messages are left out.
pub mod Lot
pub mod Close
pub mod Fifo
pub mod Trade
pub mod Sale
pub mod Positions
pub mod Listed
use investments.Base.{
  String, ℕ, zero, suc, Bool, Option, none, some, List, [], ◌∷◌, ◌++◌, Result, ok, err, ◌>>=◌,
  if◌then◌else◌, each,
}
use investments.Base.Int.{ℤ}
use investments.Base.Names.{strings, get, get_or, insert}
use investments.Base.Decimal.{Decimal, nought, ◌⊕◌, ◌⊖◌, ◌⊗◌, ◌⊘◌, min, ltd, eqd, is_zero}
use investments.BrokerStatement.Trades.{
  StockBuy, StockSell, StockSellSource, TradeError, panic, no_open_positions, out_of_fuel, is_sold,
  get_unsold, sell, is_processed, process,
}
use investments.BrokerStatement.StockSplits.{StockSplits, get_multiplier}

-- What the loop leaves: the unsold lots, and what it adds to the closed lots and to the sources.
pub record Closing (D : Type 0) : Type 0 where
  pub symbol_buys : List (StockBuy D)
  pub closed : List (StockBuy D)
  pub sources : List (StockSellSource D)

pub record Books (D : Type 0) : Type 0 where
  pub unsold_buys : List (String × List (StockBuy D))
  pub closed : List (StockBuy D)

module _ {D : Type 0} ⦃d : Decimal D⦄ where
  -- The body of the loop: the lot after the sale, its source, and what remains to be sold.
  unfoldable pub take_lot :
      StockBuy D → D → D → Result TradeError (StockBuy D × StockSellSource D × D)
  unfolding get_unsold sell
  take_lot buy remaining_quantity multiplier =
      let unsold_quantity = multiplier ⊗ get_unsold buy in
      let sell_quantity = min remaining_quantity unsold_quantity in
      let source_quantity = d.normalize (sell_quantity ⊘ multiplier) in
      if ltd nought sell_quantity
      then (if eqd (source_quantity ⊗ multiplier) sell_quantity
          then (sell buy source_quantity multiplier >>= λ (buy', source).
              ok (buy', source, remaining_quantity ⊖ sell_quantity))
          else err panic)
      else err panic

  -- `sources.push(...)`, and the pop of a lot that is sold out.
  unfoldable pub push : StockSellSource D → Closing D → Closing D
  push source closing = record closing { sources = source ∷ closing.sources }

  unfoldable pub pop : StockBuy D → Closing D → Closing D
  pop buy closing = record closing { closed = buy ∷ closing.closed }

  unfoldable pub close :
      (StockBuy D → Result TradeError D)
      → String
      → ℕ
      → D
      → List (StockBuy D)
      → Result TradeError (Closing D)
  unfolding take_lot is_sold push pop
  close multiplier_of name zero remaining_quantity symbol_buys =
      if is_zero remaining_quantity
      then ok (record { symbol_buys = symbol_buys; closed = []; sources = [] })
      else err out_of_fuel
  close multiplier_of name (suc fuel) remaining_quantity [] =
      if is_zero remaining_quantity
      then ok (record { symbol_buys = []; closed = []; sources = [] })
      else err (no_open_positions name)
  close multiplier_of name (suc fuel) remaining_quantity (buy ∷ buys) =
      if is_zero remaining_quantity
      then ok (record { symbol_buys = buy ∷ buys; closed = []; sources = [] })
      else multiplier_of buy >>= λ multiplier.
          take_lot buy remaining_quantity multiplier >>= λ (buy', source, remaining).
          close multiplier_of name fuel remaining (if is_sold buy' then buys else buy' ∷ buys)
          >>= λ closing. ok (push source (if is_sold buy' then pop buy' closing else closing))

  -- The vectors of the unsold lots, which the code fills from the last lot to the first.
  unfoldable pub unsold_buys_of : List (StockBuy D) → List (String × List (StockBuy D))
  unfolding is_sold
  unsold_buys_of [] = []
  unsold_buys_of (buy ∷ buys) =
      let rest = unsold_buys_of buys in
      if is_sold buy then rest else insert rest buy.symbol (buy ∷ get_or [] rest buy.symbol)

  -- One sale, against the unsold lots of its symbol.
  unfoldable pub close_position :
      StockSplits
      → ℕ
      → Books D
      → StockSell D
      → Option (List (StockBuy D))
      → Result TradeError (Books D × StockSell D)
  unfolding close process get_multiplier
  close_position splits fuel books sale none = err (no_open_positions sale.original_symbol)
  close_position splits fuel books sale (some symbol_buys) =
      close (λ buy. get_multiplier splits sale.symbol buy.conclusion_time sale.conclusion_time)
        sale.original_symbol fuel sale.quantity symbol_buys
      >>= λ closing. process sale closing.sources >>= λ processed. ok (
        record {
          unsold_buys = insert books.unsold_buys sale.symbol closing.symbol_buys;
          closed = books.closed ++ closing.closed;
        },
        processed,
      )

  unfoldable pub process_sale :
      StockSplits → ℕ → Books D → StockSell D → Result TradeError (Books D × StockSell D)
  unfolding is_processed close_position
  process_sale splits fuel books sale =
      if is_processed sale
      then ok (books, sale)
      else close_position splits fuel books sale (get books.unsold_buys sale.symbol)

  unfoldable pub process_sales :
      StockSplits
      → ℕ
      → Books D
      → List (StockSell D)
      → Result TradeError (Books D × List (StockSell D))
  unfolding process_sale
  process_sales splits fuel books [] = ok (books, [])
  process_sales splits fuel books (sale ∷ sales) =
      process_sale splits fuel books sale >>= λ (books', processed).
      process_sales splits fuel books' sales >>= λ (after, others). ok (after, processed ∷ others)

  unfoldable pub process_trades :
      StockSplits
      → ℕ
      → List (StockBuy D)
      → List (StockSell D)
      → Result TradeError (Books D × List (StockSell D))
  unfolding process_sales unsold_buys_of
  process_trades splits fuel stock_buys stock_sells =
      process_sales splits fuel (record { unsold_buys = unsold_buys_of stock_buys; closed = [] })
        stock_sells

  -- `and_modify(...)` and `or_insert(...)`.
  unfoldable pub modify_or_insert : List (String × D) → String → D → Option D → List (String × D)
  modify_or_insert open_positions symbol quantity none = insert open_positions symbol quantity
  modify_or_insert open_positions symbol quantity (some position) =
      insert open_positions symbol (position ⊕ quantity)

  -- One lot, with the multiplier up to the end of the period.
  unfoldable pub add_open_position : List (String × D) → StockBuy D → D → List (String × D)
  unfolding get_unsold modify_or_insert
  add_open_position open_positions buy multiplier =
      modify_or_insert open_positions buy.symbol (multiplier ⊗ get_unsold buy)
        (get open_positions buy.symbol)

  unfoldable pub calculate_open_positions :
      StockSplits
      → ℤ
      → List (String × D)
      → List (StockBuy D)
      → Result TradeError (List (String × D))
  unfolding is_sold add_open_position get_multiplier
  calculate_open_positions splits end open_positions [] = ok open_positions
  calculate_open_positions splits end open_positions (buy ∷ buys) =
      if is_sold buy
      then calculate_open_positions splits end open_positions buys
      else get_multiplier splits buy.symbol buy.conclusion_time end >>= λ multiplier.
          calculate_open_positions splits end (add_open_position open_positions buy multiplier) buys
