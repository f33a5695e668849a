-- ===== src/Examples/BrokerStatement.antt =====
-- The theorems on the closing of positions at concrete inputs.
use investments.Examples.Amounts.{eur}
use investments.Base.{
  ◌≡◌, refl, ◌⊎◌, inl, inr, Bool-cases, String, false, List, [], ◌∷◌, ◌++◌, ℕ, ok, err, arith,
}
use investments.Base.Int.{ℤ, pos}
use investments.Base.Totals.{total}
use investments.Base.Names.{strings, get_or, get}
use investments.Base.Decimal.{nought, ◌⊕◌, ◌≺◌, ◌≈◌}
use investments.Base.Decimal.Units.{units}
use investments.Base.Decimal.Magnitude.{digit}
use investments.Currency.{Cash}
use investments.BrokerStatement.Trades.{
  StockBuy, StockSell, new_buy, new_sell, no_open_positions, is_processed, is_not_empty,
}
use investments.BrokerStatement.Processing.{Books, process_trades, calculate_open_positions}
use investments.BrokerStatement.Processing.Fifo.{unsold}
use investments.BrokerStatement.Processing.Trade.{AreCovered}
use investments.BrokerStatement.Processing.Sale.{AreOpen, Sold, lots_of, sold_of, process_sale-Sold}
use investments.BrokerStatement.Processing.Positions.{
  process_trades-refines, calculate_open_positions-eq-position,
}
use investments.BrokerStatement.Processing.Listed.{HasNone, position}

abbrev dollars : ℕ → Cash String ℤ
dollars n = record { currency = "USD"; amount = eur n }

abbrev bought : ℕ → ℤ → StockBuy ℤ
bought quantity time =
    new_buy "BND" (eur quantity) (dollars 80) (dollars 800) (dollars 1) time time time

abbrev lots : List (StockBuy ℤ)
lots = bought 10 (pos 1) ∷ bought 5 (pos 2) ∷ []

-- A sale of the first lot and a part of the second one.
abbrev sale : StockSell ℤ
sale = new_sell "BND" (eur 12) (dollars 81) (dollars 972) (dollars 1) (pos 3) (pos 4) false

abbrev books : Books ℤ
books = record { unsold_buys = ("BND", lots) ∷ []; closed = [] }

books-AreOpen : AreOpen 3 books
unfolding digit get_or get new_buy
books-AreOpen symbol = elim (Bool-cases (strings.same "BND" symbol)) [
  | inl e ↦ rw e (((omega arith, omega arith), ((omega arith, omega arith), tt)), omega arith)
  | inr e ↦ rw e (tt, omega arith)
]

process_sale-Sold_example : Sold [] 3 books sale
unfolding digit new_sell is_processed is_not_empty get
process_sale-Sold_example = process_sale-Sold [] 3 books sale refl refl (omega arith) books-AreOpen

process_trades-refines_example :
    ((books' : Books ℤ) × (after : List (StockSell ℤ)) × (process_trades [] 3 lots (sale ∷ [])
        ≡ ok (books', after))
      × AreCovered (sale ∷ []) after
      × AreOpen 3 books'
      × ((symbol : String)
          → unsold (lots_of books' symbol) ⊕ total (sold_of symbol) (sale ∷ [])
            ≈ position symbol lots))
    ⊎ ((before : List (StockSell ℤ)) × (refused : StockSell ℤ) × (later : List (StockSell ℤ))
        × ((sale ∷ []) ≡ before ++ (refused ∷ later))
        × (process_trades [] 3 lots (sale ∷ []) ≡ err (no_open_positions refused.original_symbol))
        × (HasNone refused.symbol lots
            ⊎ (position refused.symbol lots
                ≺ total (sold_of refused.symbol) before ⊕ refused.quantity)))
unfolding digit new_sell new_buy is_processed is_not_empty get
process_trades-refines_example =
    process_trades-refines [] 3 lots (sale ∷ [])
      ((omega arith, omega arith), ((omega arith, omega arith), tt)) ((refl, refl, omega arith), tt)
      (omega arith)

calculate_open_positions-eq-position_example :
    (positions : List (String × ℤ)) × (calculate_open_positions [] (pos 9) [] lots ≡ ok positions)
    × ((symbol : String)
        → get_or nought positions symbol ≈ get_or nought [] symbol ⊕ position symbol lots)
unfolding new_buy get
calculate_open_positions-eq-position_example =
    calculate_open_positions-eq-position [] (pos 9) [] lots (refl, (refl, tt))
