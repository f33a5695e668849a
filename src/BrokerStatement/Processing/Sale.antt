-- ===== src/BrokerStatement/Processing/Sale.antt =====
-- One sale, against the open lots of its symbol. Here no symbol has a stock split.
use investments.Base.{
  ◌≡◌, refl, subst, ◌⊎◌, inl, inr, String, ℕ, ◌≤◌, ◌<◌, true, false, Option, none, some, List, [],
  ◌++◌, Result, ok, err, if◌then◌else◌, All, length, Bool-cases, arith,
}
use investments.Base.Int.{ℤ, eqb_ℤ, ltb_ℤ}
use investments.Base.Names.{strings, get, get_or, insert}
use investments.Base.Totals.{total, sum_from-total}
use investments.Base.Decimal.{Decimal, nought, dec, ◌⊗◌, ◌≼◌, ◌≺◌, ◌≈◌, eqd, nought_parts}
use investments.BrokerStatement.Trades.{
  StockBuy, StockSell, StockSellSource, TradeError, no_open_positions, is_processed, process,
  covered,
}
use investments.BrokerStatement.StockSplits.{StockSplits, get_multiplier}
use investments.BrokerStatement.Processing.{Closing, Books, close_position, process_sale, push, pop}
use investments.BrokerStatement.Processing.Lot.{IsOpen, IsOne}
use investments.BrokerStatement.Processing.Close.{close-Outcome}
use investments.BrokerStatement.Processing.Fifo.{
  IsFifo, untouched, sold_in_part, sold_out, unsold, taken, IsClosed,
}

module _ {D : Type 0} ⦃d : Decimal D⦄ where
  abbrev pub lots_of : Books D → String → List (StockBuy D)
  lots_of books symbol = get_or [] books.unsold_buys symbol

  -- What a sale takes of the position of a symbol.
  unfoldable pub sold_of : String → StockSell D → D
  sold_of symbol sale = if strings.same sale.symbol symbol then sale.quantity else nought

  -- Every listed lot is open, and the fuel is enough for each list.
  abbrev pub AreOpen : ℕ → Books D → Type 0
  AreOpen fuel books =
      (symbol : String) → All IsOpen (lots_of books symbol) × (length (lots_of books symbol) < fuel)

  pub length-IsFifo :
      (multiplier : D) (buys : List (StockBuy D)) (closing : Closing D)
      → IsFifo multiplier buys closing
      → length closing.symbol_buys ≤ length buys
  unfolding push pop
  length-IsFifo multiplier _ _ (untouched buys) = omega arith
  length-IsFifo multiplier _ _ (sold_in_part buy buys quantity _ _) = omega arith
  length-IsFifo multiplier _ _ (sold_out buy buys quantity closing _ fifo) =
      omega (arith, length-IsFifo multiplier buys closing fifo)

  pub get_multiplier-none :
      (splits : StockSplits) (symbol : String) (from_time to_time : ℤ)
      → get splits symbol ≡ none
      → get_multiplier ⦃d = d⦄ splits symbol from_time to_time ≡ ok (dec 1 0)
  unfolding get_multiplier
  get_multiplier-none splits symbol from_time to_time e =
      elim (Bool-cases (eqb_ℤ from_time to_time)) [
        | inl e' ↦ rw (e, e') refl
        | inr e' ↦ elim (Bool-cases (ltb_ℤ from_time to_time)) [
          | inl e'' ↦ rw (e, e', e'') refl
          | inr e'' ↦ rw (e, e', e'') refl
        ]
      ]

  pub process_lem :
      (sale : StockSell D) (sources : List (StockSellSource D))
      → is_processed sale ≡ false
      → taken sources ≈ sale.quantity
      → process sale sources ≡ ok (record sale { sources = sources })
  unfolding process covered
  process_lem sale sources e sum =
      let exact : eqd (covered sources) sale.quantity ≡ true = ground (
        arith,
        sum,
        nought_parts d,
        sum_from-total (λ (s : StockSellSource D). s.multiplier ⊗ s.quantity) nought sources,
        d.add_parts nought (taken sources),
      ) in
      rw (e, exact) refl

  -- The books and the sale after it, or the error; a panic is none of them.
  abbrev pub Sold : StockSplits → ℕ → Books D → StockSell D → Type 0
  Sold splits fuel books sale =
      ((closing : Closing D) × (process_sale splits fuel books sale
          ≡ ok (
            record {
              unsold_buys = insert books.unsold_buys sale.symbol closing.symbol_buys;
              closed = books.closed ++ closing.closed;
            },
            record sale { sources = closing.sources },
          ))
        × IsClosed (dec 1 0) sale.quantity (lots_of books sale.symbol) closing)
      ⊎ ((process_sale splits fuel books sale ≡ err (no_open_positions sale.original_symbol))
          × ((get books.unsold_buys sale.symbol ≡ none)
              ⊎ (unsold (lots_of books sale.symbol) ≺ sale.quantity)))

  pub close_position-Sold :
      (splits : StockSplits) (fuel : ℕ) (books : Books D) (sale : StockSell D)
      → get splits sale.symbol ≡ none
      → is_processed sale ≡ false
      → nought ≼ sale.quantity
      → AreOpen fuel books
      → (found : Option (List (StockBuy D))) → get books.unsold_buys sale.symbol ≡ found
      → Sold splits fuel books sale
  unfolding process_sale close_position get_or total
  close_position-Sold splits fuel books sale unsplit fresh h sound none e =
      inr (rw (fresh, e) refl, inl e)
  close_position-Sold splits fuel books sale unsplit fresh h sound (some buys) e =
      let multiplier_of : StockBuy D → Result TradeError D =
        λ buy. get_multiplier splits sale.symbol buy.conclusion_time sale.conclusion_time in
      let lots : lots_of books sale.symbol ≡ buys = rw e refl in
      let (all, enough) =
        subst (λ (l : List (StockBuy D)). All IsOpen l × (length l < fuel)) lots
          (sound sale.symbol) in
      let one : IsOne {D = D} (dec 1 0) = omega (arith, d.dec_parts 1 0 (omega arith)) in
      let gives : (buy : StockBuy D) → multiplier_of buy ≡ ok (dec 1 0) = λ buy.
        get_multiplier-none splits sale.symbol buy.conclusion_time sale.conclusion_time unsplit in
      elim (close-Outcome multiplier_of sale.original_symbol (dec 1 0) one gives fuel sale.quantity
        buys all h enough) [
          | inl (closing, closes, good) ↦ inl (
            closing,
            rw (fresh, e, closes, process_lem sale closing.sources fresh good.3) refl,
            rw e good,
          )
          | inr (fails, short) ↦ inr (rw (fresh, e, fails) refl, inr (rw e short))
        ]

  -- A sale that is not processed yet, of a quantity that is not negative and of a symbol without
  -- splits, with enough fuel: it is closed against the open lots of its symbol, first in first out,
  -- by sources that come to its quantity, or the sale is refused, and then there is no list of lots
  -- of its symbol or they come to less than the quantity. No assertion fails.
  pub process_sale-Sold :
      (splits : StockSplits) (fuel : ℕ) (books : Books D) (sale : StockSell D)
      → get splits sale.symbol ≡ none
      → is_processed sale ≡ false
      → nought ≼ sale.quantity
      → AreOpen fuel books
      → Sold splits fuel books sale
  process_sale-Sold splits fuel books sale unsplit fresh h sound =
      close_position-Sold splits fuel books sale unsplit fresh h sound
        (get books.unsold_buys sale.symbol) refl
