-- ===== src/BrokerStatement/Processing/Positions.antt =====
-- The positions of a statement: what its lots come to, as the code adds them up, and what the sales
-- leave of them. Here no symbol has a stock split.
use investments.Base.{
  ◌≡◌, refl, subst, ◌⊎◌, inl, inr, String, ℕ, ◌<◌, Option, none, some, List, [], ◌∷◌, ◌++◌, ok, err,
  if◌then◌else◌, All, length, Bool-cases, arith,
}
use investments.Base.Int.{ℤ}
use investments.Base.Names.{strings, get, get_or, insert, get_or-insert}
use investments.Base.Totals.{total}
use investments.Base.Decimal.{Decimal, nought, dec, ◌⊕◌, ◌⊖◌, ◌⊗◌, ◌≺◌, ◌≈◌, nought_parts}
use investments.BrokerStatement.Trades.{StockBuy, StockSell, no_open_positions, is_sold, get_unsold}
use investments.BrokerStatement.StockSplits.{StockSplits}
use investments.BrokerStatement.Processing.{
  Books, process_trades, unsold_buys_of, add_open_position, modify_or_insert,
  calculate_open_positions,
}
use investments.BrokerStatement.Processing.Fifo.{unsold}
use investments.BrokerStatement.Processing.Trade.{IsFresh, AreCovered, process_sales-AreCovered}
use investments.BrokerStatement.Processing.Sale.{lots_of, sold_of, AreOpen, get_multiplier-none}
use investments.BrokerStatement.Processing.Listed.{
  IsLot, HasNone, left_of, position, sold_left, unsold_buys_of-AreListed, unsold_buys_of-HasNone,
}

module _ {D : Type 0} ⦃d : Decimal D⦄ where
  -- From lots of which no more is sold than there is, and sales that are not processed yet, of
  -- symbols without splits and of quantities that are not negative, with more fuel than there are
  -- lots: `process_trades`, up to the comparison with the declared positions that ends it and for
  -- all trades whatever their date, closes all sales or refuses one, and no assertion fails. Where it
  -- closes them, each sale has sources that come to its quantity, and of each symbol the unsold lots
  -- and what was sold make up its position before. Where it refuses a sale, the error names it, and
  -- no lot of its symbol has shares left, or its position is less than what this sale and the sales
  -- before it take.
  pub process_trades-refines :
      (splits : StockSplits) (fuel : ℕ) (buys : List (StockBuy D)) (sales : List (StockSell D))
      → All IsLot buys
      → All (IsFresh splits) sales
      → length buys < fuel
      → ((books : Books D) × (after : List (StockSell D)) × (process_trades splits fuel buys sales
            ≡ ok (books, after))
          × AreCovered sales after
          × AreOpen fuel books
          × ((symbol : String)
              → unsold (lots_of books symbol) ⊕ total (sold_of symbol) sales
                ≈ position symbol buys))
        ⊎ ((before : List (StockSell D)) × (sale : StockSell D) × (later : List (StockSell D))
            × (sales ≡ before ++ (sale ∷ later))
            × (process_trades splits fuel buys sales ≡ err (no_open_positions sale.original_symbol))
            × (HasNone sale.symbol buys
                ⊎ (position sale.symbol buys ≺ total (sold_of sale.symbol) before ⊕ sale.quantity)))
  unfolding process_trades
  process_trades-refines splits fuel buys sales lots fresh enough =
      let before : Books D = record { unsold_buys = unsold_buys_of buys; closed = [] } in
      let sound : AreOpen fuel before = λ symbol.
        let (opened, short, _) = unsold_buys_of-AreListed symbol buys lots in
        (opened, omega (arith, short, enough)) in
      elim (process_sales-AreCovered splits fuel before sales fresh sound) [
        | inr (done, sale, later, split, fails, want) ↦ inr (
          done,
          sale,
          later,
          split,
          fails,
          elim want [
            | inl missing ↦ inl (unsold_buys_of-HasNone sale.symbol buys missing)
            | inr short ↦
                let (_, _, sum) = unsold_buys_of-AreListed sale.symbol buys lots in
                inr (omega (arith, short, sum))
          ],
        )
        | inl (books, after, done, covered, sound', kept) ↦ inl (
          books,
          after,
          done,
          covered,
          sound',
          λ symbol.
              let (_, _, sum) = unsold_buys_of-AreListed symbol buys lots in
              omega (arith, kept symbol, sum),
        )
      ]

  -- The new value of a symbol in the map.
  put_position :
      (positions : List (String × D)) (name symbol : String) (old value u : D)
      → get_or nought positions name ≡ old
      → value ≈ old ⊕ u
      → get_or nought (insert positions name value) symbol
        ≈ get_or nought positions symbol ⊕ (if strings.same name symbol then u else nought)
  put_position positions name symbol old value u e sum =
      let put = get_or-insert nought positions name symbol value in
      elim (Bool-cases (strings.same name symbol)) [
        | inl same ↦
            let found : get_or nought positions symbol ≡ old =
              subst (λ (s : String). get_or nought positions s ≡ old)
                ((strings.same_iff name symbol).0 same) e in
            rw (put, same, found) sum
        | inr other ↦
            rw (put, other)
              (omega (arith, nought_parts d, d.add_parts (get_or nought positions symbol) nought))
      ]

  add_found :
      (symbol : String) (positions : List (String × D)) (buy : StockBuy D) (found : Option D)
      → get positions buy.symbol ≡ found
      → get_or nought
          (modify_or_insert positions buy.symbol (dec 1 0 ⊗ get_unsold buy) found)
          symbol
        ≈ get_or nought positions symbol ⊕ left_of symbol buy
  unfolding modify_or_insert left_of get_or get_unsold
  add_found symbol positions buy none e =
      let u = buy.quantity ⊖ buy.sold in
      let q = dec 1 0 ⊗ u in
      let one = d.mul_one u (dec 1 0) (omega (arith, d.dec_parts 1 0 (omega arith))) in
      put_position positions buy.symbol symbol nought q u (rw e refl)
        (omega (arith, one, d.mul_comm (dec 1 0) u, nought_parts d, d.add_parts nought u))
  add_found symbol positions buy (some p) e =
      let u = buy.quantity ⊖ buy.sold in
      let q = dec 1 0 ⊗ u in
      let one = d.mul_one u (dec 1 0) (omega (arith, d.dec_parts 1 0 (omega arith))) in
      put_position positions buy.symbol symbol p (p ⊕ q) u (rw e refl)
        (omega (arith, one, d.mul_comm (dec 1 0) u, d.add_parts p q, d.add_parts p u))

  -- Where no symbol of the lots has a split, `calculate_open_positions` finds every position, added to what the map
  -- has already.
  pub calculate_open_positions-eq-position :
      (splits : StockSplits) (end : ℤ) (positions : List (String × D)) (buys : List (StockBuy D))
      → All (λ (buy : StockBuy D). get splits buy.symbol ≡ none) buys
      → (positions' : List (String × D)) × (calculate_open_positions splits end positions buys
          ≡ ok positions')
        × ((symbol : String)
            → get_or nought positions' symbol
              ≈ get_or nought positions symbol ⊕ position symbol buys)
  unfolding calculate_open_positions add_open_position position total
  calculate_open_positions-eq-position splits end positions [] _ = (
    positions,
    refl,
    λ symbol. omega (arith, nought_parts d, d.add_parts (get_or nought positions symbol) nought),
  )
  calculate_open_positions-eq-position splits end positions (buy ∷ buys) (unsplit, all) =
      elim (Bool-cases (is_sold buy)) [
        | inl e ↦
            let (positions', done, sums) =
              calculate_open_positions-eq-position splits end positions buys all in
            (
              positions',
              rw (e, done) refl,
              λ symbol. omega (
                arith,
                sums symbol,
                sold_left symbol buy e,
                nought_parts d,
                d.add_parts (get_or nought positions symbol) (position symbol buys),
                d.add_parts (left_of symbol buy) (position symbol buys),
                d.add_parts (get_or nought positions symbol)
                    (left_of symbol buy ⊕ position symbol buys),
              ),
            )
        | inr e ↦
            let added = add_open_position positions buy (dec 1 0) in
            let (positions', done, sums) =
              calculate_open_positions-eq-position splits end added buys all in
            let one =
              get_multiplier-none ⦃d = d⦄ splits buy.symbol buy.conclusion_time end unsplit in
            (
              positions',
              rw (e, one, done) refl,
              λ symbol. omega (
                arith,
                sums symbol,
                add_found symbol positions buy (get positions buy.symbol) refl,
                d.add_parts (get_or nought added symbol) (position symbol buys),
                d.add_parts (get_or nought positions symbol) (left_of symbol buy),
                d.add_parts (left_of symbol buy) (position symbol buys),
                d.add_parts (get_or nought positions symbol)
                    (left_of symbol buy ⊕ position symbol buys),
              ),
            )
      ]
