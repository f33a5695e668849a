-- ===== src/BrokerStatement/Processing/Trade.antt =====
-- The sales of a statement, one after the other, against the positions that its lots come to. Here no
-- symbol has a stock split.
use investments.Base.{
  ◌≡◌, refl, ap, subst, Result, ◌⊎◌, inl, inr, String, ℕ, false, none, List, [], ◌∷◌, ◌++◌, ok, err,
  if◌then◌else◌, All, Bool-cases, arith,
}
use investments.Base.Names.{strings, get, insert, get_or-insert, get-insert-none}
use investments.Base.Totals.{total}
use investments.Base.Decimal.{Decimal, nought, dec, ◌⊕◌, ◌≼◌, ◌≺◌, ◌≈◌, nought_parts}
use investments.BrokerStatement.Trades.{
  StockBuy, StockSell, TradeError, no_open_positions, is_processed,
}
use investments.BrokerStatement.StockSplits.{StockSplits}
use investments.BrokerStatement.Processing.{Closing, Books, process_sales}
use investments.BrokerStatement.Processing.Fifo.{unsold, taken, IsClosed}
use investments.BrokerStatement.Processing.Sale.{
  lots_of, sold_of, AreOpen, length-IsFifo, process_sale-Sold,
}

module _ {D : Type 0} ⦃d : Decimal D⦄ where
  -- The books after a sale that is not refused.
  after_sale :
      (fuel : ℕ) (books : Books D) (sale : StockSell D) (closing : Closing D)
      → AreOpen fuel books
      → IsClosed (dec 1 0) sale.quantity (lots_of books sale.symbol) closing
      → let books' : Books D = record {
        unsold_buys = insert books.unsold_buys sale.symbol closing.symbol_buys;
        closed = books.closed ++ closing.closed;
      } in
        AreOpen fuel books'
        × ((symbol : String)
            → unsold (lots_of books' symbol) ⊕ sold_of symbol sale ≈ unsold (lots_of books symbol))
  unfolding sold_of
  after_sale fuel books sale closing sound (_, fifo, all, _, remain) =
      let books' : Books D = record {
        unsold_buys = insert books.unsold_buys sale.symbol closing.symbol_buys;
        closed = books.closed ++ closing.closed;
      } in
      let lots : (symbol : String)
          → lots_of books' symbol ≡ (
              if strings.same sale.symbol symbol
              then closing.symbol_buys
              else lots_of books symbol) =
        λ symbol. get_or-insert [] books.unsold_buys sale.symbol symbol closing.symbol_buys in
      let shorter = length-IsFifo (dec 1 0) (lots_of books sale.symbol) closing fifo in
      (
        λ symbol. elim (Bool-cases (strings.same sale.symbol symbol)) [
          | inl e ↦ rw (lots symbol, e) (all, omega (arith, shorter, (sound sale.symbol).1))
          | inr e ↦ rw (lots symbol, e) (sound symbol)
        ],
        λ symbol. elim (Bool-cases (strings.same sale.symbol symbol)) [
          | inl e ↦
              subst
                (λ (s : String).
                  unsold (lots_of books' symbol)
                    ⊕ (if strings.same sale.symbol symbol then sale.quantity else nought)
                  ≈ unsold (lots_of books s))
                ((strings.same_iff sale.symbol symbol).0 e) (rw (lots symbol, e) remain)
          | inr e ↦
              rw (lots symbol, e)
                (omega (arith, nought_parts d, d.add_parts (unsold (lots_of books symbol)) nought))
        ],
      )

  -- What is asked of a sale: no splits, no sources yet, and a quantity that is not negative.
  abbrev pub IsFresh : StockSplits → StockSell D → Type 0
  IsFresh splits sale =
      (get splits sale.symbol ≡ none) × (is_processed sale ≡ false) × (nought ≼ sale.quantity)

  -- Each sale has got sources that come to its quantity, and is otherwise as before.
  abbrev pub AreCovered : List (StockSell D) → List (StockSell D) → Type 0
  AreCovered [] after = after ≡ []
  AreCovered (sale ∷ sales) [] = (sale ∷ sales) ≡ []
  AreCovered (sale ∷ sales) (sale' ∷ after) =
      (sale' ≡ record sale { sources = sale'.sources })
      × (taken sale'.sources ≈ sale.quantity)
      × AreCovered sales after

  -- The first of the sales that the lots do not cover is refused.
  abbrev pub IsRefused :
      Books D → List (StockSell D) → Result TradeError (Books D × List (StockSell D)) → Type 0
  IsRefused books sales returned =
      (before : List (StockSell D)) × (sale : StockSell D) × (later : List (StockSell D)) × (sales
        ≡ before ++ (sale ∷ later))
      × (returned ≡ err (no_open_positions sale.original_symbol))
      × ((get books.unsold_buys sale.symbol ≡ none)
          ⊎ (unsold (lots_of books sale.symbol)
              ≺ total (sold_of sale.symbol) before ⊕ sale.quantity))

  -- A refusal after a sale that is not refused, in the books before that sale.
  IsRefused-later :
      (books books' : Books D) (sale : StockSell D) (sales : List (StockSell D))
      (lots : List (StockBuy D)) (returned : Result TradeError (Books D × List (StockSell D)))
      → books'.unsold_buys ≡ insert books.unsold_buys sale.symbol lots
      → ((symbol : String)
          → unsold (lots_of books' symbol) ⊕ sold_of symbol sale ≈ unsold (lots_of books symbol))
      → IsRefused books' sales returned
      → IsRefused books (sale ∷ sales) returned
  unfolding total
  IsRefused-later books books' sale sales lots returned put kept
        (before, refused, later, split, fails, want) =
      let symbol = refused.symbol in
      let sold = total (sold_of symbol) before in
      (
        sale ∷ before,
        refused,
        later,
        ap (λ (l : List (StockSell D)). sale ∷ l) split,
        fails,
        elim want [
          | inl missing ↦ inl (
              (get-insert-none books.unsold_buys sale.symbol symbol lots
                (subst (λ m. get m symbol ≡ none) put missing)).1)
          | inr short ↦ inr (
              omega (
                arith,
                short,
                kept symbol,
                d.add_parts (unsold (lots_of books' symbol)) (sold_of symbol sale),
                d.add_parts sold refused.quantity,
                d.add_parts (sold_of symbol sale) sold,
                d.add_parts (sold_of symbol sale ⊕ sold) refused.quantity,
              ))
        ],
      )

  -- Sales that are not processed yet, of symbols without splits and of quantities that are not
  -- negative, with enough fuel for the open lots of each symbol: they are all closed, or one of them
  -- is refused, whose symbol has no list of lots, or lots that come to less than what it and the
  -- sales before it take, and no assertion fails. Closed, each has sources that come to its
  -- quantity, every lot that is listed is still open, and of each symbol the unsold lots and what
  -- the sales took of it make up the unsold lots before.
  pub process_sales-AreCovered :
      (splits : StockSplits) (fuel : ℕ) (books : Books D) (sales : List (StockSell D))
      → All (IsFresh splits) sales
      → AreOpen fuel books
      → ((books' : Books D) × (after : List (StockSell D)) × (process_sales splits fuel books sales
            ≡ ok (books', after))
          × AreCovered sales after
          × AreOpen fuel books'
          × ((symbol : String)
              → unsold (lots_of books' symbol) ⊕ total (sold_of symbol) sales
                ≈ unsold (lots_of books symbol)))
        ⊎ IsRefused books sales (process_sales splits fuel books sales)
  unfolding process_sales total
  process_sales-AreCovered splits fuel books [] _ sound = inl (
    books,
    [],
    refl,
    refl,
    sound,
    λ symbol. omega (arith, nought_parts d, d.add_parts (unsold (lots_of books symbol)) nought),
  )
  process_sales-AreCovered splits fuel books (sale ∷ sales) ((unsplit, fresh, h), others) sound =
      elim (process_sale-Sold splits fuel books sale unsplit fresh h sound) [
        | inr (fails, want) ↦ inr (
          [],
          sale,
          sales,
          refl,
          rw fails refl,
          elim want [
            | inl missing ↦ inl missing
            | inr short ↦
                inr (omega (arith, short, nought_parts d, d.add_parts nought sale.quantity))
          ],
        )
        | inl (closing, closes, good) ↦
            let books' : Books D = record {
              unsold_buys = insert books.unsold_buys sale.symbol closing.symbol_buys;
              closed = books.closed ++ closing.closed;
            } in
            let (sound', kept) = after_sale fuel books sale closing sound good in
            elim (process_sales-AreCovered splits fuel books' sales others sound') [
              | inr (before, refused, later, split, fails, want) ↦ inr (
                  IsRefused-later books books' sale sales closing.symbol_buys
                    (process_sales splits fuel books (sale ∷ sales)) refl kept
                    (before, refused, later, split, rw (closes, fails) refl, want))
              | inl (books'', after, done, covered_all, sound'', kept') ↦ inl (
                books'',
                record sale { sources = closing.sources } ∷ after,
                rw (closes, done) refl,
                (refl, good.3, covered_all),
                sound'',
                λ symbol. omega (
                  arith,
                  kept symbol,
                  kept' symbol,
                  d.add_parts (unsold (lots_of books' symbol)) (sold_of symbol sale),
                  d.add_parts (unsold (lots_of books'' symbol)) (total (sold_of symbol) sales),
                  d.add_parts (sold_of symbol sale) (total (sold_of symbol) sales),
                  d.add_parts (unsold (lots_of books'' symbol))
                      (sold_of symbol sale ⊕ total (sold_of symbol) sales),
                ),
              )
            ]
      ]
