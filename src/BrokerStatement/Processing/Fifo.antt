-- ===== src/BrokerStatement/Processing/Fifo.antt =====
-- What first in, first out means for a sale.
use investments.Base.{◌≡◌, true, List, [], ◌∷◌, All}
use investments.Base.Totals.{total}
use investments.Base.Decimal.{Decimal, nought, ◌⊕◌, ◌⊗◌, ◌≼◌, ◌≺◌, ◌≈◌}
use investments.BrokerStatement.Trades.{StockBuy, StockSellSource, is_sold, get_unsold, source_of}
use investments.BrokerStatement.Processing.{Closing, push, pop}
use investments.BrokerStatement.Processing.Lot.{IsOpen, sold_by}

-- How a sale may leave the lots: the first ones sold out, in order, then at most one in part, and the
-- later ones untouched; with one source for each lot that it takes.
pub data IsFifo {D : Type 0} ⦃d : Decimal D⦄ (multiplier : D)
    : List (StockBuy D) → Closing D → Type 0 where
  untouched :
      (buys : List (StockBuy D))
      → IsFifo multiplier buys (record { symbol_buys = buys; closed = []; sources = [] })
  sold_in_part :
      (buy : StockBuy D) (buys : List (StockBuy D)) (quantity : D)
      → nought ≺ quantity
      → IsOpen (sold_by buy quantity)
      → IsFifo multiplier (buy ∷ buys) (record {
        symbol_buys = sold_by buy quantity ∷ buys;
        closed = [];
        sources = source_of buy quantity multiplier ∷ [];
      })
  sold_out :
      (buy : StockBuy D) (buys : List (StockBuy D)) (quantity : D) (closing : Closing D)
      → is_sold (sold_by buy quantity) ≡ true
      → IsFifo multiplier buys closing
      → IsFifo multiplier
          (buy ∷ buys)
          (push (source_of buy quantity multiplier) (pop (sold_by buy quantity) closing))

module _ {D : Type 0} ⦃d : Decimal D⦄ where
  -- What is left of the lots, and what the sources come to.
  abbrev pub unsold : List (StockBuy D) → D
  unsold buys = total get_unsold buys

  abbrev pub taken : List (StockSellSource D) → D
  taken sources = total (λ source. source.multiplier ⊗ source.quantity) sources

  -- A sale of no more than is left, and what it leaves.
  abbrev pub IsClosed : D → D → List (StockBuy D) → Closing D → Type 0
  IsClosed multiplier q buys closing =
      (q ≼ unsold buys)
      × IsFifo multiplier buys closing
      × All IsOpen closing.symbol_buys
      × (taken closing.sources ≈ q)
      × (unsold closing.symbol_buys ⊕ q ≈ unsold buys)
