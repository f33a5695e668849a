-- ===== src/BrokerStatement/Processing/Listed.antt =====
-- The lots that process_trades lists, against the positions of a statement.
use investments.Base.{
  ◌≡◌, ◌≢◌, ◌⊎◌, none, sym, subst, inl, inr, String, ◌≤◌, true, false, List, [], ◌∷◌, if◌then◌else◌,
  All, length, Bool-cases, arith,
}
use investments.Base.Names.{strings, get, get_or, get_or-insert, get-insert-none}
use investments.Base.Totals.{total}
use investments.Base.Decimal.{Decimal, nought, ◌≼◌, ◌≈◌, nought_parts}
use investments.BrokerStatement.Trades.{StockBuy, is_sold, get_unsold}
use investments.BrokerStatement.Processing.{unsold_buys_of}
use investments.BrokerStatement.Processing.Lot.{IsOpen}
use investments.BrokerStatement.Processing.Fifo.{unsold}

module _ {D : Type 0} ⦃d : Decimal D⦄ where
  -- A lot of which no more is sold than there is.
  abbrev pub IsLot : StockBuy D → Type 0
  IsLot buy = (nought ≼ buy.sold) × (buy.sold ≼ buy.quantity)

  -- What is left of the lots of a symbol.
  unfoldable pub left_of : String → StockBuy D → D
  left_of symbol buy = if strings.same buy.symbol symbol then get_unsold buy else nought

  unfoldable pub position : String → List (StockBuy D) → D
  position symbol buys = total (left_of symbol) buys

  pub sold_left :
      (symbol : String) (buy : StockBuy D) → is_sold buy ≡ true → left_of symbol buy ≈ nought
  unfolding left_of is_sold get_unsold
  sold_left symbol buy e = elim (Bool-cases (strings.same buy.symbol symbol)) [
    | inl e' ↦ rw e' (ground (arith, e, nought_parts d, d.sub_parts buy.quantity buy.sold))
    | inr e' ↦ rw e' (omega arith)
  ]

  abbrev pub AreListed : String → List (StockBuy D) → List (StockBuy D) → Type 0
  AreListed symbol buys lots =
      All IsOpen lots × (length lots ≤ length buys) × (unsold lots ≈ position symbol buys)

module _ (D : Type 0) ⦃d : Decimal D⦄ where
  pub none_listed : (symbol : String) → AreListed {D = D} symbol [] (get_or [] [] symbol)
  unfolding position total get_or get
  none_listed symbol = (tt, omega arith, omega arith)

module _ {D : Type 0} ⦃d : Decimal D⦄ where
  pub listed_more :
      (symbol : String) (buy : StockBuy D) (buys : List (StockBuy D))
      (rest : List (String × List (StockBuy D)))
      → is_sold buy ≡ false
      → IsLot buy
      → AreListed symbol buys (get_or [] rest symbol)
      → AreListed symbol (buy ∷ buys) (
          if strings.same buy.symbol symbol
          then buy ∷ get_or [] rest buy.symbol
          else get_or [] rest symbol)
  unfolding position total left_of is_sold
  listed_more symbol buy buys rest e (h, h') listed =
      let u = get_unsold buy in
      elim (Bool-cases (strings.same buy.symbol symbol)) [
        | inl same ↦
            let (opened, short, sum) =
              subst (λ (s : String). AreListed symbol buys (get_or [] rest s))
                (sym ((strings.same_iff buy.symbol symbol).0 same)) listed in
            rw same (
              ((h, ground (arith, e, h')), opened),
              omega (arith, short),
              omega (
                arith,
                sum,
                d.add_parts u (unsold (get_or [] rest buy.symbol)),
                d.add_parts u (position symbol buys),
              ),
            )
        | inr other ↦
            let (opened, short, sum) = listed in
            rw other (
              opened,
              omega (arith, short),
              omega (arith, sum, nought_parts d, d.add_parts nought (position symbol buys)),
            )
      ]

  -- No lot of a symbol has shares left.
  abbrev pub HasNone : String → List (StockBuy D) → Type 0
  HasNone symbol buys =
      All (λ (buy : StockBuy D). (buy.symbol ≢ symbol) ⊎ (get_unsold buy ≈ nought)) buys

  pub unsold_buys_of-HasNone :
      (symbol : String) (buys : List (StockBuy D))
      → get (unsold_buys_of buys) symbol ≡ none
      → HasNone symbol buys
  unfolding unsold_buys_of is_sold get_unsold
  unsold_buys_of-HasNone symbol [] _ = tt
  unsold_buys_of-HasNone symbol (buy ∷ buys) missing =
      let rest = unsold_buys_of buys in
      elim (Bool-cases (is_sold buy)) [
        | inl e ↦ (
          inr (ground (arith, e, nought_parts d, d.sub_parts buy.quantity buy.sold)),
          unsold_buys_of-HasNone symbol buys (ground (arith, e, missing)),
        )
        | inr e ↦
            let (differ, missing') =
              get-insert-none rest buy.symbol symbol (buy ∷ get_or [] rest buy.symbol)
                (ground (arith, e, missing)) in
            (
              inl (λ same. ground (arith, differ, (strings.same_iff buy.symbol symbol).1 same)),
              unsold_buys_of-HasNone symbol buys missing',
            )
      ]

  pub unsold_buys_of-AreListed :
      (symbol : String) (buys : List (StockBuy D))
      → All IsLot buys
      → AreListed symbol buys (get_or [] (unsold_buys_of buys) symbol)
  unfolding unsold_buys_of position total
  unsold_buys_of-AreListed symbol [] _ = none_listed D symbol
  unsold_buys_of-AreListed symbol (buy ∷ buys) (lot, all) =
      let rest = unsold_buys_of buys in
      let listed = unsold_buys_of-AreListed symbol buys all in
      elim (Bool-cases (is_sold buy)) [
        | inl e ↦
            let (opened, short, sum) = listed in
            rw e (
              opened,
              omega (arith, short),
              omega (
                arith,
                sum,
                sold_left symbol buy e,
                nought_parts d,
                d.add_parts (left_of symbol buy) (position symbol buys),
              ),
            )
        | inr e ↦
            rw (e, get_or-insert [] rest buy.symbol symbol (buy ∷ get_or [] rest buy.symbol))
              (listed_more symbol buy buys rest e lot listed)
      ]
