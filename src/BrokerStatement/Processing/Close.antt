-- ===== src/BrokerStatement/Processing/Close.antt =====
-- The loop that closes a position, against what first in, first out means.
use investments.Base.{
  ◌≡◌, refl, ◌⊎◌, inl, inr, String, ℕ, zero, suc, ◌<◌, true, false, List, [], ◌∷◌, Result, ok, err,
  All, length, Bool-cases, arith,
}
use investments.Base.Totals.{total}
use investments.Base.Decimal.{
  Decimal, nought, ◌⊕◌, ◌⊖◌, ◌⊗◌, ◌≼◌, ◌≺◌, ◌≈◌, min, is_zero, nought_parts,
}
use investments.BrokerStatement.Trades.{
  StockBuy, TradeError, no_open_positions, is_sold, get_unsold, source_of,
}
use investments.BrokerStatement.Processing.{Closing, push, pop, close}
use investments.BrokerStatement.Processing.Lot.{IsOpen, IsOne, sold_by, take_lot_lem}
use investments.BrokerStatement.Processing.Fifo.{
  untouched, sold_in_part, sold_out, unsold, taken, IsClosed,
}

module _ {D : Type 0} ⦃d : Decimal D⦄ (multiplier_of : StockBuy D → Result TradeError D)
    (name : String) where
  -- With nothing to be sold, the loop ends at once.
  close_zero :
      (fuel : ℕ) (q : D) (buys : List (StockBuy D))
      → is_zero q ≡ true
      → close multiplier_of name fuel q buys
        ≡ ok (record { symbol_buys = buys; closed = []; sources = [] })
  unfolding close
  close_zero zero q buys e = rw e refl
  close_zero (suc fuel) q [] e = rw e refl
  close_zero (suc fuel) q (buy ∷ buys) e = rw e refl

  abbrev pub Outcome : D → ℕ → D → List (StockBuy D) → Type 0
  Outcome multiplier fuel q buys =
      ((closing : Closing D) × (close multiplier_of name fuel q buys ≡ ok closing)
        × IsClosed multiplier q buys closing)
      ⊎ ((close multiplier_of name fuel q buys ≡ err (no_open_positions name)) × (unsold buys ≺ q))

  module _ (multiplier : D) (one : IsOne multiplier)
      (gives : (buy : StockBuy D) → multiplier_of buy ≡ ok multiplier) where
    -- A lot is sold out, and the later ones have enough.
    out_of_lot :
        (q t rest : D) (buy : StockBuy D) (buys : List (StockBuy D)) (closing : Closing D)
        → is_sold (sold_by buy t) ≡ true
        → multiplier ⊗ t ≈ t
        → rest ⊕ t ≈ q
        → IsClosed multiplier rest buys closing
        → IsClosed multiplier q
            (buy ∷ buys)
            (push (source_of buy t multiplier) (pop (sold_by buy t) closing))
    unfolding total push pop is_sold get_unsold source_of
    out_of_lot q t rest buy buys closing sold product left (enough, fifo, all, sum, remain) =
        let u = get_unsold buy in
        let is_u : t ≈ u =
          ground (arith, sold, d.add_parts buy.sold t, d.sub_parts buy.quantity buy.sold) in
        let before = d.add_parts u (unsold buys) in
        let parts = d.add_parts rest t in
        let after = d.add_parts (multiplier ⊗ t) (taken closing.sources) in
        let both = d.add_parts (unsold closing.symbol_buys) rest in
        let both' = d.add_parts (unsold closing.symbol_buys) q in
        (
          omega (arith, is_u, before, parts, left, enough),
          sold_out buy buys t closing sold fifo,
          all,
          omega (arith, product, parts, left, after, sum),
          omega (arith, is_u, before, parts, left, both, both', remain),
        )

    -- A lot is sold in part, which is all of the sale.
    in_part :
        (q t : D) (buy : StockBuy D) (buys : List (StockBuy D))
        → All IsOpen (buy ∷ buys)
        → nought ≺ q
        → t ≈ q
        → q ≺ get_unsold buy
        → nought ≼ unsold buys
        → multiplier ⊗ t ≈ t
        → IsClosed multiplier q (buy ∷ buys) (record {
          symbol_buys = sold_by buy t ∷ buys;
          closed = [];
          sources = source_of buy t multiplier ∷ [];
        })
    unfolding total get_unsold source_of
    in_part q t buy buys ((h, h'), all) pos same less later product =
        let z = nought_parts d in
        let u = d.sub_parts buy.quantity buy.sold in
        let sum = d.add_parts buy.sold t in
        let before = d.add_parts (buy.quantity ⊖ buy.sold) (unsold buys) in
        let still : IsOpen (sold_by buy t) =
          (omega (arith, h, sum, same, pos, z), omega (arith, u, sum, same, less)) in
        let left = buy.quantity ⊖ (buy.sold ⊕ t) in
        (
          omega (arith, before, less, later, z),
          sold_in_part buy buys t (omega (arith, same, pos)) still,
          (still, all),
          omega (arith, product, same, z, d.add_parts (multiplier ⊗ t) nought),
          omega (
            arith,
            u,
            sum,
            same,
            before,
            d.sub_parts buy.quantity (buy.sold ⊕ t),
            d.add_parts left (unsold buys),
            d.add_parts (left ⊕ unsold buys) q,
          ),
        )

    unsold_nonneg : (buys : List (StockBuy D)) → All IsOpen buys → nought ≼ unsold buys
    unfolding total get_unsold
    unsold_nonneg [] _ = omega arith
    unsold_nonneg (buy ∷ buys) ((h, h'), all) = omega (
      arith,
      h',
      unsold_nonneg buys all,
      nought_parts d,
      d.sub_parts buy.quantity buy.sold,
      d.add_parts (buy.quantity ⊖ buy.sold) (unsold buys),
    )

    too_short :
        (q t rest : D) (buy : StockBuy D) (buys : List (StockBuy D))
        → is_sold (sold_by buy t) ≡ true
        → rest ⊕ t ≈ q
        → unsold buys ≺ rest
        → unsold (buy ∷ buys) ≺ q
    unfolding total is_sold get_unsold
    too_short q t rest buy buys sold left short =
        let u = buy.quantity ⊖ buy.sold in
        let is_u : t ≈ u =
          ground (arith, sold, d.add_parts buy.sold t, d.sub_parts buy.quantity buy.sold) in
        omega (arith, is_u, left, short, d.add_parts rest t, d.add_parts u (unsold buys))

    -- A lot that is not sold out has had all of the sale.
    all_taken :
        (q t : D) (buy : StockBuy D)
        → is_sold (sold_by buy t) ≡ false
        → t ≈ min q (get_unsold buy)
        → (t ≈ q) × (q ≺ get_unsold buy)
    unfolding is_sold get_unsold
    all_taken q t buy kept is_t =
        let sum = d.add_parts buy.sold t in
        let u = d.sub_parts buy.quantity buy.sold in
        (ground (arith, kept, is_t, sum, u), ground (arith, kept, is_t, sum, u))

    nothing_left :
        (q : D) (buys : List (StockBuy D))
        → All IsOpen buys
        → is_zero q ≡ true
        → IsClosed multiplier q buys (record { symbol_buys = buys; closed = []; sources = [] })
    unfolding total
    nothing_left q buys all e = (
      ground (arith, e, unsold_nonneg buys all, nought_parts d),
      untouched buys,
      all,
      ground (arith, e, nought_parts d),
      ground (arith, e, nought_parts d, d.add_parts (unsold buys) q),
    )

    pub close-Outcome :
        (fuel : ℕ) (q : D) (buys : List (StockBuy D))
        → All IsOpen buys
        → nought ≼ q
        → length buys < fuel
        → Outcome multiplier fuel q buys
    unfolding close is_sold total push pop get_unsold
    close-Outcome zero q buys all h enough = absurd (omega (arith, enough))
    close-Outcome (suc fuel) q [] all h enough = elim (Bool-cases (is_zero q)) [
      | inl e ↦ inl (
        record { symbol_buys = []; closed = []; sources = [] },
        rw e refl,
        nothing_left q [] tt e,
      )
      | inr e ↦ inr (rw e refl, ground (arith, e, h, nought_parts d))
    ]
    close-Outcome (suc fuel) q (buy ∷ buys) (o, all) h enough = elim (Bool-cases (is_zero q)) [
      | inl e ↦ inl (
        record { symbol_buys = buy ∷ buys; closed = []; sources = [] },
        rw e refl,
        nothing_left q (buy ∷ buys) (o, all) e,
      )
      | inr e ↦
          let some_left : nought ≺ q = ground (arith, e, h, nought_parts d) in
          let (t, rest, done, is_t, product, left) =
            take_lot_lem buy q multiplier o some_left one in
          elim (Bool-cases (is_sold (sold_by buy t))) [
            | inl sold ↦
                let later : nought ≼ rest =
                  ground (arith, is_t, left, nought_parts d, d.add_parts rest t) in
                elim (close-Outcome fuel rest buys all later (omega (arith, enough))) [
                  | inl (closing, closes, good) ↦ inl (
                    push (source_of buy t multiplier) (pop (sold_by buy t) closing),
                    rw (e, gives buy, done, sold, closes) refl,
                    out_of_lot q t rest buy buys closing sold product left good,
                  )
                  | inr (fails, short) ↦ inr (
                    rw (e, gives buy, done, sold, fails) refl,
                    too_short q t rest buy buys sold left short,
                  )
                ]
            | inr kept ↦
                let (same, less) = all_taken q t buy kept is_t in
                let nothing : is_zero rest ≡ true =
                  ground (arith, same, left, d.add_parts rest t) in
                inl (
                  record {
                    symbol_buys = sold_by buy t ∷ buys;
                    closed = [];
                    sources = source_of buy t multiplier ∷ [];
                  },
                  rw (e, gives buy, done, kept, close_zero fuel rest (sold_by buy t ∷ buys) nothing)
                      refl,
                  in_part q t buy buys (o, all) some_left same less (unsold_nonneg buys all)
                      product,
                )
          ]
    ]
