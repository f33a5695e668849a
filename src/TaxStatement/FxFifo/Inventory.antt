-- ===== src/TaxStatement/FxFifo/Inventory.antt =====
-- The lots of a currency refine one signed balance: the loop adds the movement to it.
use investments.Base.{◌≡◌, ◌⊎◌, inl, inr, List, [], ◌∷◌, All, All-append, arith}
use investments.Base.Decimal.{Decimal, nought, ◌⊕◌, ◌⊖◌, ◌⊗◌, min, ◌≺◌, ◌≈◌, nought_parts}
use investments.TaxStatement.FxFifo.Data.{Lot, CurrencyFxResult, ForeignCashFlow}
use investments.TaxStatement.FxFifo.Loop.{sign, extend, consume}
use investments.TaxStatement.FxFifo.Crossing.{IsPartOf, Crossed, repays, disposes}
use investments.TaxStatement.FxFifo.Balance.{
  held, moved, held-append, moved-append, IsHeld, IsBorrowed, OneSigned, left_lots, held-left_lots,
  left_lots-rest, left_lots-OneSigned,
}

module _ {Date D : Type 0} ⦃d : Decimal D⦄ where
  -- A movement against the lots: it has the opposite sign.
  abbrev pub Against : D → D → List (Lot Date D) → Type 0
  Against remaining amount lots =
      ((nought ≺ remaining) × (nought ≺ amount) × All IsBorrowed lots)
      ⊎ ((remaining ≺ nought) × (amount ≺ nought) × All IsHeld lots)

  -- What one round must keep, of the remaining movement, the lots and the ledger.
  abbrev pub Kept : D → D × List (Lot Date D) × CurrencyFxResult Date D → D → D → D → Type 0
  Kept amount round remaining balance movements =
      OneSigned round.1
      × IsPartOf round.0 amount
      × (round.0 ⊕ held round.1 ≈ remaining ⊕ balance)
      × (round.0 ⊕ moved round.2.ledger ≈ remaining ⊕ movements)

  consume_sums :
      (flow : ForeignCashFlow Date D) (rate remaining : D) (front : Lot Date D)
      (rest : List (Lot Date D)) (result : CurrencyFxResult Date D)
      → Crossed front.qty remaining flow.amount
      → let round = consume flow rate remaining front rest result in
        (round.0 ⊕ held round.1 ≈ remaining ⊕ held (front ∷ rest))
        × (round.0 ⊕ moved round.2.ledger ≈ remaining ⊕ moved result.ledger)
        × ((round.0 ≈ nought) ⊎ (round.1 ≡ rest))
  unfolding consume held
  consume_sums flow rate remaining front rest result (total, part, ends) =
      let units = min (d.abs front.qty) (d.abs remaining) in
      let qty = front.qty ⊖ sign front.qty ⊗ units in
      let remaining' = remaining ⊖ sign remaining ⊗ units in
      let ledger = (consume flow rate remaining front rest result).2.ledger in
      let row = moved result.ledger ⊕ sign flow.amount ⊗ units in
      let appended : moved ledger ≈ row = moved-append result.ledger _ in
      (
        omega (
          arith,
          total,
          held-left_lots qty front rest,
          d.add_parts qty remaining',
          d.add_parts front.qty remaining,
          d.add_parts qty (held rest),
          d.add_parts front.qty (held rest),
          d.add_parts remaining (front.qty ⊕ held rest),
          d.add_parts remaining' (held (left_lots qty front rest)),
        ),
        omega (
          arith,
          part,
          appended,
          d.add_parts remaining' (sign flow.amount ⊗ units),
          d.add_parts (moved result.ledger) (sign flow.amount ⊗ units),
          d.add_parts remaining' (moved ledger),
          d.add_parts remaining (moved result.ledger),
        ),
        elim ends [ inl gone ↦ inr (left_lots-rest qty front rest gone) | inr done ↦ inl done ],
      )

  pub consume_lem :
      (flow : ForeignCashFlow Date D) (rate remaining : D) (front : Lot Date D)
      (rest : List (Lot Date D)) (result : CurrencyFxResult Date D)
      → Against remaining flow.amount (front ∷ rest)
      → let round = consume flow rate remaining front rest result in
        Kept flow.amount round remaining (held (front ∷ rest)) (moved result.ledger)
        × ((round.0 ≈ nought) ⊎ (round.1 ≡ rest))
  consume_lem flow rate remaining front rest result (inl (pos_rest, pos_amount, (borrowed, all))) =
      let (crossed, below, above) =
        repays front.qty remaining flow.amount borrowed pos_rest pos_amount in
      let (held_sum, moved_sum, ends) =
        consume_sums flow rate remaining front rest result crossed in
      unfold consume in
      (
        (
          left_lots-OneSigned _ front rest (inl (below, all)),
          ground (arith, above, pos_amount, nought_parts d),
          held_sum,
          moved_sum,
        ),
        ends,
      )
  consume_lem flow rate remaining front rest result (inr (neg_rest, neg_amount, (long, all))) =
      let (crossed, above, below) =
        disposes front.qty remaining flow.amount long neg_rest neg_amount in
      let (held_sum, moved_sum, ends) =
        consume_sums flow rate remaining front rest result crossed in
      unfold consume in
      (
        (
          left_lots-OneSigned _ front rest (inr (above, all)),
          ground (arith, below, neg_amount, nought_parts d),
          held_sum,
          moved_sum,
        ),
        ends,
      )

  -- The movement meets lots of its own sign or none.
  abbrev pub With : D → D → List (Lot Date D) → Type 0
  With remaining amount lots =
      ((nought ≺ remaining) × (nought ≺ amount) × All IsHeld lots)
      ⊎ ((remaining ≺ nought) × (amount ≺ nought) × All IsBorrowed lots)

  pub extend_lem :
      (flow : ForeignCashFlow Date D) (rate remaining : D) (lots : List (Lot Date D))
      (result : CurrencyFxResult Date D)
      → With remaining flow.amount lots
      → let round = extend flow rate remaining (lots, result) in
        OneSigned round.0
        × (held round.0 ≈ remaining ⊕ held lots)
        × (moved round.1.ledger ≈ remaining ⊕ moved result.ledger)
  unfolding extend
  extend_lem flow rate remaining lots result h =
      let lot : Lot Date D = record { qty = remaining; rate = rate; date = flow.date } in
      let sum = held-append lots lot in
      let ledger = (extend flow rate remaining (lots, result)).1.ledger in
      let total = moved result.ledger ⊕ remaining in
      let appended : moved ledger ≈ total = moved-append result.ledger _ in
      (
        elim h [
          | inl (up, _, all) ↦ inl (All-append IsHeld lots (lot ∷ []) all (up, tt))
          | inr (down, _, all) ↦ inr (All-append IsBorrowed lots (lot ∷ []) all (down, tt))
        ],
        omega (arith, sum, d.add_parts (held lots) remaining, d.add_parts remaining (held lots)),
        omega (
          arith,
          appended,
          d.add_parts (moved result.ledger) remaining,
          d.add_parts remaining (moved result.ledger),
        ),
      )
