-- ===== src/TaxStatement/FxFifo/Settlement.antt =====
-- The loop ends, and takes the whole movement into the lots and into the ledger.
use investments.Base.{
  ◌≡◌, refl, sym, subst, ◌⊎◌, inl, inr, ◌≤◌, ℕ, zero, suc, ◌+◌, true, false, Option, some, List, [],
  ◌∷◌, length, arith,
}
use investments.Base.Decimal.{Decimal, nought, ◌⊕◌, ◌≺◌, ◌≈◌, is_zero, nought_parts}
use investments.TaxStatement.FxFifo.Data.{Lot, CurrencyFxResult, ForeignCashFlow}
use investments.TaxStatement.FxFifo.Loop.{extends, extend, consume, settle}
use investments.TaxStatement.FxFifo.Inventory.{With, Against, consume_lem, extend_lem}
use investments.TaxStatement.FxFifo.Balance.{held, moved, OneSigned}
use investments.TaxStatement.FxFifo.Crossing.{IsPartOf, sign_lem}

module _ {Date D : Type 0} ⦃d : Decimal D⦄ where
  -- A lot and a movement that are not zero have one sign or opposite signs.
  meets :
      (remaining amount : D) (front : Lot Date D) (rest : List (Lot Date D))
      → OneSigned (front ∷ rest)
      → ((nought ≺ remaining) × (nought ≺ amount)) ⊎ ((remaining ≺ nought) × (amount ≺ nought))
      → (With remaining amount (front ∷ rest) × (extends (front ∷ rest) remaining ≡ true))
        ⊎ (Against remaining amount (front ∷ rest) × (extends (front ∷ rest) remaining ≡ false))
  unfolding extends
  meets remaining amount front rest signed signs =
      let (r_up, r_down) = sign_lem remaining nought in
      let (q_up, q_down) = sign_lem front.qty nought in
      elim signs [
        | inl (up, amount_up) ↦ elim signed [
          | inl (long, all) ↦
              inl (inl (up, amount_up, (long, all)), rw ((q_up long).0, (r_up up).0) refl)
          | inr (short, all) ↦
              inr (inl (up, amount_up, (short, all)), rw ((q_down short).0, (r_up up).0) refl)
        ]
        | inr (down, amount_down) ↦ elim signed [
          | inl (long, all) ↦
              inr (inr (down, amount_down, (long, all)), rw ((q_up long).0, (r_down down).0) refl)
          | inr (short, all) ↦
              inl
                (inr (down, amount_down, (short, all)), rw ((q_down short).0, (r_down down).0) refl)
        ]
      ]

  -- What the loop is to return, of what remains of the movement.
  abbrev pub IsSettled :
      Option (List (Lot Date D) × CurrencyFxResult Date D)
      → D
      → List (Lot Date D)
      → CurrencyFxResult Date D
      → Type 0
  IsSettled returned remaining lots result =
      (p : List (Lot Date D) × CurrencyFxResult Date D) × (returned ≡ some p)
      × OneSigned p.0
      × (held p.0 ≈ remaining ⊕ held lots)
      × (moved p.1.ledger ≈ remaining ⊕ moved result.ledger)

  after_extend :
      (flow : ForeignCashFlow Date D) (rate remaining : D) (lots : List (Lot Date D))
      (result : CurrencyFxResult Date D)
      (returned : Option (List (Lot Date D) × CurrencyFxResult Date D))
      → With remaining flow.amount lots
      → let extended = extend flow rate remaining (lots, result) in
        IsSettled returned nought extended.0 extended.1 → IsSettled returned remaining lots result
  after_extend flow rate remaining lots result returned along (p, e, signed, balance, movements) =
      let extended = extend flow rate remaining (lots, result) in
      let (_, held_sum, moved_sum) = extend_lem flow rate remaining lots result along in
      (
        p,
        e,
        signed,
        omega (arith, balance, held_sum, nought_parts d, d.add_parts nought (held extended.0)),
        omega (
          arith,
          movements,
          moved_sum,
          nought_parts d,
          d.add_parts nought (moved extended.1.ledger),
        ),
      )

  after_consume :
      (flow : ForeignCashFlow Date D) (rate remaining : D) (front : Lot Date D)
      (rest : List (Lot Date D)) (result : CurrencyFxResult Date D)
      (returned : Option (List (Lot Date D) × CurrencyFxResult Date D))
      → Against remaining flow.amount (front ∷ rest)
      → let round = consume flow rate remaining front rest result in
        IsSettled returned round.0 round.1 round.2
        → IsSettled returned remaining (front ∷ rest) result
  after_consume flow rate remaining front rest result returned against
        (p, e, signed, balance, movements) =
      let ((_, _, held_sum, moved_sum), _) =
        consume_lem flow rate remaining front rest result against in
      (p, e, signed, omega (arith, balance, held_sum), omega (arith, movements, moved_sum))

  settle_lem :
      (fuel : ℕ) (flow : ForeignCashFlow Date D) (rate remaining : D) (lots : List (Lot Date D))
      (result : CurrencyFxResult Date D)
      → OneSigned lots
      → IsPartOf remaining flow.amount
      → 1 ≤ fuel
      → (remaining ≈ nought) ⊎ (length lots + 2 ≤ fuel)
      → IsSettled (settle fuel flow rate remaining lots result) remaining lots result
  unfolding settle
  settle_lem zero flow rate remaining lots result signed part some_fuel enough =
      absurd (omega arith)
  settle_lem (suc fuel) flow rate remaining lots result signed (inl none_left) some_fuel enough =
      let e : is_zero remaining ≡ true = ground (arith, none_left, nought_parts d) in
      rw e (
        (lots, result),
        refl,
        signed,
        omega (arith, none_left, nought_parts d, d.add_parts remaining (held lots)),
        omega (arith, none_left, nought_parts d, d.add_parts remaining (moved result.ledger)),
      )
  settle_lem (suc fuel) flow rate remaining [] result signed (inr signs) some_fuel enough =
      let e : is_zero remaining ≡ false = ground (arith, signs, nought_parts d) in
      let along : With {Date = Date} remaining flow.amount [] = elim signs [
        | inl (up, amount_up) ↦ inl (up, amount_up, tt)
        | inr (down, amount_down) ↦ inr (down, amount_down, tt)
      ] in
      let lots' = (extend flow rate remaining ([], result)).0 in
      let result' = (extend flow rate remaining ([], result)).1 in
      let one_sign = (extend_lem flow rate remaining [] result along).0 in
      rw e (
        after_extend flow rate remaining [] result _ along (
          settle_lem fuel flow rate nought lots' result' one_sign (inl refl)
            (ground (arith, enough, signs)) (inl refl)))
  settle_lem (suc fuel) flow rate remaining (front ∷ rest) result signed (inr signs) some_fuel
        enough =
      let e : is_zero remaining ≡ false = ground (arith, signs, nought_parts d) in
      elim (meets remaining flow.amount front rest signed signs) [
        | inl (along, grows) ↦
            let lots = front ∷ rest in
            let lots' = (extend flow rate remaining (lots, result)).0 in
            let result' = (extend flow rate remaining (lots, result)).1 in
            let one_sign = (extend_lem flow rate remaining lots result along).0 in
            rw (e, grows)
              (after_extend flow rate remaining lots result _ along (
                settle_lem fuel flow rate nought lots' result' one_sign (inl refl)
                  (ground (arith, enough, signs)) (inl refl)))
        | inr (against, shrinks) ↦
            let round = consume flow rate remaining front rest result in
            let ((one_sign, part, _, _), ends) =
              consume_lem flow rate remaining front rest result against in
            rw (e, shrinks)
              (after_consume flow rate remaining front rest result _ against (
                settle_lem fuel flow rate round.0 round.1 round.2 one_sign part
                  (ground (arith, enough, signs))
                  (elim ends [
                    | inl done ↦ inl done
                    | inr same ↦ inr (
                        subst (λ (l : List (Lot Date D)). length l + 2 ≤ fuel) (sym same)
                          (ground (arith, enough, signs)))
                  ])))
      ]

  -- With as many rounds as there are lots and two more, the loop ends on every movement,
  -- over lots of one sign. The lots then are of one sign again and stand for the old balance
  -- plus the movement, and the rows that the loop has added to the ledger add up to the movement.
  pub settle-IsSettled :
      (flow : ForeignCashFlow Date D) (rate : D) (lots : List (Lot Date D))
      (result : CurrencyFxResult Date D)
      → OneSigned lots
      → IsSettled
          (settle (length lots + 2) flow rate flow.amount lots result)
          flow.amount
          lots
          result
  settle-IsSettled flow rate lots result signed =
      settle_lem (length lots + 2) flow rate flow.amount lots result signed (ground arith)
        (omega arith) (inr (omega arith))
