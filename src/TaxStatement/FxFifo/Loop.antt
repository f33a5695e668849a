-- ===== src/TaxStatement/FxFifo/Loop.antt =====
-- The loop of `compute_fx_fifo` that takes one movement against the lots of its currency.
use investments.Base.{
  ℕ, zero, suc, Bool, true, not, Option, none, some, List, [], ◌∷◌, ◌++◌, if◌then◌else◌,
}
use investments.Base.Names.{strings}
use investments.Base.Decimal.{Decimal, nought, dec, negate, ◌⊖◌, ◌⊗◌, min, is_zero}
use investments.Util.{is_sign_positive}
use investments.TaxStatement.FxFifo.Data.{
  Lot, FxRealization, acquisition, disposal, repayment, CurrencyFxResult, ForeignCashFlow,
}

module _ {D : Type 0} ⦃d : Decimal D⦄ where
  unfoldable pub sign : D → D
  sign value = if is_sign_positive value then dec 1 0 else negate (dec 1 0)

module _ {Date D : Type 0} ⦃d : Decimal D⦄ where
  -- `extend`: the inventory is empty, or its first lot has the sign of what remains.
  unfoldable pub extends : List (Lot Date D) → D → Bool
  extends [] remaining = true
  extends (front ∷ _) remaining =
      if is_sign_positive front.qty
      then is_sign_positive remaining
      else not (is_sign_positive remaining)

  -- What one round of the loop leaves: the lots, the result of the currency, and what remains.
  unfoldable pub extend :
      ForeignCashFlow Date D
      → D
      → D
      → List (Lot Date D) × CurrencyFxResult Date D
      → List (Lot Date D) × CurrencyFxResult Date D
  extend flow rate remaining (lots, result) = (
    lots ++ (record { qty = remaining; rate = rate; date = flow.date } ∷ []),
    record result {
      ledger =
          result.ledger
          ++ (record {
            date = flow.date;
            transaction_id = flow.transaction_id;
            activity_code = flow.activity_code;
            units = remaining;
            rate = rate;
            kind = acquisition;
            balance_after = flow.balance;
          }
              ∷ []);
    },
  )

  unfoldable pub consume :
      ForeignCashFlow Date D
      → D
      → D
      → Lot Date D
      → List (Lot Date D)
      → CurrencyFxResult Date D
      → D × List (Lot Date D) × CurrencyFxResult Date D
  unfolding sign
  consume flow rate remaining front rest result =
      let held = is_sign_positive front.qty in
      let units = min (d.abs front.qty) (d.abs remaining) in
      let amount = if held then units ⊗ (rate ⊖ front.rate) else units ⊗ (front.rate ⊖ rate) in
      let realization : FxRealization Date D = record {
        date = flow.date;
        acquisition_date = front.date;
        amount = amount;
        activity_code = flow.activity_code;
      } in
      let qty = front.qty ⊖ sign front.qty ⊗ units in
      let remaining' = remaining ⊖ sign remaining ⊗ units in
      (
        remaining',
        (if is_zero qty then rest else record front { qty = qty } ∷ rest),
        record result {
          taxable = if held then result.taxable ++ (realization ∷ []) else result.taxable;
          non_taxable =
              if held then result.non_taxable else result.non_taxable ++ (realization ∷ []);
          ledger =
              result.ledger
              ++ (record {
                date = flow.date;
                transaction_id = flow.transaction_id;
                activity_code = flow.activity_code;
                units = sign flow.amount ⊗ units;
                rate = rate;
                kind =
                    if held
                    then disposal front.date front.rate amount
                    else repayment front.date front.rate amount;
                balance_after = flow.balance ⊖ remaining';
              }
                  ∷ []);
        },
      )

  -- The loop `while remaining != 0`; `none` is a run out of fuel.
  unfoldable pub settle :
      ℕ
      → ForeignCashFlow Date D
      → D
      → D
      → List (Lot Date D)
      → CurrencyFxResult Date D
      → Option (List (Lot Date D) × CurrencyFxResult Date D)
  unfolding extends extend consume
  settle zero flow rate remaining lots result = none
  settle (suc fuel) flow rate remaining lots result =
      let extended = extend flow rate remaining (lots, result) in
      let after_extend = settle fuel flow rate nought extended.0 extended.1 in
      let after_consume : Lot Date D
          → List (Lot Date D)
          → Option (List (Lot Date D) × CurrencyFxResult Date D) =
        λ front rest.
          (let round = consume flow rate remaining front rest result in
            settle fuel flow rate round.0 round.1 round.2) in
      if is_zero remaining
      then some (lots, result)
      else (if extends lots remaining
          then after_extend
          else elim lots [ [] ↦ after_extend | front ∷ rest ↦ after_consume front rest ])
