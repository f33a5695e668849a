-- ===== src/Examples/FxFifo.antt =====
-- The theorems on the foreign currency results at concrete inputs.
use investments.Examples.Amounts.{eur, loss}
use investments.Base.{
  Bool, true, String, Option, ◌≢◌, err, ℕ, map, ok, ◌≡◌, none, some, List, [], ◌∷◌, ◌⊎◌, inl, arith,
}
use investments.Base.Int.{ℤ, ◌-ℤ◌}
use investments.Base.Decimal.{nought, dec, ◌≈◌}
use investments.Base.Decimal.Units.{units}
use investments.Base.Decimal.Magnitude.{digit}
use investments.Currency.Balances.{balance}
use investments.Base.Names.{get, strings}
use investments.TaxStatement.FxFifo.Data.{Lot, OpeningLot, CurrencyFxResult, ForeignCashFlow}
use investments.TaxStatement.FxFifo.Loop.{settle}
use investments.TaxStatement.FxFifo.Replay.{
  Books, FxError, panic, new_result, process_flow, process_flows, compute_fx_fifo, open_lots,
  no_books,
}
use investments.TaxStatement.FxFifo.Balance.{held, moved, OneSigned}
use investments.TaxStatement.FxFifo.Settlement.{IsSettled, settle-IsSettled}
use investments.TaxStatement.FxFifo.Registered.{lots_of, ledger_of}
use investments.TaxStatement.FxFifo.Opening.{AreOn, open_lots-IsSound}
use investments.TaxStatement.FxFifo.Run.{compute_fx_fifo-refines}
use investments.TaxStatement.FxFifo.Movements.{expected, amount_of, AreRefused}
use investments.TaxStatement.FxFifo.Opened.{opening_balance}
use investments.TaxStatement.FxFifo.Order.{first_seen, opened}
use investments.TaxStatement.FxFifo.Flows.{IsBooked, process_flow-IsBooked}

-- Dollars bought at the market rate and spent in part; days are numbered.
abbrev movement : ℕ → ℤ → ℤ → Option ℤ → ForeignCashFlow ℕ ℤ
movement day amount balance eur_execution = record {
  currency = "USD";
  date = day;
  transaction_id = "";
  activity_code = "FOREX";
  amount = amount;
  balance = balance;
  eur_execution = eur_execution;
}

abbrev dollars_bought : ForeignCashFlow ℕ ℤ
dollars_bought = movement 1 (eur 100) (eur 150) (some (loss 90))

abbrev dollars_spent : ForeignCashFlow ℕ ℤ
dollars_spent = movement 2 (loss 70) (eur 80) none

abbrev opening_dollars : OpeningLot ℕ ℤ
opening_dollars = record { currency = "USD"; quantity = eur 50; eur_per_unit = dec 9 1; date = 0 }

abbrev all_held : String → Bool
all_held _ = true

abbrev reference : ℕ → String → Option ℤ
reference day currency = some (dec 95 2)

opening_dollars-AreOn : AreOn all_held (opening_dollars ∷ [])
unfolding digit
opening_dollars-AreOn = omega arith

abbrev movements : List (ForeignCashFlow ℕ ℤ)
movements = dollars_bought ∷ dollars_spent ∷ []

compute_fx_fifo-refines_example :
    ((rs : List (CurrencyFxResult ℕ ℤ)) × (books : Books ℕ ℤ) × (compute_fx_fifo movements
          (opening_dollars ∷ [])
          reference
        ≡ ok rs)
      × (process_flows reference (open_lots no_books (opening_dollars ∷ [])) movements ≡ ok books)
      × (books.order
          ≡ first_seen
              (first_seen [] (map opened (opening_dollars ∷ [])))
              (map amount_of movements))
      × (map (λ r. some r) rs ≡ map (get books.results) books.order)
      × ((currency : String)
          → let balance =
              expected
                (opening_balance nought currency (opening_dollars ∷ []))
                currency
                movements in
            OneSigned (lots_of books currency)
            × (held (lots_of books currency) ≈ balance)
            × (moved (ledger_of books currency) ≈ balance)))
    ⊎ ((e : FxError ℕ) × (compute_fx_fifo movements (opening_dollars ∷ []) reference ≡ err e)
        × (e ≢ panic)
        × AreRefused reference
            (λ currency. opening_balance nought currency (opening_dollars ∷ []))
            movements
            e)
compute_fx_fifo-refines_example =
    compute_fx_fifo-refines reference movements (opening_dollars ∷ []) all_held
      opening_dollars-AreOn

abbrev dollar_lots : List (Lot ℕ ℤ)
dollar_lots =
    record { qty = eur 50; rate = dec 9 1; date = 0 }
    ∷ record { qty = eur 100; rate = dec 9 1; date = 1 }
    ∷ []

settle-IsSettled_example :
    IsSettled
      (settle 4 dollars_spent (dec 95 2) (loss 70) dollar_lots (new_result "USD"))
      (loss 70)
      dollar_lots
      (new_result "USD")
unfolding digit ◌-ℤ◌
settle-IsSettled_example =
    settle-IsSettled dollars_spent (dec 95 2) dollar_lots (new_result "USD") (inl (omega arith))

process_flow-IsBooked_example :
    IsBooked reference
      (open_lots no_books (opening_dollars ∷ []))
      dollars_bought
      (process_flow reference (open_lots no_books (opening_dollars ∷ [])) dollars_bought)
process_flow-IsBooked_example =
    process_flow-IsBooked reference (open_lots no_books (opening_dollars ∷ [])) dollars_bought
      (open_lots-IsSound all_held (opening_dollars ∷ []) opening_dollars-AreOn)
