-- ===== src/TaxStatement/FxFifo/Replay.antt =====
-- `compute_fx_fifo`: the opening lots and the movements, booked per currency. The reference rate is a
-- function that the caller passes. An error names its cause, the currency and the date.
use investments.Base.{
  ◌+◌, Bool, ◌||◌, Option, none, some, List, [], ◌∷◌, ◌++◌, String, Result, ok, err, ◌>>=◌,
  if◌then◌else◌, length,
}
use investments.Base.Names.{strings, get, get_or, insert}
use investments.Base.Decimal.{Decimal, nought, dec, negate, ◌⊕◌, ◌⊖◌, ◌⊘◌, ltd, led, is_zero}
use investments.TaxStatement.FxFifo.Data.{
  Lot, acquisition, CurrencyFxResult, OpeningLot, ForeignCashFlow,
}
use investments.TaxStatement.FxFifo.Loop.{settle}

-- The maps of `compute_fx_fifo`, and the currencies in the order in which they are first seen.
pub record Books (Date D : Type 0) : Type 0 where
  pub order : List String
  pub lots : List (String × List (Lot Date D))
  pub results : List (String × CurrencyFxResult Date D)
  pub running : List (String × D)

pub data FxError (Date : Type 0) : Type 0 where
  inconsistent malformed_forex : String → Date → FxError Date
  rate_unknown : String → Date → FxError Date
  panic : FxError Date

module _ {D : Type 0} ⦃d : Decimal D⦄ where
  -- EUR movements and movements of nothing are passed over.
  unfoldable pub is_skipped : String → D → Bool
  is_skipped currency amount = strings.same currency "EUR" || is_zero amount

module _ {Date D : Type 0} ⦃d : Decimal D⦄ where
  unfoldable pub new_result : String → CurrencyFxResult Date D
  new_result currency = record { currency = currency; taxable = []; non_taxable = []; ledger = [] }

  unfoldable pub register_as :
      Books Date D → String → Option (CurrencyFxResult Date D) → Books Date D
  unfolding new_result
  register_as books currency (some _) = books
  register_as books currency none = record books {
    order = books.order ++ (currency ∷ []);
    lots = insert books.lots currency [];
    results = insert books.results currency (new_result currency);
  }

  unfoldable pub register_currency : Books Date D → String → Books Date D
  unfolding register_as
  register_currency books currency = register_as books currency (get books.results currency)

  -- `*running.entry(currency).or_insert(ZERO) += amount`.
  unfoldable pub add_running : Books Date D → String → D → Books Date D
  add_running books currency amount = record books {
    running = insert books.running currency (get_or nought books.running currency ⊕ amount);
  }

  unfoldable pub book_lot : Books Date D → OpeningLot Date D → Books Date D
  unfolding register_currency add_running new_result
  book_lot books lot =
      let registered =
        add_running (register_currency books lot.currency) lot.currency lot.quantity in
      let result = get_or (new_result lot.currency) registered.results lot.currency in
      record registered {
        lots = insert registered.lots lot.currency (
            get_or [] registered.lots lot.currency
            ++ (record { qty = lot.quantity; rate = lot.eur_per_unit; date = lot.date } ∷ []));
        results = insert registered.results lot.currency (record result {
          ledger =
              result.ledger
              ++ (record {
                date = lot.date;
                transaction_id = "";
                activity_code = "OPENING";
                units = lot.quantity;
                rate = lot.eur_per_unit;
                kind = acquisition;
                balance_after = lot.quantity;
              }
                  ∷ []);
        });
      }

  unfoldable pub open_lots : Books Date D → List (OpeningLot Date D) → Books Date D
  unfolding is_skipped book_lot
  open_lots books [] = books
  open_lots books (lot ∷ opening) =
      open_lots (if is_skipped lot.currency lot.quantity then books else book_lot books lot) opening

  -- `ecb_rate(flow.date, &flow.currency)?`.
  unfoldable pub reference_rate :
      (Date → String → Option D) → ForeignCashFlow Date D → Result (FxError Date) D
  reference_rate ecb_rate flow = elim (ecb_rate flow.date flow.currency) [
    | none ↦ err (rate_unknown flow.currency flow.date)
    | some rate ↦ ok rate
  ]

  unfoldable pub rate_of :
      (Date → String → Option D) → ForeignCashFlow Date D → Result (FxError Date) D
  unfolding reference_rate
  rate_of ecb_rate flow = elim flow.eur_execution [
    | none ↦ reference_rate ecb_rate flow
    | some eur_execution ↦
        let rate = negate eur_execution ⊘ flow.amount in
        if strings.same flow.activity_code "FOREX"
        then (if led rate nought then err (malformed_forex flow.currency flow.date) else ok rate)
        else reference_rate ecb_rate flow
  ]

  -- The lots and the result of the currency after the flow, put back into the books.
  unfoldable pub store :
      Books Date D
      → String
      → Option (List (Lot Date D) × CurrencyFxResult Date D)
      → Result (FxError Date) (Books Date D)
  store books currency none = err panic
  store books currency (some (lots, result)) = ok (record books {
    lots = insert books.lots currency lots;
    results = insert books.results currency result;
  })

  unfoldable pub process_flow :
      (Date → String → Option D)
      → Books Date D
      → ForeignCashFlow Date D
      → Result (FxError Date) (Books Date D)
  unfolding add_running rate_of register_currency settle store new_result
  process_flow ecb_rate books flow =
      let added = add_running books flow.currency flow.amount in
      let running_balance = get_or nought added.running flow.currency in
      let registered = register_currency added flow.currency in
      let lots = get_or [] registered.lots flow.currency in
      let result = get_or (new_result flow.currency) registered.results flow.currency in
      if ltd (dec 1 2) (d.abs (running_balance ⊖ flow.balance))
      then err (inconsistent flow.currency flow.date)
      else (rate_of ecb_rate flow >>= λ rate.
          store registered flow.currency
            (settle (length lots + 2) flow rate flow.amount lots result))

  unfoldable pub process_flows :
      (Date → String → Option D)
      → Books Date D
      → List (ForeignCashFlow Date D)
      → Result (FxError Date) (Books Date D)
  unfolding is_skipped process_flow
  process_flows ecb_rate books [] = ok books
  process_flows ecb_rate books (flow ∷ flows) =
      (if is_skipped flow.currency flow.amount then ok books else process_flow ecb_rate books flow)
      >>= λ books'. process_flows ecb_rate books' flows

  abbrev pub or_panic :
      Option (CurrencyFxResult Date D) → Result (FxError Date) (CurrencyFxResult Date D)
  or_panic none = err panic
  or_panic (some result) = ok result

  -- `results.remove(&currency).unwrap()` for each currency; the order has no currency twice.
  unfoldable pub collect :
      List (String × CurrencyFxResult Date D)
      → List String
      → Result (FxError Date) (List (CurrencyFxResult Date D))
  collect results [] = ok []
  collect results (currency ∷ order) =
      let rest = collect results order in
      or_panic (get results currency) >>= λ result. (rest >>= λ others. ok (result ∷ others))

  unfoldable pub no_books : Books Date D
  no_books = record { order = []; lots = []; results = []; running = [] }

  unfoldable pub compute_fx_fifo :
      List (ForeignCashFlow Date D)
      → List (OpeningLot Date D)
      → (Date → String → Option D)
      → Result (FxError Date) (List (CurrencyFxResult Date D))
  unfolding open_lots process_flows collect no_books
  compute_fx_fifo flows opening ecb_rate =
      process_flows ecb_rate (open_lots no_books opening) flows >>= λ books.
      collect books.results books.order
