-- ===== src/TaxStatement/FxFifo/Run.antt =====
-- `compute_fx_fifo`: what it returns, and what it refuses.
use investments.Base.{
  ◌≡◌, ◌≢◌, refl, ap, subst, ◌∙◌, ◌⊎◌, inl, inr, Bool, Option, some, List, [], ◌∷◌, String, ok, err,
  All, map,
}
use investments.Base.Names.{strings, get, get_or}
use investments.Base.Decimal.{Decimal, nought, ◌≈◌}
use investments.TaxStatement.FxFifo.Data.{OpeningLot, CurrencyFxResult, ForeignCashFlow}
use investments.TaxStatement.FxFifo.Balance.{held, moved, OneSigned}
use investments.TaxStatement.FxFifo.Replay.{
  Books, FxError, panic, process_flows, collect, compute_fx_fifo, open_lots, no_books,
}
use investments.TaxStatement.FxFifo.Opening.{AreOn, open_lots-IsSound}
use investments.TaxStatement.FxFifo.Registered.{lots_of, ledger_of, running_of}
use investments.TaxStatement.FxFifo.Flows.{IsRefusal}
use investments.TaxStatement.FxFifo.Opened.{opening_balance, open_lots-running}
use investments.TaxStatement.FxFifo.Order.{first_seen, opened, open_lots-order, no_books-Registers}
use investments.TaxStatement.FxFifo.Movements.{
  expected, amount_of, AreRefused, process_flows-AreBooked,
}

module _ {Date D : Type 0} ⦃d : Decimal D⦄ where
  collect_listed :
      (results : List (String × CurrencyFxResult Date D)) (order : List String)
      → All (λ currency. (r : CurrencyFxResult Date D) × (get results currency ≡ some r)) order
      → (rs : List (CurrencyFxResult Date D)) × (collect results order ≡ ok rs)
        × (map (λ r. some r) rs ≡ map (get results) order)
  unfolding collect
  collect_listed results [] h = ([], refl, refl)
  collect_listed results (currency ∷ order) ((r, e), h) =
      let (rs, done, same) = collect_listed results order h in
      (
        r ∷ rs,
        rw (e, done) refl,
        rw e (ap (λ (l : List (Option (CurrencyFxResult Date D))). some r ∷ l) same),
      )

  opened_with :
      (opening : List (OpeningLot Date D)) (currency : String)
      → running_of (open_lots no_books opening) currency ≡ opening_balance nought currency opening
  unfolding no_books get_or get
  opened_with opening currency = open_lots-running no_books opening currency

  -- With the opening lots of each currency on one side, held or borrowed, the replay ends in one of
  -- two ways. It returns the results that the books after the opening and all movements keep, one for
  -- each currency with an opening lot or a movement that is not passed over, in the order in which
  -- these are first seen; and in those books, for every currency, the lots are of one sign and they
  -- and the ledger both add up to the balance that the opening and the movements determine. Or it
  -- refuses a movement, with which the balance that the opening and the movements before determine is
  -- more than a cent off the one that the statement reports, or whose rate is missing or malformed, and
  -- the error is not a panic.
  pub compute_fx_fifo-refines :
      (ecb_rate : Date → String → Option D) (flows : List (ForeignCashFlow Date D))
      (opening : List (OpeningLot Date D)) (side : String → Bool)
      → AreOn side opening
      → ((rs : List (CurrencyFxResult Date D)) × (books : Books Date D) × (compute_fx_fifo flows
              opening ecb_rate
            ≡ ok rs)
          × (process_flows ecb_rate (open_lots no_books opening) flows ≡ ok books)
          × (books.order ≡ first_seen (first_seen [] (map opened opening)) (map amount_of flows))
          × (map (λ r. some r) rs ≡ map (get books.results) books.order)
          × ((currency : String)
              → let balance = expected (opening_balance nought currency opening) currency flows in
                OneSigned (lots_of books currency)
                × (held (lots_of books currency) ≈ balance)
                × (moved (ledger_of books currency) ≈ balance)))
        ⊎ ((e : FxError Date) × (compute_fx_fifo flows opening ecb_rate ≡ err e)
            × (e ≢ panic)
            × AreRefused ecb_rate (λ currency. opening_balance nought currency opening) flows e)
  unfolding compute_fx_fifo
  compute_fx_fifo-refines ecb_rate flows opening side on =
      let sound = open_lots-IsSound side opening on in
      let (registers, opening_order) =
        open_lots-order no_books opening (no_books-Registers Date D) in
      elim (process_flows-AreBooked ecb_rate (open_lots no_books opening) flows sound registers) [
        | inr (e, failed, other, (before, refused, later, split, why)) ↦
            let name = refused.currency in
            inr (
              e,
              rw failed refl,
              other,
              (
                before,
                refused,
                later,
                split,
                subst (λ (b : D). IsRefusal ecb_rate (expected b name before) refused e)
                    (opened_with opening name) why,
              ),
            )
        | inl (books, done, sound', order, balances) ↦
            let (rs, collected, same) = collect_listed books.results books.order sound'.listed in
            inl (
              rs,
              books,
              rw done collected,
              done,
              order
                  ∙ (unfold no_books in
                      ap (λ (o : List String). first_seen o (map amount_of flows)) opening_order),
              same,
              λ currency.
                  let b = sound'.balanced currency in
                  let now =
                    balances currency
                    ∙ ap (λ (b : D). expected b currency flows) (opened_with opening currency) in
                  (
                    b.one_sign,
                    subst (λ (x : D). held (lots_of books currency) ≈ x) now b.lots_sum,
                    subst (λ (x : D). moved (ledger_of books currency) ≈ x) now b.rows_sum,
                  ),
            )
      ]
