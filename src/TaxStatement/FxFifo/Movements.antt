-- ===== src/TaxStatement/FxFifo/Movements.antt =====
-- The movements of `compute_fx_fifo`, one after the other, against the balances that the statement
-- determines.
use investments.Base.{
  ◌≡◌, ◌≢◌, refl, ap, subst, ◌∙◌, ◌⊎◌, inl, inr, true, false, Option, List, [], ◌∷◌, ◌++◌, String,
  Result, ok, err, if◌then◌else◌, Bool-cases, map,
}
use investments.Base.Names.{strings}
use investments.Base.Decimal.{Decimal, ◌⊕◌}
use investments.TaxStatement.FxFifo.Data.{ForeignCashFlow}
use investments.TaxStatement.FxFifo.Replay.{Books, FxError, panic, is_skipped, process_flows}
use investments.TaxStatement.FxFifo.Registered.{IsSound}
use investments.TaxStatement.FxFifo.Registered.{running_of}
use investments.TaxStatement.FxFifo.Flows.{IsRefusal, process_flow-after}
use investments.TaxStatement.FxFifo.Opened.{own_balance}
use investments.TaxStatement.FxFifo.Accounts.{after, after-running}
use investments.TaxStatement.FxFifo.Order.{
  Registers, first_seen, first_seen-skipped, first_seen-counted, after-IsListedAfter,
}

module _ {Date D : Type 0} ⦃d : Decimal D⦄ where
  -- The balance of one currency after a list of movements, from the statement alone.
  pub expected : D → String → List (ForeignCashFlow Date D) → D
  expected balance currency [] = balance
  expected balance currency (flow ∷ flows) =
      expected
        (if is_skipped flow.currency flow.amount
          then balance
          else (if strings.same flow.currency currency then balance ⊕ flow.amount else balance))
        currency flows

  -- One of the movements is refused, on the balance that those before it leave.
  abbrev pub AreRefused :
      (Date → String → Option D)
      → (String → D)
      → List (ForeignCashFlow Date D)
      → FxError Date
      → Type 0
  AreRefused ecb_rate balance flows e =
      (before : List (ForeignCashFlow Date D)) × (flow : ForeignCashFlow Date D) × (later : List
        (ForeignCashFlow Date D))
      × (flows ≡ before ++ (flow ∷ later))
      × IsRefusal ecb_rate (expected (balance flow.currency) flow.currency before) flow e

  abbrev pub amount_of : ForeignCashFlow Date D → String × D
  amount_of flow = (flow.currency, flow.amount)

  -- The movements are booked, the currencies are listed as they are first seen, and each running
  -- balance is the one expected, or one movement is refused.
  abbrev pub AreBooked :
      (Date → String → Option D)
      → Books Date D
      → List (ForeignCashFlow Date D)
      → Result (FxError Date) (Books Date D)
      → Type 0
  AreBooked ecb_rate books flows returned =
      ((books' : Books Date D) × (returned ≡ ok books')
        × IsSound books'
        × (books'.order ≡ first_seen books.order (map amount_of flows))
        × ((currency : String)
            → running_of books' currency ≡ expected (running_of books currency) currency flows))
      ⊎ ((e : FxError Date) × (returned ≡ err e)
          × (e ≢ panic)
          × AreRefused ecb_rate (λ currency. running_of books currency) flows e)

  -- A movement that is passed over changes nothing of the balances that a later refusal is on.
  AreRefused-skipped :
      (ecb_rate : Date → String → Option D) (balance : String → D) (flow : ForeignCashFlow Date D)
      (flows : List (ForeignCashFlow Date D)) (e : FxError Date)
      → is_skipped flow.currency flow.amount ≡ true
      → AreRefused ecb_rate balance flows e
      → AreRefused ecb_rate balance (flow ∷ flows) e
  unfolding expected
  AreRefused-skipped ecb_rate balance flow flows e skipped (before, refused, later, split, why) = (
    flow ∷ before,
    refused,
    later,
    ap (λ (l : List (ForeignCashFlow Date D)). flow ∷ l) split,
    rw skipped why,
  )

  -- Any other one moves the balance of its own currency.
  AreRefused-counted :
      (ecb_rate : Date → String → Option D) (balance balance' : String → D)
      (flow : ForeignCashFlow Date D) (flows : List (ForeignCashFlow Date D)) (e : FxError Date)
      → is_skipped flow.currency flow.amount ≡ false
      → ((name : String)
          → balance' name ≡ (
              if strings.same flow.currency name then balance name ⊕ flow.amount else balance name))
      → AreRefused ecb_rate balance' flows e
      → AreRefused ecb_rate balance (flow ∷ flows) e
  unfolding expected
  AreRefused-counted ecb_rate balance balance' flow flows e counted moves
        (before, refused, later, split, why) =
      let name = refused.currency in
      (
        flow ∷ before,
        refused,
        later,
        ap (λ (l : List (ForeignCashFlow Date D)). flow ∷ l) split,
        rw counted (
            subst (λ (b : D). IsRefusal ecb_rate (expected b name before) refused e) (moves name)
              why),
      )

  pub process_flows-AreBooked :
      (ecb_rate : Date → String → Option D) (books : Books Date D)
      (flows : List (ForeignCashFlow Date D))
      → IsSound books
      → Registers books.order books.results
      → AreBooked ecb_rate books flows (process_flows ecb_rate books flows)
  unfolding process_flows expected first_seen
  process_flows-AreBooked ecb_rate books [] sound registers =
      inl (books, refl, sound, refl, λ currency. refl)
  process_flows-AreBooked ecb_rate books (flow ∷ flows) sound registers =
      elim (Bool-cases (is_skipped flow.currency flow.amount)) [
        | inl skipped ↦ elim (process_flows-AreBooked ecb_rate books flows sound registers) [
          | inr (e, failed, other, why) ↦ inr (
            e,
            rw skipped failed,
            other,
            AreRefused-skipped ecb_rate (λ name. running_of books name) flow flows e skipped why,
          )
          | inl (books', done, sound', order, balances) ↦ inl (
            books',
            rw skipped done,
            sound',
            order
                ∙ first_seen-skipped books.order flow.currency flow.amount (map amount_of flows)
                    skipped,
            λ currency. rw skipped (balances currency),
          )
        ]
        | inr counted ↦ elim (process_flow-after ecb_rate books flow sound) [
          | inr (e, failed, other, why) ↦
              inr (e, rw (counted, failed) refl, other, ([], flow, flows, refl, why))
          | inl (p, done, sound', near) ↦
              let books' = after books flow.currency p.0 p.1 flow.amount in
              let running : (name : String)
                  → running_of books' name ≡ (
                      if strings.same flow.currency name
                      then running_of books name ⊕ flow.amount
                      else running_of books name) =
                λ name.
                  after-running books flow.currency p.0 p.1 flow.amount name
                  ∙ own_balance books flow.currency name flow.amount in
              let (registers', listed) =
                after-IsListedAfter books flow.currency p.0 p.1 flow.amount registers in
              elim (process_flows-AreBooked ecb_rate books' flows sound' registers') [
                | inr (e, failed, other, why) ↦ inr (
                  e,
                  rw (counted, done) failed,
                  other,
                  AreRefused-counted ecb_rate (λ name. running_of books name)
                      (λ name. running_of books' name) flow flows e counted running why,
                )
                | inl (books'', all_done, sound'', order, balances) ↦ inl (
                  books'',
                  rw (counted, done) all_done,
                  sound'',
                  order
                      ∙ first_seen-counted books.order books'.order flow.currency flow.amount
                          (map amount_of flows) counted listed,
                  λ currency. rw counted (
                      balances currency
                      ∙ ap (λ (b : D). expected b currency flows) (running currency)),
                )
              ]
        ]
      ]
