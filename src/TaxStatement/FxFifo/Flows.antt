-- ===== src/TaxStatement/FxFifo/Flows.antt =====
-- What one movement does to the books, on every branch.
use investments.Base.{
  ◌≡◌, ◌≢◌, refl, sym, ap, subst, ◌∙◌, ◌⊎◌, inl, inr, ◌+◌, Option, none, some, List, String, Result,
  ok, err, if◌then◌else◌, length, Bool-cases, Result-cases, arith,
}
use investments.Base.Names.{strings, get, get_or, insert, get_or-insert, same_self}
use investments.Base.Decimal.{Decimal, nought, dec, ◌⊕◌, ◌⊖◌, ◌≼◌, ◌≺◌, ◌≈◌, ltd}
use investments.TaxStatement.FxFifo.Data.{Lot, CurrencyFxResult, ForeignCashFlow}
use investments.TaxStatement.FxFifo.Loop.{settle}
use investments.TaxStatement.FxFifo.Balance.{held, moved, OneSigned}
use investments.TaxStatement.FxFifo.Settlement.{settle-IsSettled}
use investments.TaxStatement.FxFifo.Replay.{
  Books, FxError, inconsistent, panic, new_result, register_as, register_currency, add_running,
  rate_of, reference_rate, store, process_flow,
}
use investments.TaxStatement.FxFifo.Accounts.{updated, after, after-IsSound, after-running}
use investments.TaxStatement.FxFifo.Registered.{IsSound}
use investments.TaxStatement.FxFifo.Registered.{
  lots_of, running_of, register_as-lots, register_as-results,
}

module _ {Date D : Type 0} ⦃d : Decimal D⦄ where
  pub store_updated :
      (books : Books Date D) (currency : String) (amount : D) (lots : List (Lot Date D))
      (result : CurrencyFxResult Date D) (found : Option (CurrencyFxResult Date D))
      → let registered = register_as (add_running books currency amount) currency found in
        let plain = register_as books currency found in
        ◌≡◌ {A = Books Date D}
          (record registered {
            lots = insert registered.lots currency lots;
            results = insert registered.results currency result;
          })
          (record (add_running plain currency amount) {
            lots = insert plain.lots currency lots;
            results = insert plain.results currency result;
          })
  unfolding register_as add_running
  store_updated books currency amount lots result none = refl
  store_updated books currency amount lots result (some r) = refl

  module _ (books : Books Date D) (flow : ForeignCashFlow Date D) (sound : IsSound books) where
    registered : Books Date D
    registered = register_currency (add_running books flow.currency flow.amount) flow.currency

    lots_before : lots_of registered flow.currency ≡ lots_of books flow.currency
    unfolding registered register_currency add_running
    lots_before =
        register_as-lots (add_running books flow.currency flow.amount) flow.currency flow.currency
          (get books.results flow.currency) (sound.balanced flow.currency).unregistered

    result_before :
        get_or (new_result flow.currency) registered.results flow.currency
        ≡ get_or (new_result flow.currency) books.results flow.currency
    unfolding registered register_currency add_running
    result_before =
        register_as-results (add_running books flow.currency flow.amount) flow.currency
          flow.currency (get books.results flow.currency) refl

    -- The last step of a movement: the loop, and the books with what it returns.
    booked : D → Result (FxError Date) (Books Date D)
    booked rate =
        let lots = lots_of registered flow.currency in
        store registered flow.currency (
          settle (length lots + 2) flow rate flow.amount lots
            (get_or (new_result flow.currency) registered.results flow.currency))

    booked-after :
        (rate : D)
        → (p : List (Lot Date D) × CurrencyFxResult Date D) × (booked rate
            ≡ ok (after books flow.currency p.0 p.1 flow.amount))
          × IsSound (after books flow.currency p.0 p.1 flow.amount)
    unfolding booked store
    booked-after rate =
        let lots = lots_of registered flow.currency in
        let result = get_or (new_result flow.currency) registered.results flow.currency in
        let signed = subst OneSigned (sym lots_before) (sound.balanced flow.currency).one_sign in
        let (p, e, signed', balance, movements) = settle-IsSettled flow rate lots result signed in
        let held_same = ap (λ (l : List (Lot Date D)). held l) lots_before in
        let moved_same = ap (λ (r : CurrencyFxResult Date D). moved r.ledger) result_before in
        (
          p,
          ap (store registered flow.currency) e
              ∙ (unfold store registered register_currency after updated in
                  ap (λ (b : Books Date D). ok b)
                    (store_updated books flow.currency flow.amount p.0 p.1
                      (get books.results flow.currency))),
          after-IsSound books flow.currency p.0 p.1 flow.amount sound signed'
              (subst (λ (x : D). held p.0 ≈ flow.amount ⊕ x) held_same balance)
              (subst (λ (x : D). moved p.1.ledger ≈ flow.amount ⊕ x) moved_same movements),
        )

  -- What the statement's own balance may differ by.
  abbrev pub Reconciles : Books Date D → ForeignCashFlow Date D → Type 0
  Reconciles books flow =
      d.abs ((running_of books flow.currency ⊕ flow.amount) ⊖ flow.balance) ≼ dec 1 2

  -- Why a movement is refused, on a running balance: with it the balance is more than a cent off what
  -- the statement reports, or its rate is missing or malformed.
  abbrev pub IsRefusal :
      (Date → String → Option D) → D → ForeignCashFlow Date D → FxError Date → Type 0
  IsRefusal ecb_rate balance flow e =
      (dec 1 2 ≺ d.abs ((balance ⊕ flow.amount) ⊖ flow.balance)) ⊎ (rate_of ecb_rate flow ≡ err e)

  -- The movement is booked, or refused for one of the two reasons.
  abbrev pub IsBooked :
      (Date → String → Option D)
      → Books Date D
      → ForeignCashFlow Date D
      → Result (FxError Date) (Books Date D)
      → Type 0
  IsBooked ecb_rate books flow returned =
      ((books' : Books Date D) × (returned ≡ ok books')
        × IsSound books'
        × Reconciles books flow
        × ((other : String)
            → running_of books' other ≡ (
                if strings.same flow.currency other
                then running_of books flow.currency ⊕ flow.amount
                else running_of books other)))
      ⊎ ((e : FxError Date) × (returned ≡ err e)
          × (e ≢ panic)
          × IsRefusal ecb_rate (running_of books flow.currency) flow e)

  pub rate_not_panic :
      (ecb_rate : Date → String → Option D) (flow : ForeignCashFlow Date D)
      → rate_of ecb_rate flow ≢ err panic
  unfolding rate_of reference_rate
  rate_not_panic ecb_rate flow h = ground (arith, h)

  -- From sound books, the books after a movement that is booked, or the refusal.
  pub process_flow-after :
      (ecb_rate : Date → String → Option D) (books : Books Date D) (flow : ForeignCashFlow Date D)
      → IsSound books
      → ((p : List (Lot Date D) × CurrencyFxResult Date D) × (process_flow ecb_rate books flow
            ≡ ok (after books flow.currency p.0 p.1 flow.amount))
          × IsSound (after books flow.currency p.0 p.1 flow.amount)
          × Reconciles books flow)
        ⊎ ((e : FxError Date) × (process_flow ecb_rate books flow ≡ err e)
            × (e ≢ panic)
            × IsRefusal ecb_rate (running_of books flow.currency) flow e)
  unfolding process_flow add_running registered booked
  process_flow-after ecb_rate books flow sound =
      let sum = running_of books flow.currency ⊕ flow.amount in
      let reported = running_of (add_running books flow.currency flow.amount) flow.currency in
      let put : reported ≡ (
          if strings.same flow.currency flow.currency
          then sum
          else running_of books flow.currency) =
        unfold add_running in get_or-insert nought books.running flow.currency flow.currency sum in
      let now : reported ≡ sum = put ∙ rw (same_self flow.currency) refl in
      elim (Bool-cases (ltd (dec 1 2) (d.abs (reported ⊖ flow.balance)))) [
        | inl off ↦ inr (
          inconsistent flow.currency flow.date,
          rw off refl,
          ground arith,
          inl (subst (λ (x : D). dec 1 2 ≺ d.abs (x ⊖ flow.balance)) now (ground (arith, off))),
        )
        | inr near ↦ elim (Result-cases (rate_of ecb_rate flow)) [
          | inr (e, failed) ↦ inr (
            e,
            rw (near, failed) refl,
            λ same. rate_not_panic ecb_rate flow (failed ∙ ap (λ (x : FxError Date). err x) same),
            inr failed,
          )
          | inl (rate, found) ↦
              let (p, e, sound') = booked-after books flow sound rate in
              inl (
                p,
                rw (near, found) (unfold booked registered in e),
                sound',
                subst (λ (x : D). d.abs (x ⊖ flow.balance) ≼ dec 1 2) now (ground (arith, near)),
              )
        ]
      ]

  -- From sound books, a movement is either booked or refused. If it is booked, the running balance
  -- of its currency, and of no other, moves by the amount and is within a cent of the balance that
  -- the statement reports, and the books are sound again. If it is refused, that balance would be
  -- more than a cent off the reported one, or the error is that of the rate, and it is no panic.
  pub process_flow-IsBooked :
      (ecb_rate : Date → String → Option D) (books : Books Date D) (flow : ForeignCashFlow Date D)
      → IsSound books
      → IsBooked ecb_rate books flow (process_flow ecb_rate books flow)
  process_flow-IsBooked ecb_rate books flow sound =
      elim (process_flow-after ecb_rate books flow sound) [
        | inr failed ↦ inr failed
        | inl (p, done, sound', near) ↦ inl (
          after books flow.currency p.0 p.1 flow.amount,
          done,
          sound',
          near,
          after-running books flow.currency p.0 p.1 flow.amount,
        )
      ]
