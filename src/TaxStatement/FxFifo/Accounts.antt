-- ===== src/TaxStatement/FxFifo/Accounts.antt =====
-- The books of `compute_fx_fifo`: in each currency the lots stand for the running balance.
use investments.Base.{
  ◌≡◌, refl, ap, ◌∙◌, inl, inr, false, Option, none, some, List, [], String, if◌then◌else◌,
  Bool-cases, arith,
}
use investments.Base.Names.{strings, get, get_or, insert, get-insert, get_or-insert}
use investments.Base.Decimal.{Decimal, nought, ◌⊕◌, ◌≈◌}
use investments.TaxStatement.FxFifo.Data.{Lot, CurrencyFxResult}
use investments.TaxStatement.FxFifo.Balance.{held, moved, OneSigned}
use investments.TaxStatement.FxFifo.Replay.{
  Books, new_result, register_as, register_currency, add_running,
}
use investments.TaxStatement.FxFifo.Registered.{
  Balanced, IsSound, lots_of, ledger_of, running_of, register_as-lots, register_as-results,
  register_as-missing, register_as-Listed,
}

module _ {Date D : Type 0} ⦃d : Decimal D⦄ where
  -- The books after a currency has new lots, a new result and a movement on its running balance.
  unfoldable pub updated :
      Books Date D → String → List (Lot Date D) → CurrencyFxResult Date D → D → Books Date D
  unfolding register_currency add_running
  updated books currency lots result amount =
      let registered = register_currency books currency in
      record (add_running registered currency amount) {
        lots = insert registered.lots currency lots;
        results = insert registered.results currency result;
      }

  pub register_as-running :
      (books : Books Date D) (currency : String) (found : Option (CurrencyFxResult Date D))
      → (register_as books currency found).running ≡ books.running
  unfolding register_as
  register_as-running books currency none = refl
  register_as-running books currency (some r) = refl

  module _ (books : Books Date D) (currency : String) (lots : List (Lot Date D))
      (result : CurrencyFxResult Date D) (amount : D) where
    unfoldable pub after : Books Date D
    after = updated books currency lots result amount

    pub after-lots :
        (other : String)
        → ((c : String) → Balanced books c)
        → lots_of after other ≡ (if strings.same currency other then lots else lots_of books other)
    unfolding after updated register_currency add_running
    after-lots other balanced =
        let found = get books.results currency in
        let old = register_as-lots books currency other found (balanced currency).unregistered in
        get_or-insert [] (register_as books currency found).lots currency other lots
        ∙ ap (λ (l : List (Lot Date D)). if strings.same currency other then lots else l) old

    after-results :
        (other : String)
        → get_or (new_result other) after.results other ≡ (
            if strings.same currency other
            then result
            else get_or (new_result other) books.results other)
    unfolding after updated register_currency add_running
    after-results other =
        let found = get books.results currency in
        let old = register_as-results books currency other found refl in
        get_or-insert (new_result other) (register_as books currency found).results currency other
          result
        ∙ ap (λ (r : CurrencyFxResult Date D). if strings.same currency other then result else r)
            old

    pub after-running :
        (other : String)
        → running_of after other ≡ (
            if strings.same currency other
            then running_of books currency ⊕ amount
            else running_of books other)
    unfolding after updated register_currency add_running
    after-running other =
        let found = get books.results currency in
        let old = register_as-running books currency found in
        rw old
          (get_or-insert nought books.running currency other (running_of books currency ⊕ amount))

    after-missing :
        (other : String)
        → get after.results other ≡ none
        → (strings.same currency other ≡ false) × (get books.results other ≡ none)
    unfolding after updated register_currency add_running
    after-missing other e =
        let found = get books.results currency in
        let registered = register_as books currency found in
        let put = get-insert registered.results currency other result in
        elim (Bool-cases (strings.same currency other)) [
          | inl same ↦ absurd (ground (arith, put, same, e))
          | inr differ ↦ (
            differ,
            register_as-missing books currency other found (ground (arith, put, differ, e)),
          )
        ]

    after-Balanced :
        (other : String)
        → ((c : String) → Balanced books c)
        → OneSigned lots
        → held lots ≈ amount ⊕ held (lots_of books currency)
        → moved result.ledger ≈ amount ⊕ moved (ledger_of books currency)
        → Balanced after other
    after-Balanced other balanced signed balance movements =
        let new_lots = after-lots other balanced in
        let new_results = after-results other in
        let new_running = after-running other in
        elim (Bool-cases (strings.same currency other)) [
          | inl same ↦
              let b = balanced currency in
              let lots_now : lots_of after other ≡ lots = new_lots ∙ rw same refl in
              let ledger_now : ledger_of after other ≡ result.ledger =
                ap (λ (r : CurrencyFxResult Date D). r.ledger) new_results ∙ rw same refl in
              let running_now : running_of after other ≡ running_of books currency ⊕ amount =
                new_running ∙ rw same refl in
              record {
                one_sign = rw lots_now signed;
                lots_sum =
                    rw (lots_now, running_now)
                      (omega (
                        arith,
                        balance,
                        b.lots_sum,
                        d.add_parts amount (held (lots_of books currency)),
                        d.add_parts (running_of books currency) amount,
                      ));
                rows_sum =
                    rw (ledger_now, running_now)
                      (omega (
                        arith,
                        movements,
                        b.rows_sum,
                        d.add_parts amount (moved (ledger_of books currency)),
                        d.add_parts (running_of books currency) amount,
                      ));
                unregistered = λ e. absurd (ground (arith, same, after-missing other e));
              }
          | inr differ ↦
              let b = balanced other in
              let lots_now : lots_of after other ≡ lots_of books other =
                new_lots ∙ rw differ refl in
              let ledger_now : ledger_of after other ≡ ledger_of books other =
                ap (λ (r : CurrencyFxResult Date D). r.ledger) new_results ∙ rw differ refl in
              let running_now : running_of after other ≡ running_of books other =
                new_running ∙ rw differ refl in
              record {
                one_sign = rw lots_now b.one_sign;
                lots_sum = rw (lots_now, running_now) b.lots_sum;
                rows_sum = rw (ledger_now, running_now) b.rows_sum;
                unregistered = λ e. lots_now ∙ b.unregistered (after-missing other e).1;
              }
        ]

    pub after-IsSound :
        IsSound books
        → OneSigned lots
        → held lots ≈ amount ⊕ held (lots_of books currency)
        → moved result.ledger ≈ amount ⊕ moved (ledger_of books currency)
        → IsSound after
    after-IsSound sound signed balance movements = record {
      balanced = λ other. after-Balanced other sound.balanced signed balance movements;
      listed =
          unfold after updated register_currency add_running in
          register_as-Listed books currency (get books.results currency) result sound.listed;
    }
