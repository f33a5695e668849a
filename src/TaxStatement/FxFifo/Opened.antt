-- ===== src/TaxStatement/FxFifo/Opened.antt =====
-- The balances that the opening lots of `compute_fx_fifo` come to.
use investments.Base.{
  ◌≡◌, refl, ap, ◌∙◌, inl, inr, List, [], ◌∷◌, String, if◌then◌else◌, Bool-cases,
}
use investments.Base.Names.{strings, get, get_or-insert}
use investments.Base.Decimal.{Decimal, nought, ◌⊕◌}
use investments.TaxStatement.FxFifo.Data.{OpeningLot}
use investments.TaxStatement.FxFifo.Replay.{
  Books, register_currency, add_running, is_skipped, book_lot, open_lots,
}
use investments.TaxStatement.FxFifo.Registered.{running_of}
use investments.TaxStatement.FxFifo.Accounts.{register_as-running}
use investments.TaxStatement.FxFifo.Order.{open_lot}

module _ {Date D : Type 0} ⦃d : Decimal D⦄ where
  -- A balance and the opening lots of its currency, from these alone.
  unfoldable pub opening_balance : D → String → List (OpeningLot Date D) → D
  opening_balance balance currency [] = balance
  opening_balance balance currency (lot ∷ opening) =
      opening_balance
        (if is_skipped lot.currency lot.quantity
          then balance
          else (if strings.same lot.currency currency then balance ⊕ lot.quantity else balance))
        currency opening

  pub own_balance :
      (books : Books Date D) (name currency : String) (amount : D)
      → (if strings.same name currency
          then running_of books name ⊕ amount
          else running_of books currency)
        ≡ (if strings.same name currency
            then running_of books currency ⊕ amount
            else running_of books currency)
  own_balance books name currency amount = elim (Bool-cases (strings.same name currency)) [
    | inl same ↦
        rw same (
          ap (λ (c : String). running_of books c ⊕ amount)
            ((strings.same_iff name currency).0 same))
    | inr differ ↦ rw differ refl
  ]

  book_lot-running :
      (books : Books Date D) (lot : OpeningLot Date D) (currency : String)
      → running_of (book_lot books lot) currency ≡ (
          if strings.same lot.currency currency
          then running_of books currency ⊕ lot.quantity
          else running_of books currency)
  unfolding book_lot add_running register_currency
  book_lot-running books lot currency =
      let name = lot.currency in
      let old = register_as-running books name (get books.results name) in
      let sum = running_of books name ⊕ lot.quantity in
      rw old (
        get_or-insert nought books.running name currency sum
        ∙ own_balance books name currency lot.quantity)

  open_lot-running :
      (books : Books Date D) (lot : OpeningLot Date D) (currency : String)
      → running_of (open_lot books lot) currency ≡ (
          if is_skipped lot.currency lot.quantity
          then running_of books currency
          else (if strings.same lot.currency currency
              then running_of books currency ⊕ lot.quantity
              else running_of books currency))
  unfolding open_lot
  open_lot-running books lot currency = elim (Bool-cases (is_skipped lot.currency lot.quantity)) [
    | inl skipped ↦ rw skipped refl
    | inr counted ↦ rw counted (book_lot-running books lot currency)
  ]

  pub open_lots-running :
      (books : Books Date D) (opening : List (OpeningLot Date D)) (currency : String)
      → running_of (open_lots books opening) currency
        ≡ opening_balance (running_of books currency) currency opening
  unfolding open_lots opening_balance open_lot
  open_lots-running books [] currency = refl
  open_lots-running books (lot ∷ opening) currency =
      open_lots-running (open_lot books lot) opening currency
      ∙ ap (λ (b : D). opening_balance b currency opening) (open_lot-running books lot currency)
