-- ===== src/TaxStatement/FxFifo/Opening.antt =====
-- The declared opening lots leave sound books.
use investments.Base.{
  ◌≡◌, refl, sym, ap, subst, inl, inr, Bool, true, false, List, [], ◌∷◌, ◌++◌, String,
  if◌then◌else◌, All, All-append, Bool-cases, arith,
}
use investments.Base.Names.{strings, get, get_or}
use investments.Base.Decimal.{Decimal, nought, ◌⊕◌, ◌≼◌, ◌≈◌, is_zero, nought_parts}
use investments.TaxStatement.FxFifo.Data.{
  Lot, OpeningLot, CurrencyFxResult, FxLedgerRow, acquisition,
}
use investments.TaxStatement.FxFifo.Balance.{
  held, moved, OneSigned, IsHeld, IsBorrowed, held-append, moved-append,
}
use investments.TaxStatement.FxFifo.Replay.{
  Books, new_result, register_as, register_currency, add_running, is_skipped, book_lot, open_lots,
  no_books,
}
use investments.TaxStatement.FxFifo.Accounts.{updated, after, after-IsSound, after-lots}
use investments.TaxStatement.FxFifo.Registered.{IsSound}
use investments.TaxStatement.FxFifo.Registered.{
  lots_of, ledger_of, register_as-lots, register_as-results,
}

module _ {Date D : Type 0} ⦃d : Decimal D⦄ where
  -- On which side each currency stands: held, or borrowed.
  abbrev pub AreOn : (String → Bool) → List (OpeningLot Date D) → Type 0
  AreOn side opening =
      All (λ lot. if side lot.currency then nought ≼ lot.quantity else lot.quantity ≼ nought)
        opening

  abbrev LotsOn : Bool → List (Lot Date D) → Type 0
  LotsOn true lots = All IsHeld lots
  LotsOn false lots = All IsBorrowed lots

  LotsOn-OneSigned : (side : Bool) (lots : List (Lot Date D)) → LotsOn side lots → OneSigned lots
  LotsOn-OneSigned true lots h = inl h
  LotsOn-OneSigned false lots h = inr h

  LotsOn-empty : (side : Bool) (lots : List (Lot Date D)) → lots ≡ [] → LotsOn side lots
  LotsOn-empty true lots e = subst (λ (l : List (Lot Date D)). All IsHeld l) (sym e) tt
  LotsOn-empty false lots e = subst (λ (l : List (Lot Date D)). All IsBorrowed l) (sym e) tt

  LotsOn-append :
      (side : Bool) (lots : List (Lot Date D)) (lot : Lot Date D)
      → LotsOn side lots
      → (if side then nought ≼ lot.qty else lot.qty ≼ nought)
      → is_zero lot.qty ≡ false
      → LotsOn side (lots ++ (lot ∷ []))
  LotsOn-append true lots lot h le e =
      All-append IsHeld lots (lot ∷ []) h (ground (arith, le, e, nought_parts d), tt)
  LotsOn-append false lots lot h le e =
      All-append IsBorrowed lots (lot ∷ []) h (ground (arith, le, e, nought_parts d), tt)

  abbrev Directed : (String → Bool) → Books Date D → Type 0
  Directed side books = (currency : String) → LotsOn (side currency) (lots_of books currency)

  no_books-IsSound : IsSound {Date = Date} {D = D} no_books
  unfolding no_books get get_or held moved new_result
  no_books-IsSound = record {
    balanced = λ currency. record {
      one_sign = inl tt;
      lots_sum = refl;
      rows_sum = refl;
      unregistered = λ e. refl;
    };
    listed = tt;
  }

  book_lot-after :
      (books : Books Date D) (lot : OpeningLot Date D)
      → IsSound books
      → (lots : List (Lot Date D)) × (result : CurrencyFxResult Date D) × (book_lot books lot
          ≡ after books lot.currency lots result lot.quantity)
        × (lots
            ≡ lots_of books lot.currency
              ++ (record { qty = lot.quantity; rate = lot.eur_per_unit; date = lot.date } ∷ []))
        × (moved result.ledger ≈ lot.quantity ⊕ moved (ledger_of books lot.currency))
  unfolding book_lot after updated register_currency add_running
  book_lot-after books lot sound =
      let currency = lot.currency in
      let found = get books.results currency in
      let registered = register_as books currency found in
      let new_lot : Lot Date D = record {
        qty = lot.quantity;
        rate = lot.eur_per_unit;
        date = lot.date;
      } in
      let result = get_or (new_result currency) registered.results currency in
      let before = register_as-results books currency currency found refl in
      let row : FxLedgerRow Date D = record {
        date = lot.date;
        transaction_id = "";
        activity_code = "OPENING";
        units = lot.quantity;
        rate = lot.eur_per_unit;
        kind = acquisition;
        balance_after = lot.quantity;
      } in
      let rows = moved result.ledger in
      let appended : moved (result.ledger ++ (row ∷ [])) ≈ rows ⊕ lot.quantity =
        moved-append result.ledger row in
      (
        get_or [] registered.lots currency ++ (new_lot ∷ []),
        record result { ledger = result.ledger ++ (row ∷ []) },
        refl,
        ap (λ (l : List (Lot Date D)). l ++ (new_lot ∷ []))
            (register_as-lots books currency currency found (sound.balanced currency).unregistered),
        subst
            (λ (r : CurrencyFxResult Date D).
              moved (result.ledger ++ (row ∷ [])) ≈ lot.quantity ⊕ moved r.ledger)
            before
            (omega (arith, appended, d.add_parts rows lot.quantity, d.add_parts lot.quantity rows)),
      )

  -- A lot of the side of its currency leaves sound books on their sides.
  book_lot-IsSound :
      (side : String → Bool) (books : Books Date D) (lot : OpeningLot Date D)
      → (if side lot.currency then nought ≼ lot.quantity else lot.quantity ≼ nought)
      → is_zero lot.quantity ≡ false
      → IsSound books × Directed side books
      → IsSound (book_lot books lot) × Directed side (book_lot books lot)
  book_lot-IsSound side books lot le nonzero (sound, directed) =
      let currency = lot.currency in
      let new_lot : Lot Date D = record {
        qty = lot.quantity;
        rate = lot.eur_per_unit;
        date = lot.date;
      } in
      let (lots, result, same, lots_now, rows_now) = book_lot-after books lot sound in
      let on : LotsOn (side currency) lots = subst (LotsOn (side currency)) (sym lots_now) (
        LotsOn-append (side currency) (lots_of books currency) new_lot (directed currency) le
          nonzero) in
      let appended = held-append (lots_of books currency) new_lot in
      let balance : held lots ≈ lot.quantity ⊕ held (lots_of books currency) =
        subst (λ (l : List (Lot Date D)). held l ≈ lot.quantity ⊕ held (lots_of books currency))
          (sym lots_now)
          (omega (
            arith,
            appended,
            d.add_parts (held (lots_of books currency)) lot.quantity,
            d.add_parts lot.quantity (held (lots_of books currency)),
          )) in
      (
        subst IsSound (sym same) (
            after-IsSound books currency lots result lot.quantity sound
              (LotsOn-OneSigned (side currency) lots on) balance rows_now),
        λ other.
            subst (λ (b : Books Date D). LotsOn (side other) (lots_of b other)) (sym same)
              (subst (LotsOn (side other))
                (sym (after-lots books currency lots result lot.quantity other sound.balanced))
                (elim (Bool-cases (strings.same currency other)) [
                  | inl equal ↦ rw equal (
                      subst (λ (c : String). LotsOn (side c) lots)
                        ((strings.same_iff currency other).0 equal) on)
                  | inr differ ↦ rw differ (directed other)
                ])),
      )

  open_lots-Directed :
      (side : String → Bool) (books : Books Date D) (opening : List (OpeningLot Date D))
      → AreOn side opening
      → IsSound books × Directed side books
      → IsSound (open_lots books opening)
  unfolding open_lots is_skipped
  open_lots-Directed side books [] h (sound, directed) = sound
  open_lots-Directed side books (lot ∷ opening) (le, h) kept =
      elim (Bool-cases (is_skipped lot.currency lot.quantity)) [
        | inl skipped ↦ rw skipped (open_lots-Directed side books opening h kept)
        | inr counted ↦ rw counted (
            open_lots-Directed side (book_lot books lot) opening h
              (book_lot-IsSound side books lot le (ground (arith, counted)) kept))
      ]

  pub open_lots-IsSound :
      (side : String → Bool) (opening : List (OpeningLot Date D))
      → AreOn side opening
      → IsSound (open_lots no_books opening)
  unfolding no_books get get_or
  open_lots-IsSound side opening h =
      open_lots-Directed side no_books opening h
        (no_books-IsSound, λ currency. LotsOn-empty (side currency) [] refl)
