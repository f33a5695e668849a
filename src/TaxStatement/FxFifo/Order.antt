-- ===== src/TaxStatement/FxFifo/Order.antt =====
-- The currencies of `compute_fx_fifo` in the order in which they are first seen.
use investments.Base.{
  ◌≡◌, refl, sym, ap, ◌∙◌, inl, inr, Bool, true, false, ◌||◌, Option, none, some, List, [], ◌∷◌,
  ◌++◌, String, if◌then◌else◌, map, Bool-cases, arith,
}
use investments.Base.Names.{strings, get, insert, get-insert, same_self}
use investments.Base.Decimal.{Decimal}
use investments.TaxStatement.FxFifo.Data.{Lot, CurrencyFxResult, OpeningLot}
use investments.TaxStatement.FxFifo.Replay.{
  Books, new_result, register_as, register_currency, add_running, is_skipped, book_lot, open_lots,
  no_books,
}
use investments.TaxStatement.FxFifo.Accounts.{updated, after}

unfoldable pub is_listed : String → List String → Bool
is_listed name [] = false
is_listed name (first ∷ names) = strings.same first name || is_listed name names

is_listed-append :
    (name last : String) (names : List String)
    → is_listed name (names ++ (last ∷ [])) ≡ is_listed name names || strings.same last name
unfolding is_listed
is_listed-append name last [] = ground arith
is_listed-append name last (first ∷ names) = ground (arith, is_listed-append name last names)

abbrev is_some : {A : Type 0} → Option A → Bool
is_some none = false
is_some (some _) = true

-- A currency is listed just if it has a result.
abbrev pub Registers : {R : Type 0} → List String → List (String × R) → Type 0
Registers order results = (name : String) → is_listed name order ≡ is_some (get results name)

Registers-insert :
    {R : Type 0} (order : List String) (results : List (String × R)) (currency : String)
    (result : R)
    → Registers order results
    → is_listed currency order ≡ true
    → Registers order (insert results currency result)
Registers-insert order results currency result registers listed name =
    let put = ap (λ o. is_some o) (get-insert results currency name result) in
    elim (Bool-cases (strings.same currency name)) [
      | inl same ↦
          ap (λ (c : String). is_listed c order) (sym ((strings.same_iff currency name).0 same))
          ∙ listed
          ∙ sym (put ∙ rw same refl)
      | inr differ ↦ registers name ∙ sym (put ∙ rw differ refl)
    ]

Registers-append :
    {R : Type 0} (order : List String) (results : List (String × R)) (currency : String)
    (result : R)
    → Registers order results
    → Registers (order ++ (currency ∷ [])) (insert results currency result)
Registers-append order results currency result registers name =
    let put = ap (λ o. is_some o) (get-insert results currency name result) in
    let split = is_listed-append name currency order in
    elim (Bool-cases (strings.same currency name)) [
      | inl same ↦
          let now : is_listed name (order ++ (currency ∷ [])) ≡ true =
            ground (arith, split, same) in
          now ∙ sym (put ∙ rw same refl)
      | inr differ ↦
          let kept : is_listed name (order ++ (currency ∷ [])) ≡ is_listed name order =
            ground (arith, split, differ) in
          kept ∙ registers name ∙ sym (put ∙ rw differ refl)
    ]

abbrev pub with_currency : List String → String → List String
with_currency order currency = if is_listed currency order then order else order ++ (currency ∷ [])

module _ {D : Type 0} ⦃d : Decimal D⦄ where
  -- The currencies of some amounts, those passed over left out, each where it is first seen, after those
  -- that are listed before.
  unfoldable pub first_seen : List String → List (String × D) → List String
  first_seen order [] = order
  first_seen order ((currency, amount) ∷ entries) =
      first_seen (if is_skipped currency amount then order else with_currency order currency)
        entries

  pub first_seen-skipped :
      (order : List String) (currency : String) (amount : D) (entries : List (String × D))
      → is_skipped currency amount ≡ true
      → first_seen order entries ≡ first_seen order ((currency, amount) ∷ entries)
  unfolding first_seen
  first_seen-skipped order currency amount entries skipped = rw skipped refl

  pub first_seen-counted :
      (order order' : List String) (currency : String) (amount : D) (entries : List (String × D))
      → is_skipped currency amount ≡ false
      → order' ≡ with_currency order currency
      → first_seen order' entries ≡ first_seen order ((currency, amount) ∷ entries)
  unfolding first_seen
  first_seen-counted order order' currency amount entries counted same = rw (counted, same) refl

module _ {Date D : Type 0} ⦃d : Decimal D⦄ where
  -- A registration lists the currency, and its new result keeps what is listed and what has a result
  -- the same.
  abbrev pub IsListedAfter :
      Books Date D → String → List String → List (String × CurrencyFxResult Date D) → Type 0
  IsListedAfter books currency order results =
      Registers order results × (order ≡ with_currency books.order currency)

  register_as-IsListedAfter :
      (books : Books Date D) (currency : String) (result : CurrencyFxResult Date D)
      (found : Option (CurrencyFxResult Date D))
      → get books.results currency ≡ found
      → Registers books.order books.results
      → let registered = register_as books currency found in
        IsListedAfter books currency registered.order (insert registered.results currency result)
  unfolding register_as
  register_as-IsListedAfter books currency result (some r) e registers =
      let listed : is_listed currency books.order ≡ true = registers currency ∙ rw e refl in
      (Registers-insert books.order books.results currency result registers listed, rw listed refl)
  register_as-IsListedAfter books currency result none e registers =
      let unlisted : is_listed currency books.order ≡ false = registers currency ∙ rw e refl in
      let order = books.order ++ (currency ∷ []) in
      let listed : is_listed currency order ≡ true =
        ground (arith, is_listed-append currency currency books.order, same_self currency) in
      (
        Registers-insert order (insert books.results currency (new_result currency)) currency result
            (Registers-append books.order books.results currency (new_result currency) registers)
            listed,
        rw unlisted refl,
      )

  pub register_currency-IsListedAfter :
      (books : Books Date D) (currency : String) (result : CurrencyFxResult Date D)
      → Registers books.order books.results
      → let registered = register_currency books currency in
        IsListedAfter books currency registered.order (insert registered.results currency result)
  unfolding register_currency
  register_currency-IsListedAfter books currency result =
      register_as-IsListedAfter books currency result (get books.results currency) refl

  book_lot-IsListedAfter :
      (books : Books Date D) (lot : OpeningLot Date D)
      → Registers books.order books.results
      → let books' = book_lot books lot in
        IsListedAfter books lot.currency books'.order books'.results
  unfolding book_lot add_running
  book_lot-IsListedAfter books lot = register_currency-IsListedAfter books lot.currency _

  pub after-IsListedAfter :
      (books : Books Date D) (currency : String) (lots : List (Lot Date D))
      (result : CurrencyFxResult Date D) (amount : D)
      → Registers books.order books.results
      → let books' = after books currency lots result amount in
        IsListedAfter books currency books'.order books'.results
  unfolding after updated add_running
  after-IsListedAfter books currency lots result amount =
      register_currency-IsListedAfter books currency result

  abbrev pub opened : OpeningLot Date D → String × D
  opened lot = (lot.currency, lot.quantity)

  unfoldable pub open_lot : Books Date D → OpeningLot Date D → Books Date D
  open_lot books lot = if is_skipped lot.currency lot.quantity then books else book_lot books lot

  open_lot-order :
      (books : Books Date D) (lot : OpeningLot Date D)
      → Registers books.order books.results
      → Registers (open_lot books lot).order (open_lot books lot).results
        × ((open_lot books lot).order ≡ (
            if is_skipped lot.currency lot.quantity
            then books.order
            else with_currency books.order lot.currency))
  unfolding open_lot
  open_lot-order books lot registers = elim (Bool-cases (is_skipped lot.currency lot.quantity)) [
    | inl skipped ↦ rw skipped (registers, refl)
    | inr counted ↦ rw counted (book_lot-IsListedAfter books lot registers)
  ]

  pub open_lots-order :
      (books : Books Date D) (opening : List (OpeningLot Date D))
      → Registers books.order books.results
      → Registers (open_lots books opening).order (open_lots books opening).results
        × ((open_lots books opening).order ≡ first_seen books.order (map opened opening))
  unfolding open_lots first_seen open_lot
  open_lots-order books [] registers = (registers, refl)
  open_lots-order books (lot ∷ opening) registers =
      let (registers', listed) = open_lot-order books lot registers in
      let (registers'', all) = open_lots-order (open_lot books lot) opening registers' in
      (registers'', all ∙ ap (λ (o : List String). first_seen o (map opened opening)) listed)

module _ (Date D : Type 0) ⦃d : Decimal D⦄ where
  pub no_books-Registers :
      Registers {R = CurrencyFxResult Date D}
        (no_books {Date = Date} {D = D}).order
        (no_books {Date = Date} {D = D}).results
  unfolding no_books is_listed get
  no_books-Registers name = refl
