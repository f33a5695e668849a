-- ===== src/TaxStatement/FxFifo/Registered.antt =====
-- The books after a currency is registered.
use investments.Base.{
  ◌≡◌, refl, sym, subst, ◌∙◌, inl, inr, Option, none, some, List, [], ◌∷◌, String, All, All-append,
  Bool-cases, arith,
}
use investments.Base.Names.{
  strings, get, get_or, insert, get-insert, get_or-insert, get_or-none, same_self,
}
use investments.Base.Decimal.{Decimal, nought, ◌≈◌}
use investments.TaxStatement.FxFifo.Data.{Lot, CurrencyFxResult, FxLedgerRow}
use investments.TaxStatement.FxFifo.Balance.{held, moved, OneSigned}
use investments.TaxStatement.FxFifo.Replay.{Books, new_result, register_as}

module _ {Date D : Type 0} ⦃d : Decimal D⦄ where
  abbrev pub lots_of : Books Date D → String → List (Lot Date D)
  lots_of books currency = get_or [] books.lots currency

  abbrev pub ledger_of : Books Date D → String → List (FxLedgerRow Date D)
  ledger_of books currency = (get_or (new_result currency) books.results currency).ledger

  abbrev pub running_of : Books Date D → String → D
  running_of books currency = get_or nought books.running currency

  -- What the books keep of one currency.
  pub record Balanced (books : Books Date D) (currency : String) : Type 0 where
    pub one_sign : OneSigned (lots_of books currency)
    pub lots_sum : held (lots_of books currency) ≈ running_of books currency
    pub rows_sum : moved (ledger_of books currency) ≈ running_of books currency
    pub unregistered : get books.results currency ≡ none → lots_of books currency ≡ []

  abbrev pub Listed : Books Date D → Type 0
  Listed books =
      All (λ currency. (r : CurrencyFxResult Date D) × (get books.results currency ≡ some r))
        books.order

  pub record IsSound (books : Books Date D) : Type 0 where
    pub balanced : (currency : String) → Balanced books currency
    pub listed : Listed books

  -- Registering a currency changes nothing that is read of any currency.
  pub register_as-lots :
      (books : Books Date D) (currency other : String) (found : Option (CurrencyFxResult Date D))
      → (found ≡ none → lots_of books currency ≡ [])
      → lots_of (register_as books currency found) other ≡ lots_of books other
  unfolding register_as
  register_as-lots books currency other (some r) empty = refl
  register_as-lots books currency other none empty =
      let put = get_or-insert [] books.lots currency other [] in
      elim (Bool-cases (strings.same currency other)) [
        | inl same ↦
            let equal : currency ≡ other = (strings.same_iff currency other).0 same in
            put ∙ rw same (subst (λ (c : String). [] ≡ lots_of books c) equal (sym (empty refl)))
        | inr differ ↦ put ∙ rw differ refl
      ]

  pub register_as-results :
      (books : Books Date D) (currency other : String) (found : Option (CurrencyFxResult Date D))
      → get books.results currency ≡ found
      → get_or (new_result other) (register_as books currency found).results other
        ≡ get_or (new_result other) books.results other
  unfolding register_as
  register_as-results books currency other (some r) e = refl
  register_as-results books currency other none e =
      let put =
        get_or-insert (new_result other) books.results currency other (new_result currency) in
      elim (Bool-cases (strings.same currency other)) [
        | inl same ↦
            let equal : currency ≡ other = (strings.same_iff currency other).0 same in
            let missing = get_or-none (new_result currency) books.results currency e in
            put
            ∙ rw same (
                subst (λ (c : String). new_result currency ≡ get_or (new_result c) books.results c)
                  equal (sym missing))
        | inr differ ↦ put ∙ rw differ refl
      ]

  -- What is listed stays listed when a currency gets a result.
  pub listed-insert :
      (results : List (String × CurrencyFxResult Date D)) (currency : String)
      (result : CurrencyFxResult Date D) (order : List String)
      → All (λ c. (r : CurrencyFxResult Date D) × (get results c ≡ some r)) order
      → All
          (λ c. (r : CurrencyFxResult Date D) × (get (insert results currency result) c ≡ some r))
          order
  listed-insert results currency result [] h = tt
  listed-insert results currency result (c ∷ order) ((r, e), h) =
      let put = get-insert results currency c result in
      (
        elim (Bool-cases (strings.same currency c)) [
          | inl same ↦ (result, put ∙ rw same refl)
          | inr differ ↦ (r, put ∙ rw differ e)
        ],
        listed-insert results currency result order h,
      )

  pub register_as-missing :
      (books : Books Date D) (currency other : String) (found : Option (CurrencyFxResult Date D))
      → get (register_as books currency found).results other ≡ none
      → get books.results other ≡ none
  unfolding register_as
  register_as-missing books currency other (some r) e = e
  register_as-missing books currency other none e =
      let put = get-insert books.results currency other (new_result currency) in
      elim (Bool-cases (strings.same currency other)) [
        | inl same ↦ absurd (ground (arith, put, same, e))
        | inr differ ↦ ground (arith, put, differ, e)
      ]

  -- The list of currencies after a registration and the new result of the one registered.
  pub register_as-Listed :
      (books : Books Date D) (currency : String) (found : Option (CurrencyFxResult Date D))
      (result : CurrencyFxResult Date D)
      → Listed books
      → let registered = register_as books currency found in
        All
          (λ c.
            (r : CurrencyFxResult Date D) × (get (insert registered.results currency result) c
              ≡ some r))
          registered.order
  unfolding register_as
  register_as-Listed books currency (some r) result h =
      listed-insert books.results currency result books.order h
  register_as-Listed books currency none result h =
      let registered = insert books.results currency (new_result currency) in
      let put = get-insert registered currency currency result in
      All-append _ books.order (currency ∷ [])
        (listed-insert registered currency result books.order
          (listed-insert books.results currency (new_result currency) books.order h))
        ((result, put ∙ rw (same_self currency) refl), tt)
