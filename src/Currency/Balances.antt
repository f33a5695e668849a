-- ===== src/Currency/Balances.antt =====
-- The balance of each currency under deposits, withdrawals and sums of accounts.
use investments.Base.{
  true, false, ◌≡◌, refl, subst, ◌↔◌, List, [], ◌∷◌, ok, arith, if◌then◌else◌, Bool-cases, inl, inr,
}
use investments.Base.Decimal.{Decimal, nought, negate, ◌⊕◌, ◌≈◌, nought_parts}
use investments.Base.Names.{Names, same_congr, same_apart}
use investments.Currency.{
  Cash, deposit, withdraw, add_account, negate_cash, add_cash, sub_cash, add_assign,
  ensure_same_currency,
}

module _ {S D : Type 0} ⦃names : Names S⦄ ⦃d : Decimal D⦄ where
  -- A currency that the account does not hold has a balance of zero.
  pub balance : List (S × D) → S → D
  balance [] currency = nought
  balance ((key, assets) ∷ rest) currency =
      if names.same key currency then assets else balance rest currency

  pub change : Cash S D → S → D
  change cash currency = if names.same cash.currency currency then cash.amount else nought

  pub balance-deposit :
      (account : List (S × D)) (cash : Cash S D) (currency : S)
      → balance (deposit account cash) currency ≈ balance account currency ⊕ change cash currency
  unfolding balance deposit change
  balance-deposit [] cash currency =
      ground (arith, nought_parts d, d.add_parts nought cash.amount, d.add_parts nought nought)
  balance-deposit ((key, assets) ∷ rest) cash currency =
      let same_as = same_congr key cash.currency currency in
      let apart = same_apart key cash.currency currency in
      ground (
        arith,
        nought_parts d,
        same_as,
        apart,
        balance-deposit rest cash currency,
        d.add_parts assets cash.amount,
        d.add_parts assets nought,
        d.add_parts (balance rest currency) cash.amount,
        d.add_parts (balance rest currency) nought,
      )

  -- No currency is listed twice, as in the hash map.
  abbrev pub Absent : S → List (S × D) → Type 0
  Absent currency [] = Unit
  Absent currency ((key, _) ∷ rest) = (names.same key currency ≡ false) × Absent currency rest

  abbrev pub Distinct : List (S × D) → Type 0
  Distinct [] = Unit
  Distinct ((key, _) ∷ rest) = Absent key rest × Distinct rest

  absent_zero :
      (currency : S) (account : List (S × D))
      → Absent currency account
      → balance account currency ≈ nought
  unfolding balance
  absent_zero currency [] h = omega arith
  absent_zero currency ((key, assets) ∷ rest) (differ, h) = rw differ (absent_zero currency rest h)

  -- Depositing and withdrawing the same cash leaves the balance of every currency as it was.
  pub withdraw-deposit :
      (account : List (S × D)) (cash : Cash S D) (currency : S)
      → balance (withdraw (deposit account cash) cash) currency ≈ balance account currency
  unfolding withdraw change negate_cash
  withdraw-deposit account cash currency =
      let deposited = balance-deposit account cash currency in
      let withdrawn = balance-deposit (deposit account cash) (negate_cash cash) currency in
      let at = balance account currency in
      let between = balance (deposit account cash) currency in
      ground (
        arith,
        nought_parts d,
        deposited,
        withdrawn,
        d.neg_parts cash.amount,
        d.add_parts at cash.amount,
        d.add_parts at nought,
        d.add_parts between (negate cash.amount),
        d.add_parts between nought,
      )

  -- The sum of two accounts, of which the second lists no currency twice, has in every currency the
  -- sum of the balances, in whatever order the entries of the second are taken.
  pub balance-add_account :
      (account other : List (S × D)) (currency : S)
      → Distinct other
      → balance (add_account account other) currency
        ≈ balance account currency ⊕ balance other currency
  unfolding add_account balance change
  balance-add_account account [] currency h =
      omega (arith, nought_parts d, d.add_parts (balance account currency) nought)
  balance-add_account account ((key, assets) ∷ other) currency (absent, h) =
      let entry : Cash S D = record { currency = key; amount = assets } in
      let rest = balance other currency in
      let between = balance (deposit account entry) currency in
      let sum = balance-add_account (deposit account entry) other currency h in
      let deposited = balance-deposit account entry currency in
      elim (Bool-cases (names.same key currency)) [
        | inl e ↦
            let none_left =
              absent_zero currency other
                (subst (λ (x : S). Absent x other) ((names.same_iff key currency).0 e) absent) in
            ground (
              arith,
              e,
              nought_parts d,
              sum,
              deposited,
              none_left,
              d.add_parts between rest,
              d.add_parts (balance account currency) assets,
            )
        | inr e ↦ ground (
          arith,
          e,
          nought_parts d,
          sum,
          deposited,
          d.add_parts between rest,
          d.add_parts (balance account currency) nought,
          d.add_parts (balance account currency) rest,
        )
      ]

  -- A sum of two amounts is formed exactly when they are in one currency; it is in that currency
  -- too, and taking the second off again gives the value of the first.
  pub add_cash_iff :
      (a b : Cash S D)
      → ((sum : Cash S D) × (add_cash a b ≡ ok sum)
          × (sum.amount ≈ a.amount ⊕ b.amount)
          × ((back : Cash S D) × (sub_cash sum b ≡ ok back)
              × (back.currency ≡ a.currency)
              × (back.amount ≈ a.amount)))
        ↔ (a.currency ≡ b.currency)
  unfolding add_cash sub_cash add_assign ensure_same_currency negate_cash
  add_cash_iff a b = (
    λ r. elim (Bool-cases (names.same a.currency b.currency)) [
      | inl e ↦ (names.same_iff a.currency b.currency).0 e
      | inr e ↦ absurd (ground (arith, e, r.1))
    ],
    λ h.
        let same : names.same a.currency b.currency ≡ true =
          (names.same_iff a.currency b.currency).1 h in
        let sum = a.amount ⊕ b.amount in
        (
          record a { amount = sum },
          rw same refl,
          omega arith,
          (
            record a { amount = sum ⊕ negate b.amount },
            rw same refl,
            refl,
            omega (
              arith,
              d.add_parts a.amount b.amount,
              d.neg_parts b.amount,
              d.add_parts sum (negate b.amount),
            ),
          ),
        ),
  )
