-- ===== src/Currency.antt =====
-- Cash with a currency, src/currency/cash.rs, and accounts in several currencies,
-- src/currency/multi.rs. Formatting, the order of `Cash`, and the conversion between currencies are
-- left out. An account is a list of its entries, in the order in which the hash map iterates.
pub mod Balances
use investments.Base.Names.{Names}
use investments.Base.{
  Bool, true, not, ◌&&◌, ◌≡◌, ◌↔◌, Option, none, some, List, [], ◌∷◌, Result, ok, err, ◌>>=◌,
  if◌then◌else◌,
}
use investments.Base.Decimal.{Decimal, nought, dec, negate, ◌⊕◌, ◌⊘◌, is_zero}
use investments.Util.{is_sign_positive, round_amount, round_to}

pub record Cash (S D : Type 0) : Type 0 where
  pub currency : S
  pub amount : D

pub data CashError (S : Type 0) : Type 0 where
  currency_mismatch : S → S → CashError S

module _ {S D : Type 0} ⦃names : Names S⦄ ⦃d : Decimal D⦄ where
  pub zero_cash : S → Cash S D
  zero_cash currency = record { currency = currency; amount = nought }

  pub negate_cash : Cash S D → Cash S D
  negate_cash cash = record cash { amount = negate cash.amount }

  pub ensure_same_currency : Cash S D → Cash S D → Result (CashError S) (Unit {0})
  ensure_same_currency cash other =
      if names.same cash.currency other.currency
      then ok tt
      else err (currency_mismatch cash.currency other.currency)

  pub add_assign : Cash S D → Cash S D → Result (CashError S) (Cash S D)
  unfolding ensure_same_currency
  add_assign cash amount = ensure_same_currency cash amount >>= λ _.
      ok (record cash { amount = cash.amount ⊕ amount.amount })

  pub add_cash : Cash S D → Cash S D → Result (CashError S) (Cash S D)
  unfolding add_assign
  add_cash cash amount = add_assign cash amount >>= λ sum. ok sum

  pub sub_cash : Cash S D → Cash S D → Result (CashError S) (Cash S D)
  unfolding add_cash negate_cash
  sub_cash cash amount = add_cash cash (negate_cash amount)

  pub div_cash : Cash S D → Cash S D → Result (CashError S) D
  unfolding ensure_same_currency
  div_cash cash amount = ensure_same_currency cash amount >>= λ _. ok (cash.amount ⊘ amount.amount)

  -- `MultiCurrencyCashAccount::get`, for the amount.
  pub get : List (S × D) → S → Option D
  get [] currency = none
  get ((key, assets) ∷ rest) currency =
      if names.same key currency then some assets else get rest currency

  pub deposit : List (S × D) → Cash S D → List (S × D)
  deposit [] amount = (amount.currency, amount.amount) ∷ []
  deposit ((key, assets) ∷ rest) amount =
      let rest' = deposit rest amount in
      if names.same key amount.currency
      then (key, assets ⊕ amount.amount) ∷ rest
      else (key, assets) ∷ rest'

  pub withdraw : List (S × D) → Cash S D → List (S × D)
  unfolding deposit negate_cash
  withdraw account amount = deposit account (negate_cash amount)

  -- `MultiCurrencyCashAccount::add`.
  pub add_account : List (S × D) → List (S × D) → List (S × D)
  unfolding deposit
  add_account account [] = account
  add_account account ((currency, amount) ∷ other) =
      add_account (deposit account (record { currency = currency; amount = amount })) other
