-- ===== src/TaxStatement/WashSale/Sums.antt =====
-- The shares that lots block, the losses that they carry, and the amounts of releases, as sums.
use investments.Base.{inl, inr, List, [], ◌∷◌, ◌++◌, if◌then◌else◌, Bool-cases, arith}
use investments.Base.Int.{ℤ, eqb_ℤ}
use investments.Base.Decimal.{Decimal, nought, ◌⊕◌, ◌≼◌, ◌≺◌, ◌≈◌, nought_parts}
use investments.TaxStatement.WashSale.Data.{BlockedLot, Reintegration}
use investments.TaxStatement.WashSale.Matching.{blocking, on_date}

module _ {D : Type 0} ⦃d : Decimal D⦄ where
  -- The shares that a lot blocks on a date, and their sum over the lots.
  abbrev pub share : ℤ → BlockedLot D → D
  share date lot = if eqb_ℤ lot.buy_date date then lot.blocked_quantity else nought

  unfoldable pub shares : ℤ → List (BlockedLot D) → D
  shares date [] = nought
  shares date (lot ∷ lots) = share date lot ⊕ shares date lots

  unfoldable pub deferred : List (BlockedLot D) → D
  deferred [] = nought
  deferred (lot ∷ lots) = lot.deferred_loss ⊕ deferred lots

  unfoldable pub amounts : List (Reintegration D) → D
  amounts [] = nought
  amounts (reintegration ∷ rest) = reintegration.amount ⊕ amounts rest

  abbrev pub IsPositive : Reintegration D → Type 0
  IsPositive reintegration = nought ≺ reintegration.amount

  abbrev pub IsBlocking : BlockedLot D → Type 0
  IsBlocking lot = (nought ≼ lot.blocked_quantity) × (nought ≼ lot.deferred_loss)

  pub amounts-append :
      (released : List (Reintegration D)) (last : Reintegration D)
      → amounts (released ++ (last ∷ [])) ≈ amounts released ⊕ last.amount
  unfolding amounts
  amounts-append [] last =
      omega (arith, nought_parts d, d.add_parts last.amount nought, d.add_parts nought last.amount)
  amounts-append (first ∷ rest) last = omega (
    arith,
    amounts-append rest last,
    d.add_parts first.amount (amounts (rest ++ (last ∷ []))),
    d.add_parts first.amount (amounts rest),
    d.add_parts (amounts rest) last.amount,
    d.add_parts (first.amount ⊕ amounts rest) last.amount,
  )

  pub on_date-shares :
      (lots : List (BlockedLot D)) (date : ℤ) (sum : D)
      → on_date lots date sum ≈ sum ⊕ shares date lots
  unfolding on_date shares
  on_date-shares [] date sum = omega (arith, nought_parts d, d.add_parts sum nought)
  on_date-shares (lot ∷ lots) date sum =
      let sum' = if eqb_ℤ lot.buy_date date then sum ⊕ lot.blocked_quantity else sum in
      elim (Bool-cases (eqb_ℤ lot.buy_date date)) [
        | inl e ↦ rw e (
            omega (
              arith,
              on_date-shares lots date (sum ⊕ lot.blocked_quantity),
              d.add_parts sum lot.blocked_quantity,
              d.add_parts (sum ⊕ lot.blocked_quantity) (shares date lots),
              d.add_parts lot.blocked_quantity (shares date lots),
              d.add_parts sum (lot.blocked_quantity ⊕ shares date lots),
            ))
        | inr e ↦ rw e (
            omega (
              arith,
              nought_parts d,
              on_date-shares lots date sum,
              d.add_parts sum (shares date lots),
              d.add_parts nought (shares date lots),
              d.add_parts sum (nought ⊕ shares date lots),
            ))
      ]

  pub blocking-eq-shares :
      (lots : List (BlockedLot D)) (date : ℤ) → blocking lots date ≈ shares date lots
  unfolding blocking
  blocking-eq-shares lots date = omega (
    arith,
    nought_parts d,
    on_date-shares lots date nought,
    d.add_parts nought (shares date lots),
  )
