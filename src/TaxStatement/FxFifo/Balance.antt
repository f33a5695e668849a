-- ===== src/TaxStatement/FxFifo/Balance.antt =====
-- The balance that lots stand for, and the movements of a ledger.
use investments.Base.{
  ◌≡◌, refl, ◌⊎◌, inl, inr, true, List, [], ◌∷◌, ◌++◌, if◌then◌else◌, All, Bool-cases, arith,
}
use investments.Base.Decimal.{Decimal, nought, ◌⊕◌, ◌≼◌, ◌≺◌, ◌≈◌, is_zero, nought_parts}
use investments.TaxStatement.FxFifo.Data.{Lot, FxLedgerRow}

module _ {Date D : Type 0} ⦃d : Decimal D⦄ where
  -- The balance that the lots stand for.
  unfoldable pub held : List (Lot Date D) → D
  held [] = nought
  held (lot ∷ lots) = lot.qty ⊕ held lots

  -- The movements that a ledger lists.
  unfoldable pub moved : List (FxLedgerRow Date D) → D
  moved [] = nought
  moved (row ∷ rows) = row.units ⊕ moved rows

  pub held-append :
      (lots : List (Lot Date D)) (lot : Lot Date D)
      → held (lots ++ (lot ∷ [])) ≈ held lots ⊕ lot.qty
  unfolding held
  held-append [] lot =
      omega (arith, nought_parts d, d.add_parts lot.qty nought, d.add_parts nought lot.qty)
  held-append (first ∷ lots) lot = omega (
    arith,
    held-append lots lot,
    d.add_parts first.qty (held (lots ++ (lot ∷ []))),
    d.add_parts first.qty (held lots),
    d.add_parts (held lots) lot.qty,
    d.add_parts (first.qty ⊕ held lots) lot.qty,
  )

  pub moved-append :
      (rows : List (FxLedgerRow Date D)) (row : FxLedgerRow Date D)
      → moved (rows ++ (row ∷ [])) ≈ moved rows ⊕ row.units
  unfolding moved
  moved-append [] row =
      omega (arith, nought_parts d, d.add_parts row.units nought, d.add_parts nought row.units)
  moved-append (first ∷ rows) row = omega (
    arith,
    moved-append rows row,
    d.add_parts first.units (moved (rows ++ (row ∷ []))),
    d.add_parts first.units (moved rows),
    d.add_parts (moved rows) row.units,
    d.add_parts (first.units ⊕ moved rows) row.units,
  )

  abbrev pub IsHeld : Lot Date D → Type 0
  IsHeld lot = nought ≺ lot.qty

  abbrev pub IsBorrowed : Lot Date D → Type 0
  IsBorrowed lot = lot.qty ≺ nought

  -- All lots are held, or all are borrowed.
  abbrev pub OneSigned : List (Lot Date D) → Type 0
  OneSigned lots = All IsHeld lots ⊎ All IsBorrowed lots

  -- The lots after a round: the first one, unless nothing is left of it, and the others.
  abbrev pub left_lots : D → Lot Date D → List (Lot Date D) → List (Lot Date D)
  left_lots qty front rest = if is_zero qty then rest else record front { qty = qty } ∷ rest

  pub held-left_lots :
      (qty : D) (front : Lot Date D) (rest : List (Lot Date D))
      → held (left_lots qty front rest) ≈ qty ⊕ held rest
  unfolding held
  held-left_lots qty front rest = elim (Bool-cases (is_zero qty)) [
    | inl e ↦ rw e (ground (arith, e, nought_parts d, d.add_parts qty (held rest)))
    | inr e ↦ rw e refl
  ]

  pub left_lots-rest :
      (qty : D) (front : Lot Date D) (rest : List (Lot Date D))
      → qty ≈ nought
      → left_lots qty front rest ≡ rest
  left_lots-rest qty front rest h =
      let e : is_zero qty ≡ true = ground (arith, h, nought_parts d) in rw e refl

  pub left_lots-OneSigned :
      (qty : D) (front : Lot Date D) (rest : List (Lot Date D))
      → ((qty ≼ nought) × All IsBorrowed rest) ⊎ ((nought ≼ qty) × All IsHeld rest)
      → OneSigned (left_lots qty front rest)
  left_lots-OneSigned qty front rest h = elim (Bool-cases (is_zero qty)) [
    | inl e ↦ rw e (elim h [ inl (_, all) ↦ inr all | inr (_, all) ↦ inl all ])
    | inr e ↦ rw e (elim h [
      | inl (le, all) ↦ inr (ground (arith, e, le, nought_parts d), all)
      | inr (le, all) ↦ inl (ground (arith, e, le, nought_parts d), all)
    ])
  ]
