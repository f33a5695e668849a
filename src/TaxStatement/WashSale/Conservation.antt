-- ===== src/TaxStatement/WashSale/Conservation.antt =====
-- What `release` frees: the shares of one date, and the loss that they carried.
use investments.Base.{refl, ◌⊎◌, inl, inr, List, [], ◌∷◌, All, Bool-cases, arith}
use investments.Base.Int.{ℤ}
use investments.Base.Decimal.{Decimal, nought, ◌⊕◌, min, ◌≼◌, ◌≈◌, led, nought_parts}
use investments.TaxStatement.WashSale.Data.{BlockedLot, Reintegration}
use investments.TaxStatement.WashSale.Release.{Released, release_lots, release}
use investments.TaxStatement.WashSale.Matching.{blocking}
use investments.TaxStatement.WashSale.Sums.{
  share, shares, deferred, amounts, IsBlocking, blocking-eq-shares,
}
use investments.TaxStatement.WashSale.Draws.{Keeps, next_of, next_of-Keeps}

module _ {D : Type 0} ⦃d : Decimal D⦄ where
  -- What the loop keeps, and that it stops only when the shares or the lots of the date are used up.
  abbrev KeepsAll : ℤ → List (BlockedLot D) × Released D → List (BlockedLot D) × Released D → Type 0
  KeepsAll date (lots, state) (lots', state') =
      (deferred lots' ⊕ amounts state'.reintegrations
        ≈ deferred lots ⊕ amounts state.reintegrations)
      × (state'.quantity ⊕ state'.consumed ≈ state.quantity ⊕ state.consumed)
      × (shares date lots' ⊕ state'.consumed ≈ shares date lots ⊕ state.consumed)
      × (nought ≼ shares date lots')
      × (nought ≼ state'.quantity)
      × (state'.quantity ≼ state.quantity)
      × ((state'.quantity ≈ nought) ⊎ (shares date lots' ≈ nought))

  shares_nonneg :
      (date : ℤ) (lots : List (BlockedLot D)) → All IsBlocking lots → nought ≼ shares date lots
  unfolding shares
  shares_nonneg date [] _ = omega arith
  shares_nonneg date (lot ∷ lots) ((nonneg, _), all) = ground (
    arith,
    nought_parts d,
    nonneg,
    shares_nonneg date lots all,
    d.add_parts lot.blocked_quantity (shares date lots),
    d.add_parts nought (shares date lots),
  )

  KeepsAll-step :
      (date : ℤ) (lot : BlockedLot D) (lots : List (BlockedLot D)) (state : Released D)
      (next : BlockedLot D × Released D) (rest : List (BlockedLot D) × Released D)
      → Keeps date (lot, state) next
      → KeepsAll date (lots, next.1) rest
      → KeepsAll date (lot ∷ lots, state) (next.0 ∷ rest.0, rest.1)
  unfolding deferred shares
  KeepsAll-step date lot lots state (lot', state') (lots', state'')
        (loss, whole, sum, nonneg, _, less, ends)
        (losses, wholes, sums, nonnegs, left, lesses, all_end) =
      (
        omega (
          arith,
          loss,
          losses,
          d.add_parts lot'.deferred_loss (amounts state'.reintegrations),
          d.add_parts lot.deferred_loss (amounts state.reintegrations),
          d.add_parts (deferred lots') (amounts state''.reintegrations),
          d.add_parts (deferred lots) (amounts state'.reintegrations),
          d.add_parts lot'.deferred_loss (deferred lots'),
          d.add_parts lot.deferred_loss (deferred lots),
          d.add_parts (lot'.deferred_loss ⊕ deferred lots') (amounts state''.reintegrations),
          d.add_parts (lot.deferred_loss ⊕ deferred lots) (amounts state.reintegrations),
        ),
        omega (arith, whole, wholes),
        omega (
          arith,
          sum,
          sums,
          d.add_parts (share date lot') state'.consumed,
          d.add_parts (share date lot) state.consumed,
          d.add_parts (shares date lots') state''.consumed,
          d.add_parts (shares date lots) state'.consumed,
          d.add_parts (share date lot') (shares date lots'),
          d.add_parts (share date lot) (shares date lots),
          d.add_parts (share date lot' ⊕ shares date lots') state''.consumed,
          d.add_parts (share date lot ⊕ shares date lots) state.consumed,
        ),
        ground (
          arith,
          nought_parts d,
          nonneg,
          nonnegs,
          d.add_parts lot'.blocked_quantity (shares date lots'),
          d.add_parts nought (shares date lots'),
        ),
        left,
        omega (arith, less, lesses),
        elim ends [
          | inl done ↦ inl (omega (arith, done, left, lesses))
          | inr gone ↦ elim all_end [
            | inl done ↦ inl done
            | inr all_gone ↦ inr (
                omega (
                  arith,
                  nought_parts d,
                  gone,
                  all_gone,
                  d.add_parts (share date lot') (shares date lots'),
                ))
          ]
        ],
      )

  release_lots-KeepsAll :
      (lots : List (BlockedLot D)) (date : ℤ) (state : Released D)
      → All IsBlocking lots
      → nought ≼ state.quantity
      → KeepsAll date (lots, state) (release_lots lots date state)
  unfolding release_lots
  release_lots-KeepsAll [] date state _ some_left =
      unfold shares in (refl, refl, refl, omega arith, some_left, omega arith, inr refl)
  release_lots-KeepsAll (lot ∷ lots) date state (blocks, all) some_left =
      let next = next_of date lot state in
      elim (Bool-cases (led state.quantity nought)) [
        | inl e ↦ rw e (
          refl,
          refl,
          refl,
          shares_nonneg date (lot ∷ lots) (blocks, all),
          some_left,
          omega arith,
          inl (ground (arith, e, some_left)),
        )
        | inr e ↦
            let kept = next_of-Keeps date lot state (ground (arith, e)) blocks in
            rw e (
              KeepsAll-step date lot lots state next (release_lots lots date next.1) kept
                (release_lots-KeepsAll lots date next.1 all kept.4))
      ]

  -- A sale of shares that are not negative, over lots with no negative shares or losses, consumes
  -- of the shares that block on the date of the lot as many as there are, at most the quantity.
  -- These no longer block. The loss that the lots carry and the amounts released
  -- together stay the same.
  pub release-conserves :
      (lots : List (BlockedLot D)) (lot_date : ℤ) (quantity : D)
      (reintegrations : List (Reintegration D))
      → All IsBlocking lots
      → nought ≼ quantity
      → let (lots', state) = release lots lot_date quantity reintegrations in
        (state.consumed ≈ min quantity (blocking lots lot_date))
        × (blocking lots' lot_date ⊕ state.consumed ≈ blocking lots lot_date)
        × (deferred lots' ⊕ amounts state.reintegrations ≈ deferred lots ⊕ amounts reintegrations)
  unfolding release
  release-conserves lots lot_date quantity reintegrations all nonneg =
      let start : Released D = record {
        quantity = quantity;
        reintegrations = reintegrations;
        consumed = nought;
      } in
      let result = release_lots lots lot_date start in
      let (losses, wholes, sums, nonnegs, left, _, ends) =
        release_lots-KeepsAll lots lot_date start all nonneg in
      let before = blocking-eq-shares lots lot_date in
      let after = blocking-eq-shares result.0 lot_date in
      (
        ground (
          arith,
          nought_parts d,
          wholes,
          sums,
          nonnegs,
          left,
          ends,
          before,
          after,
          d.add_parts result.1.quantity result.1.consumed,
          d.add_parts quantity nought,
          d.add_parts (shares lot_date result.0) result.1.consumed,
          d.add_parts (shares lot_date lots) nought,
        ),
        omega (
          arith,
          nought_parts d,
          sums,
          before,
          after,
          d.add_parts (shares lot_date result.0) result.1.consumed,
          d.add_parts (blocking result.0 lot_date) result.1.consumed,
          d.add_parts (shares lot_date lots) nought,
        ),
        losses,
      )
