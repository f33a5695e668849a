-- ===== src/TaxStatement/WashSale/Release.antt =====
-- `release`: the deferrals that the sale of their blocking shares sets free, oldest first.
use investments.Base.{Bool, not, ◌||◌, List, [], ◌∷◌, ◌++◌, if◌then◌else◌}
use investments.Base.Int.{ℤ, eqb_ℤ}
use investments.Base.Decimal.{Decimal, nought, ◌⊕◌, ◌⊖◌, ◌⊗◌, ◌⊘◌, min, ltd, led}
use investments.TaxStatement.WashSale.Data.{BlockedLot, Reintegration}

-- The variables of the loop: what is left of the quantity, the releases, and the shares consumed.
pub record Released (D : Type 0) : Type 0 where
  pub quantity : D
  pub reintegrations : List (Reintegration D)
  pub consumed : D

module _ {D : Type 0} ⦃d : Decimal D⦄ where
  -- The condition of `continue`.
  unfoldable pub is_passed : BlockedLot D → ℤ → Bool
  is_passed lot lot_date = not (eqb_ℤ lot.buy_date lot_date) || led lot.blocked_quantity nought

  -- The shares that a lot gives, and the loss that goes with them.
  abbrev pub taken_of : BlockedLot D → D → D
  taken_of lot quantity = min quantity lot.blocked_quantity

  abbrev pub loss_of : BlockedLot D → D → D
  loss_of lot quantity = lot.deferred_loss ⊗ taken_of lot quantity ⊘ lot.blocked_quantity

  unfoldable pub draw : BlockedLot D → Released D → BlockedLot D × Released D
  draw lot state =
      let taken = taken_of lot state.quantity in
      let released = loss_of lot state.quantity in
      (
        record lot {
          deferred_loss = lot.deferred_loss ⊖ released;
          blocked_quantity = lot.blocked_quantity ⊖ taken;
        },
        record {
          quantity = state.quantity ⊖ taken;
          consumed = state.consumed ⊕ taken;
          reintegrations =
              if ltd nought released
              then state.reintegrations
                ++ (record {
                  buy_date = lot.buy_date;
                  origin_sale_date = lot.origin_sale_date;
                  amount = released;
                }
                    ∷ [])
              else state.reintegrations;
        },
      )

  -- The loop over the blocked lots.
  unfoldable pub release_lots :
      List (BlockedLot D) → ℤ → Released D → List (BlockedLot D) × Released D
  unfolding is_passed draw
  release_lots [] lot_date state = ([], state)
  release_lots (lot ∷ lots) lot_date state =
      let next = if is_passed lot lot_date then (lot, state) else draw lot state in
      let rest = release_lots lots lot_date next.1 in
      if led state.quantity nought then (lot ∷ lots, state) else (next.0 ∷ rest.0, rest.1)

  unfoldable pub release :
      List (BlockedLot D) → ℤ → D → List (Reintegration D) → List (BlockedLot D) × Released D
  unfolding release_lots
  release lots lot_date quantity reintegrations =
      release_lots lots lot_date
        (record { quantity = quantity; reintegrations = reintegrations; consumed = nought })
