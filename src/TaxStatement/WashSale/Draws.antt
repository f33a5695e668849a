-- ===== src/TaxStatement/WashSale/Draws.antt =====
-- What one lot of the loop of release keeps.
use investments.Base.{
  ◌≡◌, refl, ◌⊎◌, inl, inr, true, false, [], ◌∷◌, ◌++◌, if◌then◌else◌, Bool-cases, arith,
}
use investments.Base.Int.{ℤ, eqb_ℤ}
use investments.Base.Decimal.{
  Decimal, nought, ◌⊕◌, ◌⊖◌, ◌⊗◌, ◌≼◌, ◌≺◌, ◌≈◌, nought_parts, mul_nonneg, div_nonneg,
}
use investments.TaxStatement.WashSale.Data.{BlockedLot, Reintegration}
use investments.TaxStatement.WashSale.Release.{Released, is_passed, draw, taken_of, loss_of}
use investments.TaxStatement.WashSale.Sums.{share, amounts, IsBlocking, amounts-append}

module _ {D : Type 0} ⦃d : Decimal D⦄ where
  -- What one lot of the loop keeps, while there are shares left to consume.
  abbrev pub Keeps : ℤ → BlockedLot D × Released D → BlockedLot D × Released D → Type 0
  Keeps date (lot, state) (lot', state') =
      (lot'.deferred_loss ⊕ amounts state'.reintegrations
        ≈ lot.deferred_loss ⊕ amounts state.reintegrations)
      × (state'.quantity ⊕ state'.consumed ≈ state.quantity ⊕ state.consumed)
      × (share date lot' ⊕ state'.consumed ≈ share date lot ⊕ state.consumed)
      × (nought ≼ lot'.blocked_quantity)
      × (nought ≼ state'.quantity)
      × (state'.quantity ≼ state.quantity)
      × ((state'.quantity ≈ nought) ⊎ (share date lot' ≈ nought))

  pub draw-Keeps :
      (date : ℤ) (lot : BlockedLot D) (state : Released D)
      → nought ≺ state.quantity
      → IsBlocking lot
      → is_passed lot date ≡ false
      → Keeps date (lot, state) (draw lot state)
  unfolding draw is_passed
  draw-Keeps date lot state some_left (_, loss) fits =
      let taken = taken_of lot state.quantity in
      let released = loss_of lot state.quantity in
      let shares_left : nought ≺ lot.blocked_quantity = ground (arith, fits) in
      let same : eqb_ℤ lot.buy_date date ≡ true = ground (arith, fits) in
      let at_least : nought ≼ taken = ground (arith, shares_left, some_left) in
      let nonneg : nought ≼ released =
        div_nonneg (lot.deferred_loss ⊗ taken) lot.blocked_quantity
          (mul_nonneg lot.deferred_loss taken loss at_least) shares_left in
      let loss' = lot.deferred_loss ⊖ released in
      let pushed : Reintegration D = record {
        buy_date = lot.buy_date;
        origin_sale_date = lot.origin_sale_date;
        amount = released;
      } in
      rw same (
        ground (
          arith,
          nought_parts d,
          nonneg,
          amounts-append state.reintegrations pushed,
          d.sub_parts lot.deferred_loss released,
          d.add_parts (amounts state.reintegrations) released,
          d.add_parts loss' (amounts (state.reintegrations ++ (pushed ∷ []))),
          d.add_parts loss' (amounts state.reintegrations),
          d.add_parts lot.deferred_loss (amounts state.reintegrations),
        ),
        omega (
          arith,
          d.sub_parts state.quantity taken,
          d.add_parts state.consumed taken,
          d.add_parts (state.quantity ⊖ taken) (state.consumed ⊕ taken),
          d.add_parts state.quantity state.consumed,
        ),
        omega (
          arith,
          d.sub_parts lot.blocked_quantity taken,
          d.add_parts state.consumed taken,
          d.add_parts (lot.blocked_quantity ⊖ taken) (state.consumed ⊕ taken),
          d.add_parts lot.blocked_quantity state.consumed,
        ),
        ground (arith, nought_parts d, d.sub_parts lot.blocked_quantity taken),
        ground (arith, nought_parts d, d.sub_parts state.quantity taken),
        ground (arith, nought_parts d, at_least, d.sub_parts state.quantity taken),
        ground (
          arith,
          nought_parts d,
          d.sub_parts state.quantity taken,
          d.sub_parts lot.blocked_quantity taken,
        ),
      )

  abbrev pub next_of : ℤ → BlockedLot D → Released D → BlockedLot D × Released D
  next_of date lot state = if is_passed lot date then (lot, state) else draw lot state

  pub next_of-Keeps :
      (date : ℤ) (lot : BlockedLot D) (state : Released D)
      → nought ≺ state.quantity
      → IsBlocking lot
      → Keeps date (lot, state) (next_of date lot state)
  next_of-Keeps date lot state some_left (shares_left, loss) =
      elim (Bool-cases (is_passed lot date)) [
        | inl e ↦
            let gone : share date lot ≈ nought =
              unfold is_passed in ground (arith, nought_parts d, e, shares_left) in
            rw e (refl, refl, refl, shares_left, omega (arith, some_left), omega arith, inr gone)
        | inr e ↦ rw e (draw-Keeps date lot state some_left (shares_left, loss) e)
      ]
