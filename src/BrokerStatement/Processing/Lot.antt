-- ===== src/BrokerStatement/Processing/Lot.antt =====
-- One step of the loop that closes a position: what it takes of the lot at hand.
use investments.Base.{◌≡◌, refl, true, ok, arith, ◌+◌, ◌^◌}
use investments.Base.Decimal.{
  Decimal, nought, ◌⊕◌, ◌⊖◌, ◌⊗◌, ◌⊘◌, ◌≼◌, ◌≺◌, ◌≈◌, min, ltd, led, eqd, nought_parts,
}
use investments.BrokerStatement.Trades.{StockBuy, get_unsold, sell, source_of}
use investments.BrokerStatement.Processing.{take_lot}

module _ {D : Type 0} ⦃d : Decimal D⦄ where
  -- A lot of which something is left.
  abbrev pub IsOpen : StockBuy D → Type 0
  IsOpen buy = (nought ≼ buy.sold) × (buy.sold ≺ buy.quantity)

  -- A multiplier of one.
  abbrev pub IsOne : D → Type 0
  IsOne multiplier = d.pos_part multiplier ≡ d.neg_part multiplier + 10 ^ 28

  -- The lot after the sale of a part.
  abbrev pub sold_by : StockBuy D → D → StockBuy D
  sold_by buy quantity = record buy { sold = buy.sold ⊕ quantity }

  -- With a multiplier of one, the lower of what is to be sold and what is left of the lot is taken,
  -- no assertion fails, and the lot is sold out just if all of it is taken.
  pub take_lot_lem :
      (buy : StockBuy D) (remaining multiplier : D)
      → IsOpen buy
      → nought ≺ remaining
      → IsOne multiplier
      → (quantity remaining' : D) × (take_lot buy remaining multiplier
          ≡ ok (sold_by buy quantity, source_of buy quantity multiplier, remaining'))
        × (quantity ≈ min remaining (get_unsold buy))
        × (multiplier ⊗ quantity ≈ quantity)
        × (remaining' ⊕ quantity ≈ remaining)
  unfolding take_lot get_unsold sell
  take_lot_lem buy remaining multiplier (h, h') pos one =
      let unsold = buy.quantity ⊖ buy.sold in
      let unsold_quantity = multiplier ⊗ unsold in
      let sell_quantity = min remaining unsold_quantity in
      let ratio = sell_quantity ⊘ multiplier in
      let q = d.normalize ratio in
      let left = d.sub_parts buy.quantity buy.sold in
      let whole : unsold_quantity ≈ unsold =
        omega (arith, d.mul_comm multiplier unsold, d.mul_one unsold multiplier one) in
      let same : q ≈ sell_quantity =
        omega (arith, d.normalize_parts ratio, d.div_one sell_quantity multiplier one) in
      let product : q ⊗ multiplier ≈ q = d.mul_one q multiplier one in
      let some_left : ltd nought sell_quantity ≡ true =
        ground (arith, whole, left, h', pos, nought_parts d) in
      let exact : eqd (q ⊗ multiplier) sell_quantity ≡ true = ground (arith, product, same) in
      let fits : led q unsold ≡ true = ground (arith, same, whole) in
      let rest = remaining ⊖ sell_quantity in
      (
        q,
        rest,
        rw (some_left, exact, fits) refl,
        ground (arith, same, whole),
        omega (arith, product, d.mul_comm multiplier q),
        omega (arith, same, d.sub_parts remaining sell_quantity, d.add_parts rest q),
      )
