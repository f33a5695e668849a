-- ===== src/Taxes/Germany/LossCarryforward/Balance.antt =====
-- What one year of `calculate_with_loss_carryforward` does to the gain
-- and to the balance.
use investments.Base.{◌⊎◌, arith}
use investments.Base.Decimal.{
  Decimal, nought, ◌⊕◌, ◌⊖◌, ◌≼◌, ◌≈◌, max, min, negate, nought_parts, abs_parts,
}
use investments.Taxes.Germany.LossCarryforward.{calculate_with_loss_carryforward}

module _ {D : Type 0} ⦃d : Decimal D⦄ where
  -- From a balance that is not negative, nothing that a year reports is negative. What is taxed and
  -- what is used add up to the gain, or to nothing in a year of loss; the next balance is the old
  -- one less what is used, plus the year's loss; and a year is taxed only when it has used up the
  -- whole balance.
  pub calculate_with_loss_carryforward_lem :
      (gains balance : D)
      → nought ≼ balance
      → let (taxable, used, remaining) = calculate_with_loss_carryforward gains balance in
        (nought ≼ taxable)
        × (nought ≼ used)
        × (nought ≼ remaining)
        × (taxable ⊕ used ≈ max gains nought)
        × (remaining ⊕ used ≈ balance ⊕ max (negate gains) nought)
        × ((taxable ≈ nought) ⊎ (remaining ≈ nought))
  unfolding calculate_with_loss_carryforward
  calculate_with_loss_carryforward_lem gains balance h =
      let used = min balance gains in
      let loss = d.abs gains in
      ground (
        arith,
        nought_parts d,
        d.sub_parts gains used,
        d.sub_parts balance used,
        d.add_parts (gains ⊖ used) used,
        d.add_parts (balance ⊖ used) used,
        d.add_parts balance (max (negate gains) nought),
        d.neg_parts gains,
        d.add_parts balance (d.abs loss),
        d.add_parts (balance ⊕ d.abs loss) nought,
        d.add_parts nought nought,
        abs_parts gains,
        abs_parts loss,
      )
