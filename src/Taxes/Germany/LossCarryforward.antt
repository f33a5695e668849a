-- ===== src/Taxes/Germany/LossCarryforward.antt =====
-- The German loss carryforward, src/taxes/germany/loss_carryforward.rs. The log lines are left out.
pub mod Balance
use investments.Base.{if◌then◌else◌}
use investments.Base.Decimal.{Decimal, nought, ◌⊕◌, ◌⊖◌, min, led, ltd}

pub record LossCarryforward (D : Type 0) : Type 0 where
  pub previous_balance : D
  pub used : D
  pub current_year_loss : D
  pub remaining_balance : D

module _ {D : Type 0} ⦃d : Decimal D⦄ where
  -- `LossCarryforward::new`.
  pub new_carryforward : D → LossCarryforward D
  new_carryforward previous_balance = record {
    previous_balance = previous_balance;
    used = nought;
    current_year_loss = nought;
    remaining_balance = previous_balance;
  }

  -- The taxable amount, and the ledger after it.
  pub apply_to_gains : LossCarryforward D → D → D × LossCarryforward D
  apply_to_gains cf gross_gain =
      if led gross_gain nought
      then (nought, record cf { current_year_loss = d.abs gross_gain })
      else (let applicable = min cf.previous_balance gross_gain in
          (
            gross_gain ⊖ applicable,
            record cf { used = applicable; remaining_balance = cf.previous_balance ⊖ applicable },
          ))

  pub add_current_year_loss : LossCarryforward D → D → LossCarryforward D
  add_current_year_loss cf loss = record cf {
    current_year_loss = cf.current_year_loss ⊕ d.abs loss;
    remaining_balance = cf.remaining_balance ⊕ d.abs loss;
  }

  pub balance_for_next_year : LossCarryforward D → D
  balance_for_next_year cf = cf.remaining_balance

  -- The taxable amount, the carryforward used, and the balance for the next year.
  pub calculate_with_loss_carryforward : D → D → D × D × D
  unfolding new_carryforward apply_to_gains add_current_year_loss balance_for_next_year
  calculate_with_loss_carryforward gross_gains loss_carryforward_balance =
      let cf = new_carryforward loss_carryforward_balance in
      if ltd gross_gains nought
      then (nought, nought, balance_for_next_year (add_current_year_loss cf (d.abs gross_gains)))
      else (let (taxable, cf') = apply_to_gains cf gross_gains in
          (taxable, cf'.used, balance_for_next_year cf'))
