-- ===== src/TaxStatement/Germany/Statement/Assessed.antt =====
-- What becomes of the two pots, their balances and the allowance.
use investments.Base.{◌⊎◌, inl, inr, arith}
use investments.Base.Decimal.{
  Decimal, nought, dec, negate, ◌⊕◌, ◌⊖◌, ◌⊗◌, ◌≼◌, ◌≺◌, ◌≈◌, min, max, nought_parts, IsQuotient,
}
use investments.Taxes.Germany.LossCarryforward.{calculate_with_loss_carryforward}
use investments.Taxes.Germany.LossCarryforward.Balance.{calculate_with_loss_carryforward_lem}
use investments.Taxes.Germany.Rates.{GermanTaxRates, IsValid, compute_taxes, compute_taxes_bounds}
use investments.TaxStatement.Germany.Totals.{Sums, assess}
use investments.TaxStatement.Germany.Statement.{GermanTaxStatement}
use investments.TaxStatement.Germany.Statement.Pots.{stock_net, general_net}

module _ {D : Type 0} ⦃d : Decimal D⦄ where
  -- The balances and the allowance that a statement starts from are not negative.
  abbrev pub HasPriors : GermanTaxStatement D → Type 0
  HasPriors s =
      (nought ≼ s.loss_carryforward_stock_prior)
      × (nought ≼ s.loss_carryforward_other_prior)
      × (nought ≼ s.sparer_pauschbetrag)

  -- A pot and its balance: what is taxed and the new balance, against the results and the old one.
  pub pot_conserves :
      (gains balance : D)
      → nought ≼ balance
      → let (taxable, _, remaining) = calculate_with_loss_carryforward gains balance in
        (nought ≼ taxable)
        × (nought ≼ remaining)
        × (taxable ⊕ balance ≈ gains ⊕ remaining)
        × (remaining ≈ max (balance ⊖ gains) nought)
  pot_conserves gains balance h =
      let (taxable, used, remaining) = calculate_with_loss_carryforward gains balance in
      let loss = max (negate gains) nought in
      let (a, _, c, sum, left, none) = calculate_with_loss_carryforward_lem gains balance h in
      (
        a,
        c,
        ground (
          arith,
          sum,
          left,
          d.add_parts taxable used,
          d.add_parts remaining used,
          d.add_parts balance loss,
          d.add_parts taxable balance,
          d.add_parts gains remaining,
          d.neg_parts gains,
          nought_parts d,
        ),
        ground (
          arith,
          a,
          c,
          sum,
          left,
          none,
          d.sub_parts balance gains,
          d.add_parts taxable used,
          d.add_parts remaining used,
          d.add_parts balance loss,
          d.neg_parts gains,
          nought_parts d,
        ),
      )

  pub assess-conserves :
      (rates : GermanTaxRates D) (stock_prior other_prior allowance : D) (s : Sums D)
      → nought ≼ stock_prior
      → nought ≼ other_prior
      → nought ≼ allowance
      → let a = assess rates stock_prior other_prior allowance s in
        (a.total_taxable_income ⊕ a.sparer_pauschbetrag_used ⊕ stock_prior ⊕ other_prior
          ≈ stock_net s
            ⊕ general_net s
            ⊕ a.loss_carryforward_stock_next
            ⊕ a.loss_carryforward_other_next)
        × (nought ≼ a.total_taxable_income)
        × (nought ≼ a.sparer_pauschbetrag_used)
        × (a.sparer_pauschbetrag_used ≼ allowance)
        × (a.loss_carryforward_stock_next ≈ max (stock_prior ⊖ stock_net s) nought)
        × (a.loss_carryforward_other_next ≈ max (other_prior ⊖ general_net s) nought)
        × ((a.total_taxable_income ≈ nought) ⊎ (a.sparer_pauschbetrag_used ≈ allowance))
  unfolding assess
  assess-conserves rates stock_prior other_prior allowance s h h' k =
      let gains = s.stock_gains ⊖ s.stock_losses in
      let gains' = s.general_gains ⊖ s.general_losses in
      let (x, _, next) = calculate_with_loss_carryforward gains stock_prior in
      let (y, _, next') = calculate_with_loss_carryforward gains' other_prior in
      let (a, b, c, e) = pot_conserves gains stock_prior h in
      let (a', b', c', e') = pot_conserves gains' other_prior h' in
      let sum = d.add_parts x y in
      let taken = d.sub_parts (x ⊕ y) allowance in
      let used = min allowance (x ⊕ y) in
      let left = max ((x ⊕ y) ⊖ allowance) nought in
      let z = nought_parts d in
      let split : left ⊕ used ≈ x ⊕ y =
        ground (arith, sum, taken, a, a', z, d.add_parts left used) in
      (
        omega (
          arith,
          c,
          c',
          split,
          sum,
          d.add_parts left used,
          d.add_parts x stock_prior,
          d.add_parts y other_prior,
          d.add_parts gains next,
          d.add_parts gains' next',
          d.add_parts (left ⊕ used) stock_prior,
          d.add_parts (left ⊕ used ⊕ stock_prior) other_prior,
          d.add_parts gains gains',
          d.add_parts (gains ⊕ gains') next,
          d.add_parts (gains ⊕ gains' ⊕ next) next',
        ),
        ground (arith, z),
        ground (arith, z, sum, a, a', k),
        ground arith,
        e,
        e',
        ground (arith, z, sum, taken, a, a', k),
      )

  pub assess_bounds :
      (rates : GermanTaxRates D) (stock_prior other_prior allowance : D) (s : Sums D)
      (shares others x : D)
      → nought ≼ stock_prior
      → nought ≼ other_prior
      → IsValid rates
      → stock_net s ≈ shares
      → general_net s ≈ others
      → let a = assess rates stock_prior other_prior allowance s in
        let credit = s.total_foreign_tax_credit in
        IsQuotient a.total_abgeltungssteuer
          (max (a.total_taxable_income ⊖ dec 4 0 ⊗ credit) nought)
          (dec 4 0 ⊕ rates.kirchensteuer)
          x
        × (a.total_kirchensteuer ≈ a.total_abgeltungssteuer ⊗ rates.kirchensteuer)
        × (a.total_solidaritaetszuschlag ≈ a.total_abgeltungssteuer ⊗ rates.solidaritaetszuschlag)
        × (a.net_tax_due
            ≈ a.total_abgeltungssteuer ⊕ a.total_kirchensteuer ⊕ a.total_solidaritaetszuschlag)
        × (shares ⊖ stock_prior ⊖ allowance ≼ a.total_taxable_income)
        × (others ⊖ other_prior ⊖ allowance ≼ a.total_taxable_income)
        × (a.net_tax_due ≈ a.total_german_tax)
        × (nought ≼ a.net_tax_due)
        × (a.total_abgeltungssteuer ≼ max (a.total_taxable_income ⊖ dec 4 0 ⊗ credit) nought)
        × ((dec 4 0 ⊗ credit ≺ a.total_taxable_income) ⊎ (a.net_tax_due ≈ nought))
  unfolding assess
  assess_bounds rates stock_prior other_prior allowance s shares others amount h h' valid same
        same' =
      let gains = s.stock_gains ⊖ s.stock_losses in
      let gains' = s.general_gains ⊖ s.general_losses in
      let (x, _, next) = calculate_with_loss_carryforward gains stock_prior in
      let (y, _, next') = calculate_with_loss_carryforward gains' other_prior in
      let (a, b, c, _) = pot_conserves gains stock_prior h in
      let (a', b', c', _) = pot_conserves gains' other_prior h' in
      let taxable = max ((x ⊕ y) ⊖ allowance) nought in
      let credit = s.total_foreign_tax_credit in
      let taxes = compute_taxes rates taxable credit in
      let (quotient, church, solidarity, sums, flat, _, _, whole, small, none) =
        compute_taxes_bounds rates valid taxable credit amount in
      let z = nought_parts d in
      let sum = d.add_parts x y in
      let taken = d.sub_parts (x ⊕ y) allowance in
      (
        quotient,
        church,
        solidarity,
        ground (arith, flat, whole, sums),
        ground (
          arith,
          a,
          a',
          b,
          c,
          z,
          sum,
          taken,
          same,
          d.add_parts x stock_prior,
          d.add_parts gains next,
          d.sub_parts shares stock_prior,
          d.sub_parts (shares ⊖ stock_prior) allowance,
        ),
        ground (
          arith,
          a,
          a',
          b',
          c',
          z,
          sum,
          taken,
          same',
          d.add_parts y other_prior,
          d.add_parts gains' next',
          d.sub_parts others other_prior,
          d.sub_parts (others ⊖ other_prior) allowance,
        ),
        ground (arith, flat, whole),
        ground (arith, flat, whole),
        small,
        elim none [ inl more ↦ inl more | inr zero ↦ inr (ground (arith, zero)) ],
      )
