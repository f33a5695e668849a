-- ===== src/TaxStatement/Germany/Totals.antt =====
-- The first half of `calculate_totals` of src/tax_statement/germany/statement.rs: the loss pots, the
-- allowance and the tax of the year.
use investments.Base.{Bool, map, each, if◌then◌else◌}
use investments.Base.Decimal.{Decimal, nought, negate, ◌⊕◌, ◌⊖◌, min, max, led, sum_from}
use investments.Taxes.Germany.LossCarryforward.{calculate_with_loss_carryforward}
use investments.Taxes.Germany.Rates.{GermanTaxRates, compute_taxes}
use investments.TaxStatement.Germany.Entries.{
  Entries, CapitalGainEntry, DividendEntry, InterestEntry, FxGainEntry,
}

-- The pots and the totals that the loops fill.
pub record Sums (D : Type 0) : Type 0 where
  pub stock_gains : D
  pub stock_losses : D
  pub general_gains : D
  pub general_losses : D
  pub total_capital_gains : D
  pub total_capital_losses : D
  pub total_dividend_income : D
  pub total_interest_income : D
  pub total_fx_gains : D
  pub total_fx_losses : D
  pub total_foreign_tax : D
  pub total_foreign_tax_credit : D

-- What is computed from the sums.
pub record Assessment (D : Type 0) : Type 0 where
  pub loss_carryforward_stock_next : D
  pub loss_carryforward_other_next : D
  pub sparer_pauschbetrag_used : D
  pub total_taxable_income : D
  pub total_abgeltungssteuer : D
  pub total_solidaritaetszuschlag : D
  pub total_kirchensteuer : D
  pub total_german_tax : D
  pub net_tax_due : D

-- The totals that only the report shows.
pub record Informational (D : Type 0) : Type 0 where
  pub total_fees : D
  pub total_stock_grant_income : D
  pub total_cash_grant_income : D
  pub total_vorabpauschale_gross : D
  pub total_vorabpauschale_taxable : D
  pub total_vorabpauschale_tax : D

module _ {D : Type 0} ⦃d : Decimal D⦄ where
  -- The reset of the totals, and the empty pots.
  unfoldable pub no_sums : Sums D
  no_sums = record {
    stock_gains = nought;
    stock_losses = nought;
    general_gains = nought;
    general_losses = nought;
    total_capital_gains = nought;
    total_capital_losses = nought;
    total_dividend_income = nought;
    total_interest_income = nought;
    total_fx_gains = nought;
    total_fx_losses = nought;
    total_foreign_tax = nought;
    total_foreign_tax_credit = nought;
  }

  -- The gain or the loss, put into the pot of the entry.
  unfoldable pub put_gain : Sums D → Bool → D → Sums D
  put_gain s is_stock amount =
      if is_stock
      then record s {
        stock_gains = s.stock_gains ⊕ amount;
        total_capital_gains = s.total_capital_gains ⊕ amount;
      }
      else record s {
        general_gains = s.general_gains ⊕ amount;
        total_capital_gains = s.total_capital_gains ⊕ amount;
      }

  unfoldable pub put_loss : Sums D → Bool → D → Sums D
  put_loss s is_stock amount =
      if is_stock
      then record s {
        stock_losses = s.stock_losses ⊕ negate amount;
        total_capital_losses = s.total_capital_losses ⊕ negate amount;
      }
      else record s {
        general_losses = s.general_losses ⊕ negate amount;
        total_capital_losses = s.total_capital_losses ⊕ negate amount;
      }

  unfoldable pub book_capital_gain : Sums D → CapitalGainEntry D → Sums D
  unfolding put_gain put_loss
  book_capital_gain s entry =
      let taxed = record s { total_foreign_tax = s.total_foreign_tax ⊕ entry.foreign_tax } in
      if led nought entry.taxable_amount
      then put_gain taxed entry.is_stock entry.taxable_amount
      else put_loss taxed entry.is_stock entry.taxable_amount

  unfoldable pub book_dividend : Sums D → DividendEntry D → Sums D
  book_dividend s entry = record s {
    total_dividend_income = s.total_dividend_income ⊕ entry.taxable_amount;
    total_foreign_tax = s.total_foreign_tax ⊕ entry.foreign_withholding_tax;
    total_foreign_tax_credit = s.total_foreign_tax_credit ⊕ entry.foreign_tax_credit;
    general_gains = s.general_gains ⊕ entry.taxable_amount;
  }

  unfoldable pub book_interest : Sums D → InterestEntry D → Sums D
  book_interest s entry = record s {
    total_interest_income = s.total_interest_income ⊕ entry.taxable_amount;
    total_foreign_tax = s.total_foreign_tax ⊕ entry.foreign_withholding_tax;
    total_foreign_tax_credit = s.total_foreign_tax_credit ⊕ entry.foreign_tax_credit;
    general_gains = s.general_gains ⊕ entry.taxable_amount;
  }

  unfoldable pub book_fx_gain : Sums D → FxGainEntry D → Sums D
  book_fx_gain s entry =
      if led nought entry.gross_amount_eur
      then record s {
        total_fx_gains = s.total_fx_gains ⊕ entry.taxable_amount;
        general_gains = s.general_gains ⊕ entry.taxable_amount;
      }
      else record s {
        total_fx_losses = s.total_fx_losses ⊕ d.abs entry.taxable_amount;
        general_losses = s.general_losses ⊕ d.abs entry.taxable_amount;
      }

  unfoldable pub book_entries : Entries D → Sums D
  unfolding no_sums book_capital_gain book_dividend book_interest book_fx_gain
  book_entries entries =
      each book_fx_gain
        (each book_interest
          (each book_dividend (each book_capital_gain no_sums entries.capital_gains)
            entries.dividends)
          entries.interest)
        entries.fx_gains

  unfoldable pub inform : Entries D → Informational D
  inform entries = record {
    total_fees = sum_from nought (map (λ e. e.amount_eur) entries.fees);
    total_stock_grant_income = sum_from nought (map (λ e. e.total_fmv_eur) entries.stock_grants);
    total_cash_grant_income = sum_from nought (map (λ e. e.amount_eur) entries.cash_grants);
    total_vorabpauschale_gross =
        sum_from nought (map (λ e. e.gross_vorabpauschale) entries.vorabpauschale);
    total_vorabpauschale_taxable =
        sum_from nought (map (λ e. e.taxable_amount) entries.vorabpauschale);
    total_vorabpauschale_tax = sum_from nought (map (λ e. e.total_tax) entries.vorabpauschale);
  }

  -- The pots, the prior losses and the allowance, and the tax on what is left.
  unfoldable pub assess : GermanTaxRates D → D → D → D → Sums D → Assessment D
  assess tax_rates stock_prior other_prior sparer_pauschbetrag s =
      let (stock_result, _, stock_next) =
        calculate_with_loss_carryforward (s.stock_gains ⊖ s.stock_losses) stock_prior in
      let (general_result, _, general_next) =
        calculate_with_loss_carryforward (s.general_gains ⊖ s.general_losses) other_prior in
      let taxable_before_allowance = stock_result ⊕ general_result in
      let taxable = max (taxable_before_allowance ⊖ sparer_pauschbetrag) nought in
      let taxes = compute_taxes tax_rates taxable s.total_foreign_tax_credit in
      record {
        loss_carryforward_stock_next = stock_next;
        loss_carryforward_other_next = general_next;
        sparer_pauschbetrag_used = min sparer_pauschbetrag taxable_before_allowance;
        total_taxable_income = taxable;
        total_abgeltungssteuer = taxes.abgeltungssteuer;
        total_solidaritaetszuschlag = taxes.solidaritaetszuschlag;
        total_kirchensteuer = taxes.kirchensteuer;
        total_german_tax = taxes.total;
        net_tax_due = max taxes.total nought;
      }
