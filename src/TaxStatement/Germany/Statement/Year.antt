-- ===== src/TaxStatement/Germany/Statement/Year.antt =====
-- What `calculate_totals` makes of a year: the income, the allowance, the losses carried over and the
-- tax.
use investments.Base.{◌⊎◌, All, arith}
use investments.Base.Decimal.{Decimal, nought, dec, ◌⊕◌, ◌⊖◌, ◌⊗◌, ◌≼◌, ◌≺◌, ◌≈◌, max, IsQuotient}
use investments.Taxes.Germany.Rates.{IsValid}
use investments.TaxStatement.Germany.Totals.{book_entries, assess}
use investments.TaxStatement.Germany.Statement.{GermanTaxStatement, calculate_totals}
use investments.TaxStatement.Germany.Statement.Pots.{
  IsWhole, stock_net, general_net, share_total, other_total, book_entries_lem,
}
use investments.TaxStatement.Germany.Statement.Assessed.{HasPriors, assess-conserves, assess_bounds}

module _ {D : Type 0} ⦃d : Decimal D⦄ where
  -- With balances and an allowance that are not negative, and results of foreign currency that are
  -- taxed whole: what `calculate_totals` taxes, the allowance it uses and the balances it started
  -- from add up to the results of the year in both pots and the balances it hands on. Each balance
  -- handed on is the old one less the results of its own pot, or nothing. What is taxed and what is
  -- used are not negative, no more than the allowance is used, and something is taxed only if all of
  -- it is.
  pub calculate_totals-conserves :
      (s : GermanTaxStatement D)
      → HasPriors s
      → All IsWhole s.entries.fx_gains
      → let a = (calculate_totals s).assessment in
        (a.total_taxable_income ⊕ a.sparer_pauschbetrag_used ⊕ s.loss_carryforward_stock_prior
            ⊕ s.loss_carryforward_other_prior
          ≈ share_total s.entries
            ⊕ other_total s.entries
            ⊕ a.loss_carryforward_stock_next
            ⊕ a.loss_carryforward_other_next)
        × (nought ≼ a.total_taxable_income)
        × (nought ≼ a.sparer_pauschbetrag_used)
        × (a.sparer_pauschbetrag_used ≼ s.sparer_pauschbetrag)
        × (a.loss_carryforward_stock_next
            ≈ max (s.loss_carryforward_stock_prior ⊖ share_total s.entries) nought)
        × (a.loss_carryforward_other_next
            ≈ max (s.loss_carryforward_other_prior ⊖ other_total s.entries) nought)
        × ((a.total_taxable_income ≈ nought) ⊎ (a.sparer_pauschbetrag_used ≈ s.sparer_pauschbetrag))
  unfolding calculate_totals
  calculate_totals-conserves s (h, h', k) whole =
      let sums = book_entries s.entries in
      let a =
        assess s.tax_rates s.loss_carryforward_stock_prior s.loss_carryforward_other_prior
          s.sparer_pauschbetrag sums in
      let (eq, b₁, b₂, b₃, b₄, b₅, b₆) =
        assess-conserves s.tax_rates s.loss_carryforward_stock_prior s.loss_carryforward_other_prior
          s.sparer_pauschbetrag sums h h' k in
      let (shares, others) = book_entries_lem s.entries whole in
      let next = a.loss_carryforward_stock_next in
      let next' = a.loss_carryforward_other_next in
      let x = stock_net sums in
      let y = general_net sums in
      let x' = share_total s.entries in
      let y' = other_total s.entries in
      (
        omega (
          arith,
          eq,
          shares,
          others,
          d.add_parts x y,
          d.add_parts x' y',
          d.add_parts (x ⊕ y) next,
          d.add_parts (x' ⊕ y') next,
          d.add_parts (x ⊕ y ⊕ next) next',
          d.add_parts (x' ⊕ y' ⊕ next) next',
        ),
        b₁,
        b₂,
        b₃,
        ground (
          arith,
          b₄,
          shares,
          d.sub_parts s.loss_carryforward_stock_prior x,
          d.sub_parts s.loss_carryforward_stock_prior x',
        ),
        ground (
          arith,
          b₅,
          others,
          d.sub_parts s.loss_carryforward_other_prior y,
          d.sub_parts s.loss_carryforward_other_prior y',
        ),
        b₆,
      )

  -- With balances, an allowance and surcharge rates that are not negative, and results of foreign currency that are taxed whole:
  -- the income is at least what the shares alone, and what all else alone, leave over their balance
  -- and the allowance, so that a loss in one pot never lowers what the other one is taxed on. The
  -- flat tax is the quotient of what four times the creditable foreign tax leaves of the income, or
  -- of nothing, by four plus the church rate, with the order against any amount `x` as the exact
  -- quotient has it; each surcharge is its rate of the flat tax. The net tax due is the sum of the
  -- three, and the total tax, is not negative, its flat tax is at most the income less four times the
  -- creditable foreign tax, and none is due once that covers the income.
  pub calculate_totals_bounds :
      (s : GermanTaxStatement D) (x : D)
      → HasPriors s
      → IsValid s.tax_rates
      → All IsWhole s.entries.fx_gains
      → let a = (calculate_totals s).assessment in
        let credit = (calculate_totals s).sums.total_foreign_tax_credit in
        IsQuotient a.total_abgeltungssteuer
          (max (a.total_taxable_income ⊖ dec 4 0 ⊗ credit) nought)
          (dec 4 0 ⊕ s.tax_rates.kirchensteuer)
          x
        × (a.total_kirchensteuer ≈ a.total_abgeltungssteuer ⊗ s.tax_rates.kirchensteuer)
        × (a.total_solidaritaetszuschlag
            ≈ a.total_abgeltungssteuer ⊗ s.tax_rates.solidaritaetszuschlag)
        × (a.net_tax_due
            ≈ a.total_abgeltungssteuer ⊕ a.total_kirchensteuer ⊕ a.total_solidaritaetszuschlag)
        × (share_total s.entries ⊖ s.loss_carryforward_stock_prior ⊖ s.sparer_pauschbetrag
            ≼ a.total_taxable_income)
        × (other_total s.entries ⊖ s.loss_carryforward_other_prior ⊖ s.sparer_pauschbetrag
            ≼ a.total_taxable_income)
        × (a.net_tax_due ≈ a.total_german_tax)
        × (nought ≼ a.net_tax_due)
        × (a.total_abgeltungssteuer ≼ max (a.total_taxable_income ⊖ dec 4 0 ⊗ credit) nought)
        × ((dec 4 0 ⊗ credit ≺ a.total_taxable_income) ⊎ (a.net_tax_due ≈ nought))
  unfolding calculate_totals
  calculate_totals_bounds s x (h, h', k) valid whole =
      let sums = book_entries s.entries in
      let (shares, others) = book_entries_lem s.entries whole in
      assess_bounds s.tax_rates s.loss_carryforward_stock_prior s.loss_carryforward_other_prior
        s.sparer_pauschbetrag sums (share_total s.entries) (other_total s.entries) x h h' valid
        shares others
