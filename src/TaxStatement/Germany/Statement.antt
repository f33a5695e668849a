-- ===== src/TaxStatement/Germany/Statement.antt =====
-- `GermanTaxStatement` of src/tax_statement/germany/statement.rs, with its totals in groups. The lists
-- of the report and the details behind the entries are left out.
pub mod Pots
pub mod Year
pub mod Assessed
pub mod Form
pub mod Lines
pub mod Funds
pub mod Groups
use investments.Base.{Bool, ◌&&◌, List, [], ◌∷◌, ◌++◌, Result, ok, err, ◌>>=◌, if◌then◌else◌}
use investments.Base.Int.{ℤ, pos, leb_ℤ}
use investments.Base.Decimal.{Decimal, nought, dec, ◌⊖◌, is_zero}
use investments.Taxes.Germany.Rates.{GermanTaxRates, YearError, for_year}
use investments.TaxStatement.Germany.Entries.{
  Entries, CapitalGainEntry, DividendEntry, InterestEntry, FxGainEntry, FeeEntry, StockGrantEntry,
  CashGrantEntry, CorporateActionEntry, VorabpauschaleEntry,
}
use investments.TaxStatement.Germany.Totals.{
  Sums, Assessment, Informational, no_sums, book_entries, inform, assess,
}
use investments.TaxStatement.Germany.Kap.{
  KapLines, KapInv, KapInvGroup, no_group, kap_lines, kap_inv_of,
}

pub record Section23 (D : Type 0) : Type 0 where
  pub short_term_gains : D
  pub short_term_losses : D
  pub long_term_tax_free : D
  pub borrowed_review : D

pub record GermanTaxStatement (D : Type 0) : Type 0 where
  pub year : ℤ
  pub tax_rates : GermanTaxRates D
  pub entries : Entries D
  pub loss_carryforward_stock_prior : D
  pub loss_carryforward_other_prior : D
  pub sparer_pauschbetrag : D
  pub sums : Sums D
  pub assessment : Assessment D
  pub informational : Informational D
  pub non_taxable_margin_fx : D
  pub kap : KapLines D
  pub kap_inv : KapInv D
  pub section23 : Section23 D

module _ {D : Type 0} ⦃d : Decimal D⦄ where
  unfoldable pub short_term_net : Section23 D → D
  short_term_net section = section.short_term_gains ⊖ section.short_term_losses

  unfoldable pub is_empty : Section23 D → Bool
  is_empty section =
      is_zero section.short_term_gains
      && (is_zero section.short_term_losses
          && (is_zero section.long_term_tax_free && is_zero section.borrowed_review))

  unfoldable pub freigrenze : ℤ → D
  freigrenze year = if leb_ℤ (pos 2024) year then dec 1000 0 else dec 600 0

  unfoldable pub no_section23 : Section23 D
  no_section23 = record {
    short_term_gains = nought;
    short_term_losses = nought;
    long_term_tax_free = nought;
    borrowed_review = nought;
  }

  unfoldable pub no_assessment : Assessment D
  no_assessment = record {
    loss_carryforward_stock_next = nought;
    loss_carryforward_other_next = nought;
    sparer_pauschbetrag_used = nought;
    total_taxable_income = nought;
    total_abgeltungssteuer = nought;
    total_solidaritaetszuschlag = nought;
    total_kirchensteuer = nought;
    total_german_tax = nought;
    net_tax_due = nought;
  }

  unfoldable pub no_information : Informational D
  no_information = record {
    total_fees = nought;
    total_stock_grant_income = nought;
    total_cash_grant_income = nought;
    total_vorabpauschale_gross = nought;
    total_vorabpauschale_taxable = nought;
    total_vorabpauschale_tax = nought;
  }

  unfoldable pub no_entries : Entries D
  no_entries = record {
    capital_gains = [];
    dividends = [];
    interest = [];
    fx_gains = [];
    fees = [];
    stock_grants = [];
    cash_grants = [];
    corporate_actions = [];
    vorabpauschale = [];
  }

  unfoldable pub no_lines : KapLines D
  no_lines = record {
    kap_zeile_19 = nought;
    kap_zeile_20 = nought;
    kap_zeile_22 = nought;
    kap_zeile_23 = nought;
    kap_zeile_41 = nought;
  }

  -- `GermanTaxStatement::new`.
  unfoldable pub new_statement : ℤ → D → D → D → D → Result YearError (GermanTaxStatement D)
  unfolding no_entries no_sums no_assessment no_information no_lines no_group no_section23
  new_statement year church_tax_rate loss_carryforward_stock loss_carryforward_other
        sparer_pauschbetrag =
      for_year year church_tax_rate >>= λ tax_rates. ok (record {
        year = year;
        tax_rates = tax_rates;
        entries = no_entries;
        loss_carryforward_stock_prior = loss_carryforward_stock;
        loss_carryforward_other_prior = loss_carryforward_other;
        sparer_pauschbetrag = sparer_pauschbetrag;
        sums = no_sums;
        assessment = no_assessment;
        informational = no_information;
        non_taxable_margin_fx = nought;
        kap = no_lines;
        kap_inv = record {
          kap_inv_equity = no_group;
          kap_inv_mixed = no_group;
          kap_inv_other = no_group;
        };
        section23 = no_section23;
      })

  unfoldable pub add_capital_gain : GermanTaxStatement D → CapitalGainEntry D → GermanTaxStatement D
  add_capital_gain s entry = record s {
    entries = record (s.entries) { capital_gains = s.entries.capital_gains ++ (entry ∷ []) };
  }

  unfoldable pub add_dividend : GermanTaxStatement D → DividendEntry D → GermanTaxStatement D
  add_dividend s entry = record s {
    entries = record (s.entries) { dividends = s.entries.dividends ++ (entry ∷ []) };
  }

  unfoldable pub add_interest : GermanTaxStatement D → InterestEntry D → GermanTaxStatement D
  add_interest s entry = record s {
    entries = record (s.entries) { interest = s.entries.interest ++ (entry ∷ []) };
  }

  unfoldable pub add_fx_gain : GermanTaxStatement D → FxGainEntry D → GermanTaxStatement D
  add_fx_gain s entry = record s {
    entries = record (s.entries) { fx_gains = s.entries.fx_gains ++ (entry ∷ []) };
  }

  unfoldable pub add_fee : GermanTaxStatement D → FeeEntry D → GermanTaxStatement D
  add_fee s entry = record s {
    entries = record (s.entries) { fees = s.entries.fees ++ (entry ∷ []) };
  }

  unfoldable pub add_stock_grant : GermanTaxStatement D → StockGrantEntry D → GermanTaxStatement D
  add_stock_grant s entry = record s {
    entries = record (s.entries) { stock_grants = s.entries.stock_grants ++ (entry ∷ []) };
  }

  unfoldable pub add_cash_grant : GermanTaxStatement D → CashGrantEntry D → GermanTaxStatement D
  add_cash_grant s entry = record s {
    entries = record (s.entries) { cash_grants = s.entries.cash_grants ++ (entry ∷ []) };
  }

  unfoldable pub add_corporate_action :
      GermanTaxStatement D → CorporateActionEntry D → GermanTaxStatement D
  add_corporate_action s entry = record s {
    entries = record (s.entries) {
      corporate_actions = s.entries.corporate_actions ++ (entry ∷ []);
    };
  }

  unfoldable pub add_vorabpauschale :
      GermanTaxStatement D → VorabpauschaleEntry D → GermanTaxStatement D
  add_vorabpauschale s entry = record s {
    entries = record (s.entries) { vorabpauschale = s.entries.vorabpauschale ++ (entry ∷ []) };
  }

  unfoldable pub calculate_totals : GermanTaxStatement D → GermanTaxStatement D
  unfolding book_entries assess inform kap_lines kap_inv_of
  calculate_totals s =
      let sums = book_entries s.entries in
      record s {
        sums = sums;
        assessment =
            assess s.tax_rates s.loss_carryforward_stock_prior s.loss_carryforward_other_prior
              s.sparer_pauschbetrag sums;
        informational = inform s.entries;
        kap = kap_lines s.entries sums.total_foreign_tax_credit;
        kap_inv = kap_inv_of s.entries;
      }
