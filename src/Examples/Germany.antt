-- ===== src/Examples/Germany.antt =====
-- The theorems on the German statement at concrete inputs.
use investments.Examples.Amounts.{eur, loss}
use investments.Base.{
  ◌≡◌, refl, ◌⊎◌, Bool, true, false, not, Option, some, List, [], ◌∷◌, ℕ, All, ◌*◌, if◌then◌else◌,
  arith,
}
use investments.Base.Int.{ℤ, pos, negsuc, leb_ℤ, ◌+ℤ◌, ◌-ℤ◌, +ℤ_parts, -ℤ_parts}
use investments.Base.Decimal.{nought, dec, ◌⊕◌, ◌⊖◌, ◌⊗◌, ◌≼◌, ◌≺◌, ◌≈◌, max, IsQuotient}
use investments.Base.Decimal.Units.{units}
use investments.Base.Decimal.Magnitude.{digit}
use investments.Taxes.Germany.Teilfreistellung.{TeilfreistellungRate, rate}
use investments.TaxStatement.WashSale.Data.{Calendar}
use investments.TaxStatement.FxFifo.Data.{FxRealization, CurrencyFxResult}
use investments.TaxStatement.Germany.Entries.{CapitalGainEntry, DividendEntry, FxGainEntry}
use investments.TaxStatement.Germany.Kap.{no_group, is_none}
use investments.TaxStatement.Germany.Statement.{
  GermanTaxStatement, Section23, no_entries, no_section23, no_assessment, no_information, no_lines,
  is_empty, short_term_net, calculate_totals,
}
use investments.TaxStatement.Germany.Totals.{no_sums}
use investments.TaxStatement.Germany.Statement.Pots.{IsWhole, share_total, other_total}
use investments.TaxStatement.Germany.Statement.Year.{
  calculate_totals-conserves, calculate_totals_bounds,
}
use investments.TaxStatement.Germany.Statement.Form.{kap_total, calculate_totals-declares}
use investments.TaxStatement.Germany.Statement.Funds.{calculate_totals-declares_funds}
use investments.TaxStatement.Germany.Statement.Groups.{group_of, distributed, sold}
use investments.TaxStatement.Germany.Processor.{
  apply_teilfreistellung, creditable_foreign_tax, to_cents, route_fx_section20, route_fx_section23,
  round_section,
}
use investments.TaxStatement.Germany.Processor.Credit.{creditable_foreign_tax_bounds}
use investments.TaxStatement.Germany.Processor.Routed.{
  all_entries, occupied, repaid, route_fx_section20_lem,
}
use investments.TaxStatement.Germany.Processor.Buckets.{parts, route_fx_section23_lem}
use investments.TaxStatement.Germany.Processor.Bucket.{NoneNegative, short_part, long_part}

-- A loss on shares, a gain on a fund, a dividend of a share, and a result on dollars.
abbrev disposal : ℤ → TeilfreistellungRate → Bool → CapitalGainEntry ℤ
disposal amount fund is_stock = record {
  transaction_date = pos 100;
  settle_date = pos 102;
  symbol = "A";
  isin = "";
  quantity = eur 1;
  cost_basis_eur = eur 100;
  proceeds_eur = eur 100 ⊕ amount;
  gross_gain_loss = amount;
  taxable_before_exemption = amount;
  teilfreistellung_rate = fund;
  is_stock = is_stock;
  taxable_amount = amount;
  foreign_tax = nought;
  abgeltungssteuer = nought;
  solidaritaetszuschlag = nought;
  kirchensteuer = nought;
  total_tax = nought;
  pre_2009_holding = false;
}

abbrev dividend : ℤ → TeilfreistellungRate → DividendEntry ℤ
dividend amount fund = record {
  payment_date = pos 50;
  symbol = "A";
  isin = "";
  quantity = eur 1;
  gross_amount_eur = amount;
  foreign_withholding_tax = nought;
  teilfreistellung_rate = fund;
  taxable_amount = amount;
  abgeltungssteuer = nought;
  solidaritaetszuschlag = nought;
  kirchensteuer = nought;
  foreign_tax_credit = nought;
  total_tax = nought;
  net_tax = nought;
}

abbrev dollars : FxGainEntry ℤ
dollars = record {
  transaction_date = pos 60;
  currency_pair = "USD";
  gross_amount_eur = loss 20;
  taxable_amount = loss 20;
  abgeltungssteuer = nought;
  solidaritaetszuschlag = nought;
  kirchensteuer = nought;
  total_tax = nought;
}

abbrev year_2025 : GermanTaxStatement ℤ
year_2025 = record {
  year = pos 2025;
  tax_rates = record {
    abgeltungssteuer = dec 25 2;
    solidaritaetszuschlag = dec 55 3;
    kirchensteuer = nought;
  };
  entries = record no_entries {
    capital_gains =
        disposal (loss 500) TeilfreistellungRate.no_exemption true
        ∷ disposal (eur 700) TeilfreistellungRate.equity false
        ∷ [];
    dividends =
        dividend (eur 900) TeilfreistellungRate.no_exemption
        ∷ dividend (eur 30) TeilfreistellungRate.equity
        ∷ [];
    fx_gains = dollars ∷ [];
  };
  loss_carryforward_stock_prior = eur 100;
  loss_carryforward_other_prior = eur 50;
  sparer_pauschbetrag = eur 1_000;
  sums = no_sums;
  assessment = no_assessment;
  informational = no_information;
  non_taxable_margin_fx = nought;
  kap = no_lines;
  kap_inv = record {
    kap_inv_equity = no_group;
    kap_inv_mixed = no_group;
    kap_inv_other = no_group;
  };
  section23 = no_section23;
}

calculate_totals-conserves_example :
    let a = (calculate_totals year_2025).assessment in
    (a.total_taxable_income ⊕ a.sparer_pauschbetrag_used ⊕ eur 100 ⊕ eur 50
      ≈ share_total year_2025.entries
        ⊕ other_total year_2025.entries
        ⊕ a.loss_carryforward_stock_next
        ⊕ a.loss_carryforward_other_next)
    × (nought ≼ a.total_taxable_income)
    × (nought ≼ a.sparer_pauschbetrag_used)
    × (a.sparer_pauschbetrag_used ≼ eur 1_000)
    × (a.loss_carryforward_stock_next ≈ max (eur 100 ⊖ share_total year_2025.entries) nought)
    × (a.loss_carryforward_other_next ≈ max (eur 50 ⊖ other_total year_2025.entries) nought)
    × ((a.total_taxable_income ≈ nought) ⊎ (a.sparer_pauschbetrag_used ≈ eur 1_000))
unfolding digit no_entries
calculate_totals-conserves_example =
    calculate_totals-conserves year_2025 (omega arith, omega arith, omega arith) (omega arith, tt)

calculate_totals_bounds_example :
    let a = (calculate_totals year_2025).assessment in
    let credit = (calculate_totals year_2025).sums.total_foreign_tax_credit in
    IsQuotient a.total_abgeltungssteuer
      (max (a.total_taxable_income ⊖ dec 4 0 ⊗ credit) nought)
      (dec 4 0 ⊕ year_2025.tax_rates.kirchensteuer)
      (eur 200)
    × (a.total_kirchensteuer ≈ a.total_abgeltungssteuer ⊗ year_2025.tax_rates.kirchensteuer)
    × (a.total_solidaritaetszuschlag
        ≈ a.total_abgeltungssteuer ⊗ year_2025.tax_rates.solidaritaetszuschlag)
    × (a.net_tax_due
        ≈ a.total_abgeltungssteuer ⊕ a.total_kirchensteuer ⊕ a.total_solidaritaetszuschlag)
    × (share_total year_2025.entries ⊖ eur 100 ⊖ eur 1_000 ≼ a.total_taxable_income)
    × (other_total year_2025.entries ⊖ eur 50 ⊖ eur 1_000 ≼ a.total_taxable_income)
    × (a.net_tax_due ≈ a.total_german_tax)
    × (nought ≼ a.net_tax_due)
    × (a.total_abgeltungssteuer ≼ max (a.total_taxable_income ⊖ dec 4 0 ⊗ credit) nought)
    × ((dec 4 0 ⊗ credit ≺ a.total_taxable_income) ⊎ (a.net_tax_due ≈ nought))
unfolding digit no_entries
calculate_totals_bounds_example =
    calculate_totals_bounds year_2025 (eur 200) (omega arith, omega arith, omega arith)
      (omega arith, omega arith) (omega arith, tt)

calculate_totals-declares_example :
    let after = calculate_totals year_2025 in
    (after.kap.kap_zeile_19 ≈ kap_total year_2025.entries)
    × (after.kap.kap_zeile_20 ⊖ after.kap.kap_zeile_23 ≈ share_total year_2025.entries)
    × (nought ≼ after.kap.kap_zeile_20)
    × (nought ≼ after.kap.kap_zeile_22)
    × (nought ≼ after.kap.kap_zeile_23)
    × (after.kap.kap_zeile_41 ≡ after.sums.total_foreign_tax_credit)
unfolding no_entries is_none
calculate_totals-declares_example = calculate_totals-declares year_2025 (refl, (refl, tt))

calculate_totals-declares_funds_example :
    let group = group_of TeilfreistellungRate.equity (calculate_totals year_2025).kap_inv in
    (group.distributions ≈ distributed TeilfreistellungRate.equity year_2025.entries)
    × (group.sale_gains ⊖ group.sale_losses ≈ sold TeilfreistellungRate.equity year_2025.entries)
    × (nought ≼ group.sale_gains)
    × (nought ≼ group.sale_losses)
calculate_totals-declares_funds_example =
    calculate_totals-declares_funds year_2025 TeilfreistellungRate.equity

creditable_foreign_tax_bounds_example :
    let exempt : ℤ = rate TeilfreistellungRate.mixed in
    let taxable = apply_teilfreistellung (eur 200) TeilfreistellungRate.mixed in
    let credit = creditable_foreign_tax (eur 40) (eur 200) taxable TeilfreistellungRate.mixed in
    (nought ≼ taxable)
    × (taxable ≼ eur 200)
    × ((nought ≺ exempt) ⊎ (taxable ≈ eur 200))
    × (nought ≼ credit)
    × (credit ≼ eur 40)
    × (credit ≼ eur 200 ⊗ dec 15 2)
    × (credit ≼ taxable ⊗ dec 25 2)
    × ((credit ≈ nought) ⊎ (TeilfreistellungRate.mixed ≡ TeilfreistellungRate.no_exemption))
unfolding digit
creditable_foreign_tax_bounds_example =
    creditable_foreign_tax_bounds (eur 40) (eur 200) TeilfreistellungRate.mixed (omega arith)
      (omega arith)

-- Days are numbered, a year has 365 of them, and the first of the year 2025 is day 0.
abbrev year_of : ℤ → ℤ
year_of date = if leb_ℤ (pos 0) date then pos 2025 else pos 2024

abbrev later : ℤ → ℕ → Option ℤ
later date months = some (date +ℤ pos (31 * months))

abbrev calendar : Calendar
calendar = record {
  day = λ _. 1;
  checked_sub_months = λ date months. some (date -ℤ pos (31 * months));
  checked_add_months = later;
  min_date = pos 0;
  max_date = pos 100_000;
  sub_months_mono =
      λ date m n h. omega (arith, h, -ℤ_parts date (pos (31 * m)), -ℤ_parts date (pos (31 * n)));
  add_months_mono =
      λ date m n h. omega (arith, h, +ℤ_parts date (pos (31 * m)), +ℤ_parts date (pos (31 * n)));
}

abbrev spent : ℤ → ℤ → FxRealization ℤ ℤ
spent acquisition_date amount = record {
  date = pos 80;
  acquisition_date = acquisition_date;
  amount = amount;
  activity_code = "BUY";
}

abbrev dollar_results : List (CurrencyFxResult ℤ ℤ)
dollar_results =
    record {
      currency = "USD";
      taxable = spent (pos 10) (eur 12) ∷ spent (negsuc 400) (eur 7) ∷ spent (pos 20) (loss 5) ∷ [];
      non_taxable = spent (pos 30) (loss 3) ∷ [];
      ledger = [];
    }
    ∷ []

route_fx_section20_example :
    let (routed, has_income) = route_fx_section20 year_of (pos 2025) year_2025 dollar_results in
    let xs = all_entries year_of (pos 2025) year_2025.tax_rates dollar_results in
    (routed.entries ≡ record (year_2025.entries) { fx_gains = dollars ∷ xs })
    × (has_income ≡ occupied xs)
    × All IsWhole xs
    × (routed.non_taxable_margin_fx ≈ to_cents (repaid year_of (pos 2025) dollar_results))
unfolding no_entries
route_fx_section20_example = route_fx_section20_lem year_of (pos 2025) year_2025 dollar_results

route_fx_section23_example :
    let (routed, has_income) =
      route_fx_section23 year_of (pos 2025) calendar year_2025 dollar_results in
    ((exact : Section23 ℤ) × (routed.section23 ≡ round_section exact)
      × (short_term_net exact ≈ parts year_of (pos 2025) calendar short_part dollar_results)
      × (exact.long_term_tax_free ≈ parts year_of (pos 2025) calendar long_part dollar_results)
      × (exact.borrowed_review ≈ repaid year_of (pos 2025) dollar_results))
    × NoneNegative routed.section23
    × (has_income ≡ not (is_empty routed.section23))
    × ((calculate_totals routed).assessment ≡ (calculate_totals year_2025).assessment)
route_fx_section23_example =
    route_fx_section23_lem year_of (pos 2025) calendar year_2025 dollar_results
