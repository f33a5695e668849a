-- ===== src/TaxStatement/Germany/Entries.antt =====
-- The entries of src/tax_statement/germany/statement.rs. A date is its number of days; descriptions,
-- notes and names, which only the report shows, are left out.
use investments.Base.{String, Bool, Option, List}
use investments.Base.Int.{ℤ}
use investments.Taxes.Germany.Teilfreistellung.{TeilfreistellungRate}

pub record CapitalGainEntry (D : Type 0) : Type 0 where
  pub transaction_date : ℤ
  pub settle_date : ℤ
  pub symbol : String
  pub isin : String
  pub quantity : D
  pub cost_basis_eur : D
  pub proceeds_eur : D
  pub gross_gain_loss : D
  pub taxable_before_exemption : D
  pub teilfreistellung_rate : TeilfreistellungRate
  pub is_stock : Bool
  pub taxable_amount : D
  pub foreign_tax : D
  pub abgeltungssteuer : D
  pub solidaritaetszuschlag : D
  pub kirchensteuer : D
  pub total_tax : D
  pub pre_2009_holding : Bool

pub record DividendEntry (D : Type 0) : Type 0 where
  pub payment_date : ℤ
  pub symbol : String
  pub isin : String
  pub quantity : D
  pub gross_amount_eur : D
  pub foreign_withholding_tax : D
  pub teilfreistellung_rate : TeilfreistellungRate
  pub taxable_amount : D
  pub abgeltungssteuer : D
  pub solidaritaetszuschlag : D
  pub kirchensteuer : D
  pub foreign_tax_credit : D
  pub total_tax : D
  pub net_tax : D

pub record InterestEntry (D : Type 0) : Type 0 where
  pub payment_date : ℤ
  pub gross_amount_eur : D
  pub foreign_withholding_tax : D
  pub taxable_amount : D
  pub abgeltungssteuer : D
  pub solidaritaetszuschlag : D
  pub kirchensteuer : D
  pub foreign_tax_credit : D
  pub total_tax : D
  pub net_tax : D

-- The pair is told by its foreign currency.
pub record FxGainEntry (D : Type 0) : Type 0 where
  pub transaction_date : ℤ
  pub currency_pair : String
  pub gross_amount_eur : D
  pub taxable_amount : D
  pub abgeltungssteuer : D
  pub solidaritaetszuschlag : D
  pub kirchensteuer : D
  pub total_tax : D

pub record FeeEntry (D : Type 0) : Type 0 where
  pub date : ℤ
  pub amount_eur : D

pub record StockGrantEntry (D : Type 0) : Type 0 where
  pub vest_date : ℤ
  pub symbol : String
  pub isin : String
  pub quantity : D
  pub fmv_per_share_eur : D
  pub total_fmv_eur : D

pub record CashGrantEntry (D : Type 0) : Type 0 where
  pub date : ℤ
  pub amount_eur : D

pub data CorporateActionType : Type 0 where
  spinoff liquidation merger delisting : CorporateActionType
  other : String → CorporateActionType

pub record CorporateActionEntry (D : Type 0) : Type 0 where
  pub date : ℤ
  pub action_type : CorporateActionType
  pub symbol : String
  pub tax_impact_eur : Option D

pub record VorabpauschaleEntry (D : Type 0) : Type 0 where
  pub arising_year : ℤ
  pub deemed_received : ℤ
  pub symbol : String
  pub isin : String
  pub quantity : D
  pub nav_jan1 : D
  pub nav_dec31 : D
  pub distributions : D
  pub basiszins : D
  pub teilfreistellung_rate : TeilfreistellungRate
  pub gross_vorabpauschale : D
  pub taxable_amount : D
  pub abgeltungssteuer : D
  pub solidaritaetszuschlag : D
  pub kirchensteuer : D
  pub total_tax : D
  pub accumulated_after : D

-- The entries of a statement.
pub record Entries (D : Type 0) : Type 0 where
  pub capital_gains : List (CapitalGainEntry D)
  pub dividends : List (DividendEntry D)
  pub interest : List (InterestEntry D)
  pub fx_gains : List (FxGainEntry D)
  pub fees : List (FeeEntry D)
  pub stock_grants : List (StockGrantEntry D)
  pub cash_grants : List (CashGrantEntry D)
  pub corporate_actions : List (CorporateActionEntry D)
  pub vorabpauschale : List (VorabpauschaleEntry D)
