-- ===== src/TaxStatement/Germany/Kap.antt =====
-- The second half of `calculate_totals` of src/tax_statement/germany/statement.rs: the lines of the
-- forms KAP and KAP-INV.
use investments.Base.{Bool, true, false, each, if◌then◌else◌}
use investments.Base.Decimal.{Decimal, nought, negate, ◌⊕◌, ◌⊖◌, led, ltd}
use investments.Taxes.Germany.Teilfreistellung.{
  TeilfreistellungRate, no_exemption, equity, mixed, bond,
}
use investments.TaxStatement.Germany.Entries.{
  Entries, CapitalGainEntry, DividendEntry, InterestEntry, FxGainEntry,
}

-- The variables of the loops: `kap_positive` and the lines 20, 22 and 23.
pub record KapSums (D : Type 0) : Type 0 where
  pub kap_positive : D
  pub zeile_20 : D
  pub zeile_22 : D
  pub zeile_23 : D

pub record KapLines (D : Type 0) : Type 0 where
  pub kap_zeile_19 : D
  pub kap_zeile_20 : D
  pub kap_zeile_22 : D
  pub kap_zeile_23 : D
  pub kap_zeile_41 : D

pub record KapInvGroup (D : Type 0) : Type 0 where
  pub distributions : D
  pub sale_gains : D
  pub sale_losses : D

pub record KapInv (D : Type 0) : Type 0 where
  pub kap_inv_equity : KapInvGroup D
  pub kap_inv_mixed : KapInvGroup D
  pub kap_inv_other : KapInvGroup D

-- `entry.teilfreistellung_rate == TeilfreistellungRate::None`.
unfoldable pub is_none : TeilfreistellungRate → Bool
is_none no_exemption = true
is_none equity = false
is_none mixed = false
is_none bond = false

module _ {D : Type 0} ⦃d : Decimal D⦄ where
  unfoldable pub no_kap : KapSums D
  no_kap = record { kap_positive = nought; zeile_20 = nought; zeile_22 = nought; zeile_23 = nought }

  unfoldable pub kap_capital_gain : KapSums D → CapitalGainEntry D → KapSums D
  unfolding is_none
  kap_capital_gain s entry =
      let amount = entry.taxable_amount in
      if is_none entry.teilfreistellung_rate
      then (if ltd nought amount
          then record s { zeile_20 = s.zeile_20 ⊕ amount; kap_positive = s.kap_positive ⊕ amount }
          else (if ltd amount nought
              then record s { zeile_23 = s.zeile_23 ⊕ negate amount }
              else s))
      else s

  unfoldable pub kap_dividend : KapSums D → DividendEntry D → KapSums D
  unfolding is_none
  kap_dividend s entry =
      if is_none entry.teilfreistellung_rate
      then record s { kap_positive = s.kap_positive ⊕ entry.gross_amount_eur }
      else s

  unfoldable pub kap_interest : KapSums D → InterestEntry D → KapSums D
  kap_interest s entry = record s { kap_positive = s.kap_positive ⊕ entry.gross_amount_eur }

  unfoldable pub kap_fx_gain : KapSums D → FxGainEntry D → KapSums D
  kap_fx_gain s entry =
      if led nought entry.taxable_amount
      then record s { kap_positive = s.kap_positive ⊕ entry.taxable_amount }
      else record s { zeile_22 = s.zeile_22 ⊕ negate entry.taxable_amount }

  unfoldable pub kap_sums : Entries D → KapSums D
  unfolding no_kap kap_capital_gain kap_dividend kap_interest kap_fx_gain
  kap_sums entries =
      each kap_fx_gain
        (each kap_interest
          (each kap_dividend (each kap_capital_gain no_kap entries.capital_gains) entries.dividends)
          entries.interest)
        entries.fx_gains

  unfoldable pub kap_lines : Entries D → D → KapLines D
  unfolding kap_sums
  kap_lines entries total_foreign_tax_credit =
      let s = kap_sums entries in
      record {
        kap_zeile_19 = s.kap_positive ⊖ s.zeile_22 ⊖ s.zeile_23;
        kap_zeile_20 = s.zeile_20;
        kap_zeile_22 = s.zeile_22;
        kap_zeile_23 = s.zeile_23;
        kap_zeile_41 = total_foreign_tax_credit;
      }

  unfoldable pub no_group : KapInvGroup D
  no_group = record { distributions = nought; sale_gains = nought; sale_losses = nought }

  -- The change of the group of a fund; without a classification the entry is passed over.
  unfoldable pub in_group :
      KapInv D → TeilfreistellungRate → (KapInvGroup D → KapInvGroup D) → KapInv D
  in_group g equity change = record g { kap_inv_equity = change g.kap_inv_equity }
  in_group g mixed change = record g { kap_inv_mixed = change g.kap_inv_mixed }
  in_group g bond change = record g { kap_inv_other = change g.kap_inv_other }
  in_group g no_exemption change = g

  unfoldable pub distribute : KapInv D → DividendEntry D → KapInv D
  unfolding in_group
  distribute g entry =
      in_group g entry.teilfreistellung_rate
        (λ group. record group { distributions = group.distributions ⊕ entry.gross_amount_eur })

  unfoldable pub add_sale : D → KapInvGroup D → KapInvGroup D
  add_sale amount group =
      if led nought amount
      then record group { sale_gains = group.sale_gains ⊕ amount }
      else record group { sale_losses = group.sale_losses ⊕ negate amount }

  unfoldable pub dispose : KapInv D → CapitalGainEntry D → KapInv D
  unfolding in_group add_sale
  dispose g entry = in_group g entry.teilfreistellung_rate (add_sale entry.taxable_before_exemption)

  unfoldable pub kap_inv_of : Entries D → KapInv D
  unfolding no_group distribute dispose
  kap_inv_of entries =
      each dispose
        (each distribute
          (record { kap_inv_equity = no_group; kap_inv_mixed = no_group; kap_inv_other = no_group })
          entries.dividends)
        entries.capital_gains
