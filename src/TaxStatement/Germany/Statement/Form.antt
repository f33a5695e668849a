-- ===== src/TaxStatement/Germany/Statement/Form.antt =====
-- The lines of the forms KAP and KAP-INV against the entries they declare.
use investments.Base.{◌≡◌, each, All, arith, refl}
use investments.Base.Decimal.{Decimal, nought, ◌⊕◌, ◌⊖◌, ◌≼◌, ◌≈◌, nought_parts}
use investments.TaxStatement.Germany.Entries.{Entries, InterestEntry, FxGainEntry}
use investments.TaxStatement.Germany.Kap.{
  KapSums, no_kap, kap_capital_gain, kap_dividend, kap_interest, kap_fx_gain, kap_sums, kap_lines,
}
use investments.TaxStatement.Germany.Statement.{GermanTaxStatement, calculate_totals}
use investments.Base.Totals.{total, each-total, every}
use investments.TaxStatement.Germany.Statement.Pots.{on_shares, share_total}
use investments.TaxStatement.Germany.Statement.Lines.{
  IsClassified, on_kap, declared, of_shares, declared_adds, gain_declares, dividend_declares,
  fx_declares, kap_sums-NoneNegative, of_shares-kept,
}

module _ {D : Type 0} ⦃d : Decimal D⦄ where
  -- All that is declared on KAP.
  unfoldable pub kap_total : Entries D → D
  kap_total entries =
      share_total entries
      ⊕ total on_kap entries.dividends
      ⊕ total (λ (e : InterestEntry D). e.gross_amount_eur) entries.interest
      ⊕ total (λ (e : FxGainEntry D). e.taxable_amount) entries.fx_gains

  kap_sums_lem :
      (entries : Entries D)
      → All IsClassified entries.capital_gains
      → (declared (kap_sums entries) ≈ kap_total entries)
        × (of_shares (kap_sums entries) ≈ share_total entries)
  unfolding kap_sums kap_total share_total no_kap kap_interest
  kap_sums_lem entries classified =
      let gains = entries.capital_gains in
      let a = total on_shares gains in
      let b = total on_kap entries.dividends in
      let c = total (λ (e : InterestEntry D). e.gross_amount_eur) entries.interest in
      let f = total (λ (e : FxGainEntry D). e.taxable_amount) entries.fx_gains in
      let s₁ = each kap_capital_gain no_kap gains in
      let s₂ = each kap_dividend s₁ entries.dividends in
      let s₃ = each kap_interest s₂ entries.interest in
      let zero = d.sub_parts nought nought in
      let z = nought_parts d in
      let interest_declares : (s : KapSums D) (e : InterestEntry D)
          → declared (kap_interest s e) ≈ declared s ⊕ e.gross_amount_eur =
        λ s e. (declared_adds s.kap_positive s.zeile_22 s.zeile_23 e.gross_amount_eur).0 in
      (
        omega (
          arith,
          z,
          zero,
          d.sub_parts (nought ⊖ nought) nought,
          each-total kap_capital_gain declared on_shares IsClassified
              (λ s e p. (gain_declares s e p).0) no_kap gains classified,
          each-total kap_dividend declared on_kap (λ _. Unit {0}) (λ s e _. dividend_declares s e)
              s₁ entries.dividends (every entries.dividends),
          each-total kap_interest declared (λ e. e.gross_amount_eur) (λ _. Unit {0})
              (λ s e _. interest_declares s e) s₂ entries.interest (every entries.interest),
          each-total kap_fx_gain declared (λ e. e.taxable_amount) (λ _. Unit {0})
              (λ s e _. fx_declares s e) s₃ entries.fx_gains (every entries.fx_gains),
          d.add_parts (declared no_kap) a,
          d.add_parts (declared s₁) b,
          d.add_parts (declared s₂) c,
          d.add_parts (declared s₃) f,
          d.add_parts a b,
          d.add_parts (a ⊕ b) c,
          d.add_parts (a ⊕ b ⊕ c) f,
        ),
        rw (of_shares-kept s₁ entries) (
            omega (
              arith,
              z,
              zero,
              each-total kap_capital_gain of_shares on_shares IsClassified
                  (λ s e p. (gain_declares s e p).1) no_kap gains classified,
              d.add_parts (nought ⊖ nought) a,
            )),
      )

  -- If a disposal is one of shares just where its fund is in no class: line 19 declares all results
  -- of shares, the gross amounts of interest and of the dividends that no fund pays, and the results
  -- of foreign currency, losses included. The gains of line 20 less the losses of line 23 are the
  -- pot of the shares, the lines 20, 22 and 23 are not negative, and line 41 is the foreign tax
  -- that lowers the tax of the year.
  pub calculate_totals-declares :
      (s : GermanTaxStatement D)
      → All IsClassified s.entries.capital_gains
      → let after = calculate_totals s in
        (after.kap.kap_zeile_19 ≈ kap_total s.entries)
        × (after.kap.kap_zeile_20 ⊖ after.kap.kap_zeile_23 ≈ share_total s.entries)
        × (nought ≼ after.kap.kap_zeile_20)
        × (nought ≼ after.kap.kap_zeile_22)
        × (nought ≼ after.kap.kap_zeile_23)
        × (after.kap.kap_zeile_41 ≡ after.sums.total_foreign_tax_credit)
  unfolding calculate_totals kap_lines
  calculate_totals-declares s classified =
      let (line, shares) = kap_sums_lem s.entries classified in
      let (a, b, c) = kap_sums-NoneNegative s.entries in (line, shares, a, b, c, refl)
