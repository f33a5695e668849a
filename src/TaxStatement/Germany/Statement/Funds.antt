-- ===== src/TaxStatement/Germany/Statement/Funds.antt =====
-- The form KAP-INV against the entries of the funds.
use investments.Base.{◌≡◌, refl, ap, ◌∙◌, each, arith}
use investments.Base.Decimal.{Decimal, nought, ◌⊕◌, ◌⊖◌, ◌≼◌, ◌≈◌, nought_parts}
use investments.Taxes.Germany.Teilfreistellung.{
  TeilfreistellungRate, no_exemption, equity, mixed, bond,
}
use investments.TaxStatement.Germany.Entries.{Entries, CapitalGainEntry, DividendEntry}
use investments.TaxStatement.Germany.Kap.{
  KapInv, no_group, add_sale, distribute, dispose, kap_inv_of,
}
use investments.TaxStatement.Germany.Statement.{GermanTaxStatement, calculate_totals}
use investments.Base.Totals.{total, each-total, each-keeps, each-preserves, every}
use investments.TaxStatement.Germany.Statement.Groups.{
  group_of, counted, results, no_groups, in_group_adds, add_sale_adds, add_sale_keeps, sold,
  distributed, in_group_holds, NoneNegative, add_sale_nonneg,
}

module _ {D : Type 0} ⦃d : Decimal D⦄ where
  none_yet : (class : TeilfreistellungRate) → group_of class (no_groups {D = D}) ≡ no_group
  unfolding group_of
  none_yet equity = refl
  none_yet mixed = refl
  none_yet bond = refl
  none_yet no_exemption = refl

  kap_inv_of_lem :
      (class : TeilfreistellungRate) (entries : Entries D)
      → let group = group_of class (kap_inv_of entries) in
        (group.distributions ≈ distributed class entries)
        × (results group ≈ sold class entries)
        × NoneNegative group
  unfolding kap_inv_of distributed sold distribute dispose no_group
  kap_inv_of_lem class entries =
      let paid : (g : KapInv D) → D = λ g. (group_of class g).distributions in
      let won : (g : KapInv D) → D = λ g. results (group_of class g) in
      let of_dividend : DividendEntry D → D =
        λ e. counted class e.teilfreistellung_rate e.gross_amount_eur in
      let of_gain : CapitalGainEntry D → D =
        λ e. counted class e.teilfreistellung_rate e.taxable_before_exemption in
      let z = nought_parts d in
      let g₁ = each distribute no_groups entries.dividends in
      let empty = none_yet class in
      let start : paid no_groups ≈ nought = rw empty (omega arith) in
      let start' : won no_groups ≈ nought =
        rw empty (omega (arith, z, d.sub_parts nought nought)) in
      let kept =
        each-keeps dispose paid
          (λ g e.
            in_group_holds class e.teilfreistellung_rate
              (λ group. group.distributions ≡ (group_of class g).distributions)
              (add_sale e.taxable_before_exemption)
              (λ group eq. add_sale_keeps e.taxable_before_exemption group ∙ eq) g refl)
          g₁ entries.capital_gains in
      let kept' =
        each-keeps distribute won
          (λ g e.
            in_group_holds class e.teilfreistellung_rate
              (λ group. results group ≡ results (group_of class g))
              (λ group. record group { distributions = group.distributions ⊕ e.gross_amount_eur })
              (λ group eq. eq) g refl)
          no_groups entries.dividends in
      let first =
        each-total distribute paid of_dividend (λ _. Unit {0})
          (λ g e _.
            in_group_adds class e.teilfreistellung_rate (λ group. group.distributions)
              e.gross_amount_eur
              (λ group. record group { distributions = group.distributions ⊕ e.gross_amount_eur })
              (λ group. omega arith) g)
          no_groups entries.dividends (every entries.dividends) in
      let second =
        each-total dispose won of_gain (λ _. Unit {0})
          (λ g e _.
            in_group_adds class e.teilfreistellung_rate results e.taxable_before_exemption
              (add_sale e.taxable_before_exemption) (add_sale_adds e.taxable_before_exemption) g)
          g₁ entries.capital_gains (every entries.capital_gains) in
      let sum = total of_dividend entries.dividends in
      let sum' = total of_gain entries.capital_gains in
      (
        rw kept (omega (arith, z, start, first, d.add_parts (paid no_groups) sum)),
        omega (
          arith,
          z,
          start',
          second,
          ap d.pos_part kept',
          ap d.neg_part kept',
          d.add_parts (won g₁) sum',
        ),
        each-preserves dispose (λ g. NoneNegative (group_of class g))
            (λ g e.
              in_group_holds class e.teilfreistellung_rate NoneNegative
                (add_sale e.taxable_before_exemption) (add_sale_nonneg e.taxable_before_exemption)
                g)
            g₁ entries.capital_gains
            (each-preserves distribute (λ g. NoneNegative (group_of class g))
              (λ g e.
                in_group_holds class e.teilfreistellung_rate NoneNegative
                  (λ group. record group {
                    distributions = group.distributions ⊕ e.gross_amount_eur;
                  })
                  (λ group p. p) g)
              no_groups entries.dividends (rw empty (omega arith, omega arith))),
      )

  -- For each class of funds, its group on KAP-INV declares the gross amounts of the dividends of its
  -- funds; its gains less its losses are the results of their disposals before the exemption, and
  -- neither is negative.
  pub calculate_totals-declares_funds :
      (s : GermanTaxStatement D) (class : TeilfreistellungRate)
      → let group = group_of class (calculate_totals s).kap_inv in
        (group.distributions ≈ distributed class s.entries)
        × (group.sale_gains ⊖ group.sale_losses ≈ sold class s.entries)
        × (nought ≼ group.sale_gains)
        × (nought ≼ group.sale_losses)
  unfolding calculate_totals
  calculate_totals-declares_funds s class =
      let (paid, won, (gains, losses)) = kap_inv_of_lem class s.entries in
      (paid, won, gains, losses)
