-- ===== src/TaxStatement/Germany/Processor/Credit.antt =====
-- What of a foreign tax may be credited, and what of a distribution is taxed.
use investments.Base.{◌≡◌, refl, ◌⊎◌, inl, inr, Bool-cases, arith}
use investments.Base.Decimal.{
  Decimal, nought, dec, ◌⊗◌, ◌≼◌, ◌≺◌, ◌≈◌, ltd, nought_parts, mul_nonneg, mul_le_of_le_one,
}
use investments.Taxes.Germany.Teilfreistellung.{
  TeilfreistellungRate, rate, taxable_portion, taxable_portion_lem,
}
use investments.TaxStatement.Germany.Processor.{apply_teilfreistellung, creditable_foreign_tax}

module _ {D : Type 0} ⦃d : Decimal D⦄ where
  whole_or_exempt :
      (gross : D) (fund : TeilfreistellungRate)
      → let exempt : D = rate fund in (nought ≺ exempt) ⊎ (gross ⊗ taxable_portion fund ≈ gross)
  whole_or_exempt gross fund =
      let exempt : D = rate fund in
      let t : D = taxable_portion fund in
      let (sum, pos, small) = taxable_portion_lem D fund in
      let parts = d.add_parts t exempt in
      let one = d.dec_parts 1 0 (omega arith) in
      elim (Bool-cases (ltd nought exempt)) [
        | inl e ↦ inl (ground (arith, e))
        | inr e ↦ inr (
            omega (
              arith,
              d.mul_one gross t (ground (arith, e, sum, parts, one, small, nought_parts d)),
            ))
      ]

  credit_of_fund :
      (paid gross taxable : D) (fund : TeilfreistellungRate)
      → (creditable_foreign_tax paid gross taxable fund ≈ nought)
        ⊎ (fund ≡ TeilfreistellungRate.no_exemption)
  unfolding creditable_foreign_tax
  credit_of_fund paid gross taxable TeilfreistellungRate.no_exemption = inr refl
  credit_of_fund paid gross taxable TeilfreistellungRate.equity = inl (omega arith)
  credit_of_fund paid gross taxable TeilfreistellungRate.mixed = inl (omega arith)
  credit_of_fund paid gross taxable TeilfreistellungRate.bond = inl (omega arith)

  -- Of a distribution that is not negative, no more than the whole is taxed, and the whole where
  -- nothing is exempt. Of a tax paid abroad that is not negative, no more than it, than 15 % of the
  -- gross amount and than 25 % of what is taxed is credited, nothing negative, and for a fund
  -- nothing.
  pub creditable_foreign_tax_bounds :
      (paid gross : D) (fund : TeilfreistellungRate)
      → nought ≼ paid
      → nought ≼ gross
      → let exempt : D = rate fund in
        let taxable = apply_teilfreistellung gross fund in
        let credit = creditable_foreign_tax paid gross taxable fund in
        (nought ≼ taxable)
        × (taxable ≼ gross)
        × ((nought ≺ exempt) ⊎ (taxable ≈ gross))
        × (nought ≼ credit)
        × (credit ≼ paid)
        × (credit ≼ gross ⊗ dec 15 2)
        × (credit ≼ taxable ⊗ dec 25 2)
        × ((credit ≈ nought) ⊎ (fund ≡ TeilfreistellungRate.no_exemption))
  unfolding apply_teilfreistellung creditable_foreign_tax
  creditable_foreign_tax_bounds paid gross fund h h' =
      let t : D = taxable_portion fund in
      let (sum, pos, small) = taxable_portion_lem D fund in
      let taxable = gross ⊗ t in
      let z = nought_parts d in
      let taxed : nought ≼ taxable = mul_nonneg gross t h' (omega (arith, pos)) in
      let treaty =
        mul_nonneg gross (dec 15 2) h' (omega (arith, z, d.dec_parts 15 2 (omega arith))) in
      let statutory =
        mul_nonneg taxable (dec 25 2) taxed (omega (arith, z, d.dec_parts 25 2 (omega arith))) in
      (
        taxed,
        mul_le_of_le_one gross t h' small,
        whole_or_exempt gross fund,
        ground (arith, h, treaty, statutory, z),
        ground (arith, h, treaty, statutory, z),
        ground (arith, h, treaty, statutory, z),
        ground (arith, h, treaty, statutory, z),
        credit_of_fund paid gross taxable fund,
      )
