-- ===== src/Taxes/Germany/Teilfreistellung.antt =====
-- The partial exemption of funds, src/taxes/germany/dividends.rs.
use investments.Base.{arith}
use investments.Base.Decimal.{Decimal, nought, dec, ◌⊕◌, ◌⊖◌, ◌≼◌, ◌≺◌, ◌≈◌, nought_parts}

pub data TeilfreistellungRate : Type 0 where
  no_exemption equity mixed bond : TeilfreistellungRate

module _ {D : Type 0} ⦃d : Decimal D⦄ where
  pub rate : TeilfreistellungRate → D
  rate TeilfreistellungRate.no_exemption = dec 0 0
  rate TeilfreistellungRate.equity = dec 30 2
  rate TeilfreistellungRate.mixed = dec 15 2
  rate TeilfreistellungRate.bond = dec 0 0

  pub taxable_portion : TeilfreistellungRate → D
  unfolding rate
  taxable_portion fund = dec 1 0 ⊖ rate fund

module _ (D : Type 0) ⦃d : Decimal D⦄ where
  -- The exemption and the taxable portion make up the whole, and some of each fund stays taxable.
  pub taxable_portion_lem :
      (fund : TeilfreistellungRate)
      → let portion : D = taxable_portion fund in
        (portion ⊕ rate fund ≈ dec 1 0) × (nought ≺ portion) × (portion ≼ dec 1 0)
  unfolding taxable_portion
  taxable_portion_lem fund = ground (
    arith,
    nought_parts d,
    d.dec_parts 1 0 (omega arith),
    d.dec_parts 30 2 (omega arith),
    d.dec_parts 15 2 (omega arith),
    d.sub_parts (dec 1 0) (rate fund),
    d.add_parts (dec 1 0 ⊖ rate fund) (rate fund),
  )
