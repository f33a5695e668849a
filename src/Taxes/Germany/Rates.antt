-- ===== src/Taxes/Germany/Rates.antt =====
-- The German flat tax, src/taxes/germany/rates.rs.
use investments.Base.{
  ◌≡◌, refl, ◌↔◌, ◌≤◌, ◌<◌, ◌+◌, ◌^◌, Result, ok, err, if◌then◌else◌, ◌⊎◌, inl, inr, Bool-cases,
  arith,
}
use investments.Base.Int.{ℤ, pos, ltb_ℤ, ◌≤ℤ◌}
use investments.Base.Decimal.{
  Decimal, nought, dec, ◌⊕◌, ◌⊖◌, ◌⊗◌, ◌⊘◌, ◌≼◌, ◌≺◌, ◌≈◌, max, ltd, nought_parts, mul_nonneg,
  div_nonneg, IsQuotient, div-IsQuotient,
}

pub record GermanTaxRates (D : Type 0) : Type 0 where
  pub abgeltungssteuer : D
  pub solidaritaetszuschlag : D
  pub kirchensteuer : D

pub record AbgeltungsteuerBreakdown (D : Type 0) : Type 0 where
  pub abgeltungssteuer : D
  pub solidaritaetszuschlag : D
  pub kirchensteuer : D
  pub total : D

-- The only error: the year, which lies before 2009.
pub data YearError : Type 0 where
  before_2009 : ℤ → YearError

module _ {D : Type 0} ⦃d : Decimal D⦄ where
  pub for_year : ℤ → D → Result YearError (GermanTaxRates D)
  for_year year church_tax_rate =
      if ltb_ℤ year (pos 2009)
      then err (before_2009 year)
      else ok (record {
        abgeltungssteuer = dec 25 2;
        solidaritaetszuschlag = dec 55 3;
        kirchensteuer = church_tax_rate;
      })

  pub default_for_year : ℤ → Result YearError (GermanTaxRates D)
  unfolding for_year
  default_for_year year = for_year year nought

  -- `Default::default`.
  pub default_rates : GermanTaxRates D
  default_rates = record {
    abgeltungssteuer = dec 25 2;
    solidaritaetszuschlag = dec 55 3;
    kirchensteuer = nought;
  }

  base_of : D → D → D
  base_of taxable creditable_foreign_tax = max (taxable ⊖ dec 4 0 ⊗ creditable_foreign_tax) nought

  pub compute_taxes : GermanTaxRates D → D → D → AbgeltungsteuerBreakdown D
  unfolding base_of
  compute_taxes rates taxable creditable_foreign_tax =
      let base = base_of taxable creditable_foreign_tax in
      let abgeltungssteuer = base ⊘ (dec 4 0 ⊕ rates.kirchensteuer) in
      let kirchensteuer = abgeltungssteuer ⊗ rates.kirchensteuer in
      let solidaritaetszuschlag = abgeltungssteuer ⊗ rates.solidaritaetszuschlag in
      record {
        abgeltungssteuer = abgeltungssteuer;
        solidaritaetszuschlag = solidaritaetszuschlag;
        kirchensteuer = kirchensteuer;
        total = abgeltungssteuer ⊕ kirchensteuer ⊕ solidaritaetszuschlag;
      }

  -- Neither surcharge is negative.
  abbrev pub IsValid : GermanTaxRates D → Type 0
  IsValid rates = (nought ≼ rates.kirchensteuer) × (nought ≼ rates.solidaritaetszuschlag)

  -- The rates of a year are given exactly from 2009 on, and are valid if the church rate is.
  pub for_year-IsValid :
      (year : ℤ) (church : D)
      → nought ≼ church
      → ((rates : GermanTaxRates D) × (for_year year church ≡ ok rates) × IsValid rates)
        ↔ (pos 2009 ≤ℤ year)
  unfolding for_year
  for_year-IsValid year church h = (
    λ r. ground (arith, r.1),
    λ le. (
      record {
        abgeltungssteuer = dec 25 2;
        solidaritaetszuschlag = dec 55 3;
        kirchensteuer = church;
      },
      ground arith,
      (h, omega (arith, nought_parts d, d.dec_parts 55 3 (omega arith))),
    ),
  )

  module _ (rates : GermanTaxRates D) (v : IsValid rates) where
    divisor :
        (nought ≺ dec 4 0 ⊕ rates.kirchensteuer)
        × (d.neg_part (dec 4 0 ⊕ rates.kirchensteuer) + 10 ^ 28
            ≤ d.pos_part (dec 4 0 ⊕ rates.kirchensteuer))
        × (d.neg_part (dec 4 0) ≤ d.pos_part (dec 4 0))
    divisor = omega (
      arith,
      v.0,
      nought_parts d,
      d.dec_parts 4 0 (omega arith),
      d.add_parts (dec 4 0) rates.kirchensteuer,
    )

    base_of_mono :
        (taxable taxable' q q' : D)
        → taxable ≼ taxable'
        → q' ≼ q
        → base_of taxable q ≼ base_of taxable' q'
    unfolding base_of
    base_of_mono taxable taxable' q q' h h' =
        let four = divisor.2 in
        let le : dec 4 0 ⊗ q' ≼ dec 4 0 ⊗ q = omega (
          arith,
          d.mul_mono q' q (dec 4 0) h' four,
          d.mul_comm q (dec 4 0),
          d.mul_comm q' (dec 4 0),
        ) in
        ground
          (arith, le, h, d.sub_parts taxable (dec 4 0 ⊗ q), d.sub_parts taxable' (dec 4 0 ⊗ q'))

    base_of_nonneg : (taxable q : D) → nought ≼ base_of taxable q
    unfolding base_of
    base_of_nonneg taxable q = ground arith

    -- The parts of a bigger base are no smaller.
    parts_mono :
        (base base' : D)
        → base ≼ base'
        → let c = dec 4 0 ⊕ rates.kirchensteuer in
          let total = λ (t : D). t ⊕ t ⊗ rates.kirchensteuer ⊕ t ⊗ rates.solidaritaetszuschlag in
          total (base ⊘ c) ≼ total (base' ⊘ c)
    parts_mono base base' le =
        let c = dec 4 0 ⊕ rates.kirchensteuer in
        let pos : d.neg_part c < d.pos_part c = omega (arith, divisor.0, nought_parts d) in
        let t = base ⊘ c in
        let t' = base' ⊘ c in
        let le₁ = d.div_mono base base' c le pos in
        let k : d.neg_part rates.kirchensteuer ≤ d.pos_part rates.kirchensteuer =
          omega (arith, v.0, nought_parts d) in
        let s : d.neg_part rates.solidaritaetszuschlag ≤ d.pos_part rates.solidaritaetszuschlag =
          omega (arith, v.1, nought_parts d) in
        omega (
          arith,
          le₁,
          d.mul_mono t t' rates.kirchensteuer le₁ k,
          d.mul_mono t t' rates.solidaritaetszuschlag le₁ s,
          d.add_parts t (t ⊗ rates.kirchensteuer),
          d.add_parts t' (t' ⊗ rates.kirchensteuer),
          d.add_parts (t ⊕ t ⊗ rates.kirchensteuer) (t ⊗ rates.solidaritaetszuschlag),
          d.add_parts (t' ⊕ t' ⊗ rates.kirchensteuer) (t' ⊗ rates.solidaritaetszuschlag),
        )

    -- With surcharge rates that are not negative, more taxable income never lowers the tax, and more creditable foreign tax never raises it.
    pub compute_taxes_mono :
        (taxable taxable' q q' : D)
        → taxable ≼ taxable'
        → q' ≼ q
        → (compute_taxes rates taxable q).total ≼ (compute_taxes rates taxable' q').total
    unfolding compute_taxes
    compute_taxes_mono taxable taxable' q q' h h' =
        unfold base_of in
        parts_mono (base_of taxable q) (base_of taxable' q')
          (base_of_mono taxable taxable' q q' h h')

    -- With surcharge rates that are not negative: the flat tax is the quotient of what four times the
    -- creditable foreign tax leaves of the income, or of nothing, by four plus the church rate, with the
    -- order against any amount `x` as the exact quotient has it, and so at most a quarter up to the
    -- rounding. Each surcharge is its rate of the flat tax, and the total is the sum of the three.
    -- Nothing of the tax is negative, the flat tax is at most what is left of the income, and no tax
    -- is due once four times the creditable foreign tax covers the income.
    pub compute_taxes_bounds :
        (taxable q x : D)
        → let t = compute_taxes rates taxable q in
          IsQuotient t.abgeltungssteuer
            (max (taxable ⊖ dec 4 0 ⊗ q) nought)
            (dec 4 0 ⊕ rates.kirchensteuer)
            x
          × (t.kirchensteuer ≈ t.abgeltungssteuer ⊗ rates.kirchensteuer)
          × (t.solidaritaetszuschlag ≈ t.abgeltungssteuer ⊗ rates.solidaritaetszuschlag)
          × (t.total ≈ t.abgeltungssteuer ⊕ t.kirchensteuer ⊕ t.solidaritaetszuschlag)
          × (nought ≼ t.abgeltungssteuer)
          × (nought ≼ t.kirchensteuer)
          × (nought ≼ t.solidaritaetszuschlag)
          × (t.abgeltungssteuer ≼ t.total)
          × (t.abgeltungssteuer ≼ max (taxable ⊖ dec 4 0 ⊗ q) nought)
          × ((dec 4 0 ⊗ q ≺ taxable) ⊎ (t.total ≈ nought))
    unfolding compute_taxes
    compute_taxes_bounds taxable q x =
        let c = dec 4 0 ⊕ rates.kirchensteuer in
        let base = base_of taxable q in
        let t = base ⊘ c in
        let p = div_nonneg base c (base_of_nonneg taxable q) divisor.0 in
        let pk = mul_nonneg t rates.kirchensteuer p v.0 in
        let ps = mul_nonneg t rates.solidaritaetszuschlag p v.1 in
        let small =
          d.div_le base c (omega (arith, base_of_nonneg taxable q, nought_parts d)) divisor.1 in
        let sum₁ = d.add_parts t (t ⊗ rates.kirchensteuer) in
        let sum₂ = d.add_parts (t ⊕ t ⊗ rates.kirchensteuer) (t ⊗ rates.solidaritaetszuschlag) in
        (
          unfold base_of in div-IsQuotient base c x divisor.0,
          refl,
          refl,
          refl,
          p,
          pk,
          ps,
          omega (arith, p, pk, ps, nought_parts d, sum₁, sum₂),
          small,
          elim (Bool-cases (ltd (dec 4 0 ⊗ q) taxable)) [
            | inl more ↦ inl (ground (arith, more))
            | inr covered ↦
                let zero : d.pos_part base ≡ d.neg_part base =
                  ground (arith, covered, nought_parts d, d.sub_parts taxable (dec 4 0 ⊗ q)) in
                let zt : d.pos_part t ≡ d.neg_part t =
                  d.div_zero base c zero (omega (arith, divisor.0, nought_parts d)) in
                inr (
                  omega (
                    arith,
                    zt,
                    sum₁,
                    sum₂,
                    nought_parts d,
                    d.mul_zero t rates.kirchensteuer zt,
                    d.mul_zero t rates.solidaritaetszuschlag zt,
                  ))
          ],
        )
