-- ===== src/Taxes/Spain/Exemption.antt =====
-- The Navarra exemption of small disposals, src/taxes/spain/exemption.rs.
use investments.Base.{if◌then◌else◌, ◌||◌, ◌⊎◌, arith}
use investments.Base.Decimal.{
  Decimal, nought, dec, ◌⊖◌, ◌⊗◌, ◌≼◌, ◌≺◌, ◌≈◌, min, max, ltd, led, nought_parts, mul_nonneg,
}

module _ {D : Type 0} ⦃d : Decimal D⦄ where
  pub global_transmission_limit : D
  global_transmission_limit = dec 3_000 0

  pub exempt_fraction : D
  exempt_fraction = dec 5 1

  pub small_disposals_exemption : D → D → D
  unfolding global_transmission_limit exempt_fraction
  small_disposals_exemption global_proceeds gains =
      if led global_proceeds nought
        || ltd global_transmission_limit global_proceeds
        || led gains nought
      then nought
      else min gains (global_proceeds ⊗ exempt_fraction)

  -- For gains that are not negative, a year qualifies when its transmissions come to more than
  -- nothing and at most 3,000 euros. In a qualifying year the taxed rest is what exceeds half of
  -- the transmissions. In any other year the whole gain is taxed. The exemption is never negative,
  -- and never exceeds the gain.
  pub small_disposals_exemption_lem :
      (global_proceeds gains : D)
      → nought ≼ gains
      → let exempt = small_disposals_exemption global_proceeds gains in
        let taxed = gains ⊖ exempt in
        let half = global_proceeds ⊗ dec 5 1 in
        (nought ≼ exempt)
        × (nought ≼ taxed)
        × (((nought ≺ global_proceeds)
              × (global_proceeds ≼ dec 3_000 0)
              × (taxed ≈ max (gains ⊖ half) nought))
            ⊎ (((global_proceeds ≼ nought) ⊎ (dec 3_000 0 ≺ global_proceeds)) × (taxed ≈ gains)))
  unfolding small_disposals_exemption global_transmission_limit exempt_fraction
  small_disposals_exemption_lem p g gain =
      let half = p ⊗ dec 5 1 in
      let fraction : ◌≼◌ {D = D} nought (dec 5 1) =
        omega (arith, nought_parts d, d.dec_parts 5 1 (omega arith)) in
      let half_nonneg = mul_nonneg p (dec 5 1) in
      (
        ground (arith, nought_parts d, fraction, half_nonneg),
        ground (
          arith,
          nought_parts d,
          fraction,
          half_nonneg,
          d.sub_parts g nought,
          d.sub_parts g half,
          d.sub_parts g g,
        ),
        ground (
          arith,
          nought_parts d,
          fraction,
          half_nonneg,
          d.sub_parts g nought,
          d.sub_parts g half,
          d.sub_parts g g,
        ),
      )
