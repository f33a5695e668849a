-- ===== src/TaxStatement/Germany/Processor/Buckets.antt =====
-- The buckets of section 23 against the realizations of the year.
use investments.Base.{
  ◌≡◌, refl, subst, Bool, List, each, if◌then◌else◌, not, Bool-cases, inl, inr, arith,
}
use investments.Base.Int.{ℤ, eqb_ℤ}
use investments.Base.Decimal.{Decimal, nought, ◌⊕◌, ◌⊖◌, ◌≼◌, ◌≈◌, nought_parts, RoundingStrategy}
use investments.TaxStatement.WashSale.Data.{Calendar}
use investments.TaxStatement.FxFifo.Data.{FxRealization, CurrencyFxResult}
use investments.TaxStatement.Germany.Statement.{
  GermanTaxStatement, Section23, no_section23, is_empty, short_term_net, calculate_totals,
}
use investments.Base.Totals.{total, each-total, each-keeps, each-preserves, every}
use investments.TaxStatement.Germany.Processor.{
  held_over_one_year, to_cents, put_taxable, put_borrowed, put_result, round_section,
  route_fx_section23,
}
use investments.TaxStatement.Germany.Processor.Routed.{repaid, of_year}
use investments.TaxStatement.Germany.Processor.Bucket.{
  NoneNegative, short, short_part, long_part, put_bucket_lem,
}

module _ {D : Type 0} ⦃d : Decimal D⦄ (year_of : ℤ → ℤ) (year : ℤ) (calendar : Calendar) where
  -- What one realization counts, by its year and by how long the currency was held.
  unfoldable pub part_of : (Bool → D → D) → FxRealization ℤ D → D
  part_of part r =
      if eqb_ℤ (year_of r.date) year
      then part (held_over_one_year calendar r.acquisition_date r.date) r.amount
      else nought

  -- The sum over the taxable realizations of all currencies.
  unfoldable pub parts : (Bool → D → D) → List (CurrencyFxResult ℤ D) → D
  parts part results = total (λ (r : CurrencyFxResult ℤ D). total (part_of part) r.taxable) results

  put_taxable_lem :
      (s : Section23 D) (r : FxRealization ℤ D)
      → let after = put_taxable year_of year calendar s r in
        (short after ≈ short s ⊕ part_of short_part r)
        × (after.long_term_tax_free ≈ s.long_term_tax_free ⊕ part_of long_part r)
        × (after.borrowed_review ≡ s.borrowed_review)
        × (NoneNegative s → NoneNegative after)
  unfolding put_taxable part_of
  put_taxable_lem s r =
      let z = nought_parts d in
      elim (Bool-cases (eqb_ℤ (year_of r.date) year)) [
        | inl now ↦
            let (a, b, c, more, more', more'') =
              put_bucket_lem s (held_over_one_year calendar r.acquisition_date r.date) r.amount in
            rw now (
              a,
              b,
              c,
              λ (p, p', p'').
                  (omega (arith, p, more), omega (arith, p', more'), omega (arith, p'', more'')),
            )
        | inr other ↦ rw other (
          omega (arith, z, d.add_parts (short s) nought),
          omega (arith, z, d.add_parts s.long_term_tax_free nought),
          refl,
          λ p. p,
        )
      ]

  put_borrowed_lem :
      (s : Section23 D) (r : FxRealization ℤ D)
      → let after = put_borrowed year_of year s r in
        (short after ≡ short s)
        × (after.long_term_tax_free ≡ s.long_term_tax_free)
        × (after.borrowed_review ≈ s.borrowed_review ⊕ of_year year_of year r)
        × (NoneNegative s → NoneNegative after)
  unfolding put_borrowed of_year
  put_borrowed_lem s r = elim (Bool-cases (eqb_ℤ (year_of r.date) year)) [
    | inl now ↦ rw now (refl, refl, omega arith, λ p. p)
    | inr other ↦
        rw other
          (refl, refl, omega (arith, nought_parts d, d.add_parts s.borrowed_review nought), λ p. p)
  ]

  put_result_lem :
      (s : Section23 D) (result : CurrencyFxResult ℤ D)
      → let after = put_result year_of year calendar s result in
        (short after ≈ short s ⊕ total (part_of short_part) result.taxable)
        × (after.long_term_tax_free
            ≈ s.long_term_tax_free ⊕ total (part_of long_part) result.taxable)
        × (after.borrowed_review
            ≈ s.borrowed_review ⊕ total (of_year year_of year) result.non_taxable)
        × (NoneNegative s → NoneNegative after)
  unfolding put_result
  put_result_lem s result =
      let taxed = put_taxable year_of year calendar in
      let borrowed = put_borrowed year_of year in
      let xs = result.taxable in
      let ys = result.non_taxable in
      let mid = each taxed s xs in
      let all = λ (_ : FxRealization ℤ D). Unit {0} in
      (
        rw (each-keeps borrowed short (λ t r. (put_borrowed_lem t r).0) mid ys) (
            each-total taxed short (part_of short_part) all (λ t r _. (put_taxable_lem t r).0) s xs
              (every xs)),
        rw
            (each-keeps borrowed (λ t. t.long_term_tax_free) (λ t r. (put_borrowed_lem t r).1) mid
              ys)
            (each-total taxed (λ t. t.long_term_tax_free) (part_of long_part) all
              (λ t r _. (put_taxable_lem t r).1) s xs (every xs)),
        subst
            (λ (x : D).
              (each borrowed mid ys).borrowed_review ≈ x ⊕ total (of_year year_of year) ys)
            (each-keeps taxed (λ t. t.borrowed_review) (λ t r. (put_taxable_lem t r).2) s xs)
            (each-total borrowed (λ t. t.borrowed_review) (of_year year_of year) all
              (λ t r _. (put_borrowed_lem t r).2) mid ys (every ys)),
        λ p.
            each-preserves borrowed NoneNegative (λ t r. (put_borrowed_lem t r).3) mid ys
              (each-preserves taxed NoneNegative (λ t r. (put_taxable_lem t r).3) s xs p),
      )

  rounded_nonneg : (x : D) → nought ≼ x → nought ≼ to_cents x
  unfolding to_cents
  rounded_nonneg x h =
      let nearest = RoundingStrategy.midpoint_away_from_zero in
      omega (
        arith,
        nought_parts d,
        d.round_mono nearest 2 nought x h,
        d.round_zero nearest 2 nought (omega (arith, nought_parts d)),
      )

  -- `route_fx_section23` fills the buckets with the realizations of the year, over all currencies,
  -- before each bucket is rounded once: the short-term gains less the short-term losses are the
  -- results on what was held for a year at most, the tax-free bucket has the gains, and no loss, on
  -- what was held for longer, and the last one the repayments. None of the first three is negative.
  -- Income is reported just if a rounded bucket is not zero. The tax of the year is as before.
  pub route_fx_section23_lem :
      (s : GermanTaxStatement D) (results : List (CurrencyFxResult ℤ D))
      → let (routed, has_income) = route_fx_section23 year_of year calendar s results in
        ((exact : Section23 D) × (routed.section23 ≡ round_section exact)
          × (short_term_net exact ≈ parts short_part results)
          × (exact.long_term_tax_free ≈ parts long_part results)
          × (exact.borrowed_review ≈ repaid year_of year results))
        × NoneNegative routed.section23
        × (has_income ≡ not (is_empty routed.section23))
        × ((calculate_totals routed).assessment ≡ (calculate_totals s).assessment)
  unfolding route_fx_section23 round_section parts repaid short_term_net no_section23
      calculate_totals
  route_fx_section23_lem s results =
      let step = put_result year_of year calendar in
      let exact = each step no_section23 results in
      let z = nought_parts d in
      let all = λ (_ : CurrencyFxResult ℤ D). Unit {0} in
      let every_result = every results in
      let start : NoneNegative (no_section23 ⦃d = d⦄) = (omega arith, omega arith, omega arith) in
      let (a, b, c) =
        each-preserves step NoneNegative (λ t r. (put_result_lem t r).3) no_section23 results
          start in
      (
        (
          exact,
          refl,
          omega (
            arith,
            z,
            d.sub_parts nought nought,
            each-total step short (λ r. total (part_of short_part) r.taxable) all
                (λ t r _. (put_result_lem t r).0) no_section23 results every_result,
            d.add_parts (nought ⊖ nought) (parts short_part results),
          ),
          omega (
            arith,
            z,
            each-total step (λ t. t.long_term_tax_free) (λ r. total (part_of long_part) r.taxable)
                all (λ t r _. (put_result_lem t r).1) no_section23 results every_result,
            d.add_parts nought (parts long_part results),
          ),
          omega (
            arith,
            z,
            each-total step (λ t. t.borrowed_review)
                (λ r. total (of_year year_of year) r.non_taxable) all
                (λ t r _. (put_result_lem t r).2) no_section23 results every_result,
            d.add_parts nought (repaid year_of year results),
          ),
        ),
        (
          rounded_nonneg exact.short_term_gains a,
          rounded_nonneg exact.short_term_losses b,
          rounded_nonneg exact.long_term_tax_free c,
        ),
        refl,
        refl,
      )
