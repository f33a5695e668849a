-- ===== src/TaxStatement/Germany/Statement/Lines.antt =====
-- What each entry adds to the lines of the form KAP.
use investments.Base.{◌≡◌, inl, inr, each, if◌then◌else◌, Bool-cases, arith, refl}
use investments.Base.Decimal.{Decimal, nought, negate, ◌⊕◌, ◌⊖◌, ◌≼◌, ◌≈◌, led, ltd, nought_parts}
use investments.TaxStatement.Germany.Entries.{Entries, CapitalGainEntry, DividendEntry, FxGainEntry}
use investments.TaxStatement.Germany.Kap.{
  KapSums, is_none, no_kap, kap_capital_gain, kap_dividend, kap_interest, kap_fx_gain, kap_sums,
}
use investments.Base.Totals.{each-keeps, each-preserves}
use investments.TaxStatement.Germany.Statement.Pots.{on_shares}

module _ {D : Type 0} ⦃d : Decimal D⦄ where
  -- A disposal counts as one of shares just if its fund is in no class, as the code that adds the
  -- entries has it.
  abbrev pub IsClassified : CapitalGainEntry D → Type 0
  IsClassified entry = entry.is_stock ≡ is_none entry.teilfreistellung_rate

  -- What a dividend counts on KAP.
  unfoldable pub on_kap : DividendEntry D → D
  on_kap entry = if is_none entry.teilfreistellung_rate then entry.gross_amount_eur else nought

  abbrev pub declared : KapSums D → D
  declared s = s.kap_positive ⊖ s.zeile_22 ⊖ s.zeile_23

  abbrev pub of_shares : KapSums D → D
  of_shares s = s.zeile_20 ⊖ s.zeile_23

  abbrev pub NoneNegative : KapSums D → Type 0
  NoneNegative s = (nought ≼ s.zeile_20) × (nought ≼ s.zeile_22) × (nought ≼ s.zeile_23)

  -- What is added to one of the sums is added to the line, or taken off it.
  pub declared_adds :
      (a b c x : D)
      → ((a ⊕ x) ⊖ b ⊖ c ≈ (a ⊖ b ⊖ c) ⊕ x)
        × (a ⊖ (b ⊕ negate x) ⊖ c ≈ (a ⊖ b ⊖ c) ⊕ x)
        × (a ⊖ b ⊖ (c ⊕ negate x) ≈ (a ⊖ b ⊖ c) ⊕ x)
        × (x ≈ nought → a ⊖ b ⊖ c ≈ (a ⊖ b ⊖ c) ⊕ x)
  declared_adds a b c x =
      let off = d.add_parts (a ⊖ b ⊖ c) x in
      (
        omega (
          arith,
          off,
          d.add_parts a x,
          d.sub_parts a b,
          d.sub_parts (a ⊖ b) c,
          d.sub_parts (a ⊕ x) b,
          d.sub_parts ((a ⊕ x) ⊖ b) c,
        ),
        omega (
          arith,
          off,
          d.neg_parts x,
          d.add_parts b (negate x),
          d.sub_parts a b,
          d.sub_parts (a ⊖ b) c,
          d.sub_parts a (b ⊕ negate x),
          d.sub_parts (a ⊖ (b ⊕ negate x)) c,
        ),
        omega (
          arith,
          off,
          d.neg_parts x,
          d.add_parts c (negate x),
          d.sub_parts (a ⊖ b) c,
          d.sub_parts (a ⊖ b) (c ⊕ negate x),
        ),
        λ zero. omega (arith, off, zero, nought_parts d),
      )

  pub shares_adds :
      (a b x : D)
      → ((a ⊕ x) ⊖ b ≈ (a ⊖ b) ⊕ x)
        × (a ⊖ (b ⊕ negate x) ≈ (a ⊖ b) ⊕ x)
        × (x ≈ nought → a ⊖ b ≈ (a ⊖ b) ⊕ x)
  shares_adds a b x =
      let off = d.add_parts (a ⊖ b) x in
      (
        omega (arith, off, d.add_parts a x, d.sub_parts a b, d.sub_parts (a ⊕ x) b),
        omega (
          arith,
          off,
          d.neg_parts x,
          d.add_parts b (negate x),
          d.sub_parts a b,
          d.sub_parts a (b ⊕ negate x),
        ),
        λ zero. omega (arith, off, zero, nought_parts d),
      )

  pub gain_declares :
      (s : KapSums D) (entry : CapitalGainEntry D)
      → IsClassified entry
      → (declared (kap_capital_gain s entry) ≈ declared s ⊕ on_shares entry)
        × (of_shares (kap_capital_gain s entry) ≈ of_shares s ⊕ on_shares entry)
  unfolding kap_capital_gain on_shares
  gain_declares s entry classified =
      let x = entry.taxable_amount in
      let (up, _, down, still) = declared_adds s.kap_positive s.zeile_22 s.zeile_23 x in
      let (up', down', still') = shares_adds s.zeile_20 s.zeile_23 x in
      let (_, _, _, none) = declared_adds s.kap_positive s.zeile_22 s.zeile_23 nought in
      let (_, _, none') = shares_adds s.zeile_20 s.zeile_23 nought in
      elim (Bool-cases (is_none entry.teilfreistellung_rate)) [
        | inr fund ↦ rw (classified, fund) (none (omega arith), none' (omega arith))
        | inl share ↦ elim (Bool-cases (ltd nought x)) [
          | inl more ↦ rw (classified, share, more) (up, up')
          | inr e ↦ elim (Bool-cases (ltd x nought)) [
            | inl less ↦ rw (classified, share, e, less) (down, down')
            | inr e' ↦
                rw (classified, share, e, e')
                  (still (ground (arith, e, e')), still' (ground (arith, e, e')))
          ]
        ]
      ]

  pub dividend_declares :
      (s : KapSums D) (entry : DividendEntry D)
      → declared (kap_dividend s entry) ≈ declared s ⊕ on_kap entry
  unfolding kap_dividend on_kap
  dividend_declares s entry =
      let (up, _, _, _) =
        declared_adds s.kap_positive s.zeile_22 s.zeile_23 entry.gross_amount_eur in
      let (_, _, _, none) = declared_adds s.kap_positive s.zeile_22 s.zeile_23 nought in
      elim (Bool-cases (is_none entry.teilfreistellung_rate)) [
        | inl e ↦ rw e up
        | inr e ↦ rw e (none (omega arith))
      ]

  pub fx_declares :
      (s : KapSums D) (entry : FxGainEntry D)
      → declared (kap_fx_gain s entry) ≈ declared s ⊕ entry.taxable_amount
  unfolding kap_fx_gain
  fx_declares s entry =
      let (up, down, _, _) =
        declared_adds s.kap_positive s.zeile_22 s.zeile_23 entry.taxable_amount in
      elim (Bool-cases (led nought entry.taxable_amount)) [ inl e ↦ rw e up | inr e ↦ rw e down ]

  pub dividend_keeps :
      (s : KapSums D) (entry : DividendEntry D) → of_shares (kap_dividend s entry) ≡ of_shares s
  unfolding kap_dividend
  dividend_keeps s entry = elim (Bool-cases (is_none entry.teilfreistellung_rate)) [
    | inl e ↦ rw e refl
    | inr e ↦ rw e refl
  ]

  pub fx_keeps :
      (s : KapSums D) (entry : FxGainEntry D) → of_shares (kap_fx_gain s entry) ≡ of_shares s
  unfolding kap_fx_gain
  fx_keeps s entry = elim (Bool-cases (led nought entry.taxable_amount)) [
    | inl e ↦ rw e refl
    | inr e ↦ rw e refl
  ]

  pub gain_nonneg :
      (s : KapSums D) (entry : CapitalGainEntry D)
      → NoneNegative s
      → NoneNegative (kap_capital_gain s entry)
  unfolding kap_capital_gain
  gain_nonneg s entry (a, b, c) =
      let x = entry.taxable_amount in
      let z = nought_parts d in
      elim (Bool-cases (is_none entry.teilfreistellung_rate)) [
        | inr fund ↦ rw fund (a, b, c)
        | inl share ↦ elim (Bool-cases (ltd nought x)) [
          | inl more ↦ rw (share, more) (ground (arith, z, a, more, d.add_parts s.zeile_20 x), b, c)
          | inr e ↦ elim (Bool-cases (ltd x nought)) [
            | inl less ↦
                rw (share, e, less)
                  (
                    a,
                    b,
                    ground (arith, z, c, less, d.add_parts s.zeile_23 (negate x), d.neg_parts x),
                  )
            | inr e' ↦ rw (share, e, e') (a, b, c)
          ]
        ]
      ]

  pub dividend_nonneg :
      (s : KapSums D) (entry : DividendEntry D)
      → NoneNegative s
      → NoneNegative (kap_dividend s entry)
  unfolding kap_dividend
  dividend_nonneg s entry p = elim (Bool-cases (is_none entry.teilfreistellung_rate)) [
    | inl e ↦ rw e p
    | inr e ↦ rw e p
  ]

  pub fx_nonneg :
      (s : KapSums D) (entry : FxGainEntry D) → NoneNegative s → NoneNegative (kap_fx_gain s entry)
  unfolding kap_fx_gain
  fx_nonneg s entry (a, b, c) =
      let x = entry.taxable_amount in
      elim (Bool-cases (led nought x)) [
        | inl e ↦ rw e (a, b, c)
        | inr e ↦ rw e (
          a,
          ground (arith, e, b, nought_parts d, d.add_parts s.zeile_22 (negate x), d.neg_parts x),
          c,
        )
      ]

  pub kap_sums-NoneNegative : (entries : Entries D) → NoneNegative (kap_sums entries)
  unfolding kap_sums no_kap kap_interest
  kap_sums-NoneNegative entries =
      let s₁ = each kap_capital_gain no_kap entries.capital_gains in
      let s₂ = each kap_dividend s₁ entries.dividends in
      let s₃ = each kap_interest s₂ entries.interest in
      let p : NoneNegative no_kap = (omega arith, omega arith, omega arith) in
      each-preserves kap_fx_gain NoneNegative fx_nonneg s₃ entries.fx_gains (
        each-preserves kap_interest NoneNegative (λ _ _ q. q) s₂ entries.interest
          (each-preserves kap_dividend NoneNegative dividend_nonneg s₁ entries.dividends (
            each-preserves kap_capital_gain NoneNegative gain_nonneg no_kap entries.capital_gains
              p)))

  pub of_shares-kept :
      (s : KapSums D) (entries : Entries D)
      → of_shares (
          each kap_fx_gain
            (each kap_interest (each kap_dividend s entries.dividends) entries.interest)
            entries.fx_gains)
        ≡ of_shares s
  unfolding kap_interest
  of_shares-kept s entries =
      let s₂ = each kap_dividend s entries.dividends in
      let s₃ = each kap_interest s₂ entries.interest in
      cc (
        each-keeps kap_dividend of_shares dividend_keeps s entries.dividends,
        each-keeps kap_interest of_shares (λ _ _. refl) s₂ entries.interest,
        each-keeps kap_fx_gain of_shares fx_keeps s₃ entries.fx_gains,
      )
