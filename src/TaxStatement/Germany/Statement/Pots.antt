-- ===== src/TaxStatement/Germany/Statement/Pots.antt =====
-- The pots of `calculate_totals`: what they hold, and what becomes of it.
use investments.Base.{◌≡◌, refl, inl, inr, each, if◌then◌else◌, All, Bool-cases, arith}
use investments.Base.Totals.{total, each-total, each-keeps, every}
use investments.Base.Decimal.{
  Decimal, nought, negate, ◌⊕◌, ◌⊖◌, ◌≼◌, ◌≈◌, led, nought_parts, abs_parts,
}
use investments.TaxStatement.Germany.Entries.{
  Entries, CapitalGainEntry, DividendEntry, InterestEntry, FxGainEntry,
}
use investments.TaxStatement.Germany.Totals.{
  Sums, no_sums, put_gain, put_loss, book_capital_gain, book_dividend, book_interest, book_fx_gain,
  book_entries,
}

module _ {D : Type 0} ⦃d : Decimal D⦄ where
  -- What is added to the gains of a pot adds to it, and what is added to its losses is taken off it.
  pot_adds :
      (gains losses x : D)
      → ((gains ⊕ x) ⊖ losses ≈ (gains ⊖ losses) ⊕ x)
        × (gains ⊖ (losses ⊕ negate x) ≈ (gains ⊖ losses) ⊕ x)
        × (gains ⊖ losses ≈ (gains ⊖ losses) ⊕ nought)
  pot_adds gains losses x = omega (
    arith,
    d.add_parts gains x,
    d.add_parts losses (negate x),
    d.neg_parts x,
    d.sub_parts gains losses,
    d.sub_parts (gains ⊕ x) losses,
    d.sub_parts gains (losses ⊕ negate x),
    d.add_parts (gains ⊖ losses) x,
    d.add_parts (gains ⊖ losses) nought,
    nought_parts d,
  )

  abbrev pub stock_net : Sums D → D
  stock_net s = s.stock_gains ⊖ s.stock_losses

  abbrev pub general_net : Sums D → D
  general_net s = s.general_gains ⊖ s.general_losses

  -- What a disposal counts for the pot of the shares, and what for the other one.
  unfoldable pub on_shares : CapitalGainEntry D → D
  on_shares entry = if entry.is_stock then entry.taxable_amount else nought

  unfoldable pub on_others : CapitalGainEntry D → D
  on_others entry = if entry.is_stock then nought else entry.taxable_amount

  gain_adds :
      (s : Sums D) (entry : CapitalGainEntry D)
      → (stock_net (book_capital_gain s entry) ≈ stock_net s ⊕ on_shares entry)
        × (general_net (book_capital_gain s entry) ≈ general_net s ⊕ on_others entry)
  unfolding book_capital_gain put_gain put_loss on_shares on_others
  gain_adds s entry =
      let a = entry.taxable_amount in
      let (up, down, still) = pot_adds s.stock_gains s.stock_losses a in
      let (up', down', still') = pot_adds s.general_gains s.general_losses a in
      elim (Bool-cases (led nought a)) [
        | inl e ↦ elim (Bool-cases entry.is_stock) [
          | inl e' ↦ rw (e, e') (up, still')
          | inr e' ↦ rw (e, e') (still, up')
        ]
        | inr e ↦ elim (Bool-cases entry.is_stock) [
          | inl e' ↦ rw (e, e') (down, still')
          | inr e' ↦ rw (e, e') (still, down')
        ]
      ]

  dividend_adds :
      (s : Sums D) (entry : DividendEntry D)
      → general_net (book_dividend s entry) ≈ general_net s ⊕ entry.taxable_amount
  unfolding book_dividend
  dividend_adds s entry = (pot_adds s.general_gains s.general_losses entry.taxable_amount).0

  interest_adds :
      (s : Sums D) (entry : InterestEntry D)
      → general_net (book_interest s entry) ≈ general_net s ⊕ entry.taxable_amount
  unfolding book_interest
  interest_adds s entry = (pot_adds s.general_gains s.general_losses entry.taxable_amount).0

  -- An entry that is taxed on its whole amount, as the foreign currency results are.
  abbrev pub IsWhole : FxGainEntry D → Type 0
  IsWhole entry = entry.taxable_amount ≈ entry.gross_amount_eur

  fx_adds :
      (s : Sums D) (entry : FxGainEntry D)
      → IsWhole entry
      → general_net (book_fx_gain s entry) ≈ general_net s ⊕ entry.taxable_amount
  unfolding book_fx_gain
  fx_adds s entry whole =
      let a = entry.taxable_amount in
      let loss = d.abs a in
      elim (Bool-cases (led nought entry.gross_amount_eur)) [
        | inl e ↦ rw e (pot_adds s.general_gains s.general_losses a).0
        | inr e ↦
            let down : a ≼ nought = ground (arith, e, whole) in
            rw e (
              omega (
                arith,
                (pot_adds s.general_gains s.general_losses a).1,
                (abs_parts a).2 down,
                d.neg_parts a,
                d.add_parts s.general_losses loss,
                d.add_parts s.general_losses (negate a),
                d.sub_parts s.general_gains (s.general_losses ⊕ loss),
                d.sub_parts s.general_gains (s.general_losses ⊕ negate a),
              ))
      ]

  fx_keeps : (s : Sums D) (entry : FxGainEntry D) → stock_net (book_fx_gain s entry) ≡ stock_net s
  unfolding book_fx_gain
  fx_keeps s entry = elim (Bool-cases (led nought entry.gross_amount_eur)) [
    | inl e ↦ rw e refl
    | inr e ↦ rw e refl
  ]

  -- The pots of a year: the taxable amounts of the disposals of shares, and those of all else.
  unfoldable pub share_total : Entries D → D
  share_total entries = total on_shares entries.capital_gains

  unfoldable pub other_total : Entries D → D
  other_total entries =
      total on_others entries.capital_gains
      ⊕ total (λ (e : DividendEntry D). e.taxable_amount) entries.dividends
      ⊕ total (λ (e : InterestEntry D). e.taxable_amount) entries.interest
      ⊕ total (λ (e : FxGainEntry D). e.taxable_amount) entries.fx_gains

  -- After the disposals, no loop changes the pot of the shares.
  stock_kept :
      (s : Sums D) (entries : Entries D)
      → stock_net (
          each book_fx_gain
            (each book_interest (each book_dividend s entries.dividends) entries.interest)
            entries.fx_gains)
        ≡ stock_net s
  unfolding book_dividend book_interest book_fx_gain
  stock_kept s entries =
      let s₂ = each book_dividend s entries.dividends in
      let s₃ = each book_interest s₂ entries.interest in
      cc (
        each-keeps book_dividend stock_net (λ _ _. refl) s entries.dividends,
        each-keeps book_interest stock_net (λ _ _. refl) s₂ entries.interest,
        each-keeps book_fx_gain stock_net fx_keeps s₃ entries.fx_gains,
      )

  -- The pots that the loops fill are those of the year.
  pub book_entries_lem :
      (entries : Entries D)
      → All IsWhole entries.fx_gains
      → (stock_net (book_entries entries) ≈ share_total entries)
        × (general_net (book_entries entries) ≈ other_total entries)
  unfolding book_entries share_total other_total no_sums
  book_entries_lem entries whole =
      let gains = entries.capital_gains in
      let x = total on_shares gains in
      let a = total on_others gains in
      let b = total (λ (e : DividendEntry D). e.taxable_amount) entries.dividends in
      let c = total (λ (e : InterestEntry D). e.taxable_amount) entries.interest in
      let f = total (λ (e : FxGainEntry D). e.taxable_amount) entries.fx_gains in
      let s₁ = each book_capital_gain no_sums gains in
      let s₂ = each book_dividend s₁ entries.dividends in
      let s₃ = each book_interest s₂ entries.interest in
      let zero = d.sub_parts nought nought in
      let z = nought_parts d in
      let always = λ (_ : CapitalGainEntry D). Unit {0} in
      (
        rw (stock_kept s₁ entries) (
            omega (
              arith,
              z,
              zero,
              each-total book_capital_gain stock_net on_shares always (λ s e _. (gain_adds s e).0)
                  no_sums gains (every gains),
              d.add_parts (nought ⊖ nought) x,
            )),
        omega (
          arith,
          z,
          zero,
          each-total book_capital_gain general_net on_others always (λ s e _. (gain_adds s e).1)
              no_sums gains (every gains),
          each-total book_dividend general_net (λ e. e.taxable_amount) (λ _. Unit {0})
              (λ s e _. dividend_adds s e) s₁ entries.dividends (every entries.dividends),
          each-total book_interest general_net (λ e. e.taxable_amount) (λ _. Unit {0})
              (λ s e _. interest_adds s e) s₂ entries.interest (every entries.interest),
          each-total book_fx_gain general_net (λ e. e.taxable_amount) IsWhole fx_adds s₃
              entries.fx_gains whole,
          d.add_parts (general_net no_sums) a,
          d.add_parts (general_net s₁) b,
          d.add_parts (general_net s₂) c,
          d.add_parts (general_net s₃) f,
          d.add_parts a b,
          d.add_parts (a ⊕ b) c,
          d.add_parts (a ⊕ b ⊕ c) f,
        ),
      )
