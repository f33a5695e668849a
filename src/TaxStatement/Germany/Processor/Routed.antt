-- ===== src/TaxStatement/Germany/Processor/Routed.antt =====
-- What the routing of the results on foreign currency adds to a statement.
use investments.Base.{
  ◌≡◌, refl, ap, String, Bool, true, false, ◌||◌, List, [], ◌∷◌, ◌++◌, each, if◌then◌else◌, All,
  Bool-cases, inl, inr, arith,
}
use investments.Base.{All-append}
use investments.Base.Int.{ℤ, eqb_ℤ}
use investments.Base.Decimal.{Decimal, nought, ◌⊕◌, ◌≈◌, nought_parts, RoundingStrategy}
use investments.Taxes.Germany.Rates.{GermanTaxRates}
use investments.TaxStatement.FxFifo.Data.{FxRealization, CurrencyFxResult}
use investments.TaxStatement.Germany.Entries.{FxGainEntry}
use investments.TaxStatement.Germany.Statement.{GermanTaxStatement, add_fx_gain}
use investments.Base.Totals.{total, each-total, every}
use investments.TaxStatement.Germany.Statement.Pots.{IsWhole}
use investments.TaxStatement.Germany.Processor.{
  to_cents, fx_entry, add_in_year, route_realization, route_result, route_fx_section20,
}

unfoldable pub occupied : {A : Type 0} → List A → Bool
occupied [] = false
occupied (_ ∷ _) = true

append_assoc : {A : Type 0} (xs ys zs : List A) → (xs ++ ys) ++ zs ≡ xs ++ (ys ++ zs)
append_assoc [] ys zs = refl
append_assoc (x ∷ xs) ys zs = ap (λ l. x ∷ l) (append_assoc xs ys zs)

append_nil : {A : Type 0} (xs : List A) → xs ++ [] ≡ xs
append_nil [] = refl
append_nil (x ∷ xs) = ap (λ l. x ∷ l) (append_nil xs)

or_occupied :
    {A : Type 0} (xs ys : List A) (b : Bool)
    → (b || occupied xs) || occupied ys ≡ b || occupied (xs ++ ys)
unfolding occupied
or_occupied xs ys true = refl
or_occupied [] ys false = refl
or_occupied (x ∷ xs) ys false = refl

or_true : (b : Bool) → b || true ≡ true
or_true true = refl
or_true false = refl

or_false : (b : Bool) → b || false ≡ b
or_false true = refl
or_false false = refl

module _ {D : Type 0} ⦃d : Decimal D⦄ (year_of : ℤ → ℤ) (year : ℤ) where
  -- The entries of one currency, and of all: one for each taxable realization of the year.
  unfoldable pub entries_of :
      GermanTaxRates D → String → List (FxRealization ℤ D) → List (FxGainEntry D)
  entries_of rates currency [] = []
  entries_of rates currency (r ∷ rs) =
      let rest = entries_of rates currency rs in
      if eqb_ℤ (year_of r.date) year then fx_entry rates currency r ∷ rest else rest

  unfoldable pub all_entries : GermanTaxRates D → List (CurrencyFxResult ℤ D) → List (FxGainEntry D)
  unfolding entries_of
  all_entries rates [] = []
  all_entries rates (result ∷ results) =
      entries_of rates result.currency result.taxable ++ all_entries rates results

  abbrev with_fx : GermanTaxStatement D → List (FxGainEntry D) → GermanTaxStatement D
  with_fx s xs = record s { entries = record (s.entries) { fx_gains = s.entries.fx_gains ++ xs } }

  with_fx_twice :
      (s : GermanTaxStatement D) (xs ys : List (FxGainEntry D))
      → with_fx (with_fx s xs) ys ≡ with_fx s (xs ++ ys)
  with_fx_twice s xs ys =
      ap (λ (l : List (FxGainEntry D)). record s { entries = record (s.entries) { fx_gains = l } })
        (append_assoc s.entries.fx_gains xs ys)

  with_fx_nil : (s : GermanTaxStatement D) → with_fx s [] ≡ s
  with_fx_nil s =
      ap (λ (l : List (FxGainEntry D)). record s { entries = record (s.entries) { fx_gains = l } })
        (append_nil s.entries.fx_gains)

  -- The amounts of the year.
  unfoldable pub of_year : FxRealization ℤ D → D
  of_year r = if eqb_ℤ (year_of r.date) year then r.amount else nought

  routes :
      (currency : String) (s : GermanTaxStatement D) (b : Bool) (rs : List (FxRealization ℤ D))
      → let xs = entries_of s.tax_rates currency rs in
        each (route_realization year_of year currency) (s, b) rs ≡ (with_fx s xs, b || occupied xs)
  unfolding route_realization entries_of add_fx_gain occupied
  routes currency s b [] = cc (with_fx_nil s, or_false b)
  routes currency s b (r ∷ rs) =
      let e = fx_entry s.tax_rates currency r in
      elim (Bool-cases (eqb_ℤ (year_of r.date) year)) [
        | inl now ↦ rw now (
            cc (
              routes currency (add_fx_gain s e) true rs,
              with_fx_twice s (e ∷ []) (entries_of s.tax_rates currency rs),
              or_true b,
            ))
        | inr other ↦ rw other (routes currency s b rs)
      ]

  routes_all :
      (s : GermanTaxStatement D) (b : Bool) (sum : D) (results : List (CurrencyFxResult ℤ D))
      → let xs = all_entries s.tax_rates results in
        (each (route_result year_of year) ((s, b), sum) results).0
        ≡ (with_fx s xs, b || occupied xs)
  unfolding route_result all_entries occupied
  routes_all s b sum [] = cc (with_fx_nil s, or_false b)
  routes_all s b sum (result ∷ results) =
      let xs = entries_of s.tax_rates result.currency result.taxable in
      let ys = all_entries s.tax_rates results in
      let sum' = sum ⊕ each (add_in_year year_of year) nought result.non_taxable in
      cc (
        routes result.currency s b result.taxable,
        routes_all (with_fx s xs) (b || occupied xs) sum' results,
        with_fx_twice s xs ys,
        or_occupied xs ys b,
      )

  add_in_year_adds :
      (sum : D) (r : FxRealization ℤ D) → add_in_year year_of year sum r ≈ sum ⊕ of_year r
  unfolding add_in_year of_year
  add_in_year_adds sum r = elim (Bool-cases (eqb_ℤ (year_of r.date) year)) [
    | inl now ↦ rw now (omega arith)
    | inr other ↦ rw other (omega (arith, nought_parts d, d.add_parts sum nought))
  ]

  -- The repayments of the year, of all currencies.
  unfoldable pub repaid : List (CurrencyFxResult ℤ D) → D
  repaid results = total (λ (r : CurrencyFxResult ℤ D). total of_year r.non_taxable) results

  repaid_sum :
      (state : (GermanTaxStatement D × Bool) × D) (results : List (CurrencyFxResult ℤ D))
      → (each (route_result year_of year) state results).1 ≈ state.1 ⊕ repaid results
  unfolding route_result repaid
  repaid_sum state results =
      each-total (route_result year_of year) (λ t. t.1) (λ r. total of_year r.non_taxable)
        (λ _. Unit {0})
        (λ t r _. omega (
          arith,
          nought_parts d,
          each-total (add_in_year year_of year) (λ x. x) of_year (λ _. Unit {0})
              (λ x e _. add_in_year_adds x e) nought r.non_taxable (every r.non_taxable),
          d.add_parts nought (total of_year r.non_taxable),
          d.add_parts t.1 (each (add_in_year year_of year) nought r.non_taxable),
          d.add_parts t.1 (total of_year r.non_taxable),
        ))
        state results (every results)

  entries_of-IsWhole :
      (rates : GermanTaxRates D) (currency : String) (rs : List (FxRealization ℤ D))
      → All IsWhole (entries_of rates currency rs)
  unfolding entries_of fx_entry
  entries_of-IsWhole rates currency [] = tt
  entries_of-IsWhole rates currency (r ∷ rs) = elim (Bool-cases (eqb_ℤ (year_of r.date) year)) [
    | inl now ↦ rw now (omega arith, entries_of-IsWhole rates currency rs)
    | inr other ↦ rw other (entries_of-IsWhole rates currency rs)
  ]

  all_entries-IsWhole :
      (rates : GermanTaxRates D) (results : List (CurrencyFxResult ℤ D))
      → All IsWhole (all_entries rates results)
  unfolding all_entries
  all_entries-IsWhole rates [] = tt
  all_entries-IsWhole rates (result ∷ results) =
      All-append IsWhole (entries_of rates result.currency result.taxable)
        (all_entries rates results) (entries_of-IsWhole rates result.currency result.taxable)
        (all_entries-IsWhole rates results)

  -- `route_fx_section20` adds one entry for each taxable realization of the year, in order, and
  -- changes no other entry; it reports income just if there is one. The new entries are
  -- taxed whole, and the repayments of the year are summed over all currencies and rounded once.
  pub route_fx_section20_lem :
      (s : GermanTaxStatement D) (results : List (CurrencyFxResult ℤ D))
      → let (routed, has_income) = route_fx_section20 year_of year s results in
        let xs = all_entries s.tax_rates results in
        (routed.entries ≡ record (s.entries) { fx_gains = s.entries.fx_gains ++ xs })
        × (has_income ≡ occupied xs)
        × All IsWhole xs
        × (routed.non_taxable_margin_fx ≈ to_cents (repaid results))
  unfolding route_fx_section20 to_cents
  route_fx_section20_lem s results =
      let ends = each (route_result year_of year) ((s, false), nought) results in
      let same = routes_all s false nought results in
      let x = ends.1 in
      let y = repaid results in
      let sum = repaid_sum ((s, false), nought) results in
      let start = d.add_parts nought y in
      let z = nought_parts d in
      let nearest = RoundingStrategy.midpoint_away_from_zero in
      (
        ap (λ (t : GermanTaxStatement D × Bool). t.0.entries) same,
        ap (λ (t : GermanTaxStatement D × Bool). t.1) same,
        all_entries-IsWhole s.tax_rates results,
        omega (
          arith,
          d.round_mono nearest 2 x y (omega (arith, sum, start, z)),
          d.round_mono nearest 2 y x (omega (arith, sum, start, z)),
        ),
      )
