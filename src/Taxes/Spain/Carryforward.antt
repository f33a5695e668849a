-- ===== src/Taxes/Spain/Carryforward.antt =====
-- The loss ledgers of the savings base, src/taxes/spain/carryforward.rs: balances by year of origin.
-- Years are `i32` values; that their arithmetic does not overflow is taken for granted.
pub mod Offset
pub mod Order
pub mod Conservation
pub mod Window
pub mod Years
use investments.Base.{
  if◌then◌else◌, true, false, Option, none, some, List, [], ◌∷◌, Result, ok, err,
}
use investments.Base.Int.{ℤ, pos, ◌+ℤ◌, ◌-ℤ◌, ltb_ℤ, leb_ℤ}
use investments.Base.YearMap
use investments.Base.YearMap.{YearMap}
use investments.Base.Decimal.{Decimal, nought, ◌⊕◌, ◌⊖◌, min, max, ltd, led, eqd, is_zero, sum_from}

abbrev pub carryforward_years : ℤ
carryforward_years = pos 4

pub record LossLedger (D : Type 0) : Type 0 where
  pub balances : YearMap D

pub record LedgerApplication (D : Type 0) : Type 0 where
  pub used_total : D
  pub used_by_year : YearMap D

-- Why `from_config` refuses an entry, with its year of origin.
pub data ConfigError : Type 0 where
  negative_balance not_a_prior_year expired : ℤ → ConfigError

-- The variables of the loop in `LossLedger::apply`.
pub record Progress (D : Type 0) : Type 0 where
  pub budget : D
  pub balances : YearMap D
  pub application : LedgerApplication D

module _ {D : Type 0} ⦃d : Decimal D⦄ where
  -- `LossLedger::default` and `LedgerApplication::default`.
  abbrev pub no_balances : LossLedger D
  no_balances = record { balances = [] }

  abbrev pub not_applied : LedgerApplication D
  not_applied = record { used_total = nought; used_by_year = [] }

  -- `*map.entry(year).or_insert(ZERO) += amount`.
  pub add_at : ℤ → D → YearMap D → YearMap D
  add_at year amount m = YearMap.insert year (YearMap.get_or m year nought ⊕ amount) m

  pub merge_years : YearMap D → List (ℤ × D) → YearMap D
  unfolding add_at
  merge_years m [] = m
  merge_years m ((origin, amount) ∷ other) = merge_years (add_at origin amount m) other

  unfoldable pub merge : LedgerApplication D → LedgerApplication D → LedgerApplication D
  unfolding merge_years
  merge a other = record {
    used_total = a.used_total ⊕ other.used_total;
    used_by_year = merge_years a.used_by_year other.used_by_year;
  }

  -- One round of the loop of `from_config`: the error, or the balances with the entry put in.
  pub config_entry : ℤ → ℤ → D → YearMap D → Result ConfigError (YearMap D)
  config_entry filing_year origin amount m =
      if ltd amount nought
      then err (negative_balance origin)
      else (if leb_ℤ filing_year origin
          then err (not_a_prior_year origin)
          else (if ltb_ℤ origin (filing_year -ℤ carryforward_years)
              then err (expired origin)
              else ok (if ltd nought amount then YearMap.insert origin amount m else m)))

  pub config_entries : ℤ → List (ℤ × D) → YearMap D → Result ConfigError (YearMap D)
  unfolding config_entry
  config_entries filing_year [] m = ok m
  config_entries filing_year ((origin, amount) ∷ rest) m =
      elim (config_entry filing_year origin amount m) [
        | ok m' ↦ config_entries filing_year rest m'
        | err e ↦ err e
      ]

  pub from_config : YearMap D → ℤ → Result ConfigError (LossLedger D)
  unfolding config_entries
  from_config balances filing_year = elim (config_entries filing_year balances []) [
    | ok m ↦ ok (record { balances = m })
    | err e ↦ err e
  ]

  pub add : LossLedger D → ℤ → D → LossLedger D
  unfolding add_at
  add ledger origin_year loss =
      if led loss nought
      then ledger
      else record { balances = add_at origin_year loss ledger.balances }

  -- The body of the loop, once the balance is read.
  pub consume_year : ℤ → D → Progress D → Progress D
  consume_year origin balance p =
      let used = min balance p.budget in
      record {
        budget = p.budget ⊖ used;
        balances =
            if eqd used balance
            then YearMap.remove origin p.balances
            else YearMap.insert origin (balance ⊖ used) p.balances;
        application = record {
          used_total = p.application.used_total ⊕ used;
          used_by_year = YearMap.insert origin used p.application.used_by_year;
        };
      }

  -- The loop over the keys. `none` is the panic of the index `self.balances[&origin]`.
  pub consume : List ℤ → Progress D → Option (Progress D)
  unfolding consume_year
  consume [] p = some p
  consume (origin ∷ rest) p = elim (is_zero p.budget) [
    | true ↦ some p
    | false ↦ elim (YearMap.get origin p.balances) [
      | none ↦ none
      | some balance ↦ consume rest (consume_year origin balance p)
    ]
  ]

  -- What `apply` may consume at most.
  unfoldable pub budget_of : D → Option D → D
  budget_of amount none = max nought amount
  budget_of amount (some cap) = min (max nought amount) (max nought cap)

  pub apply : LossLedger D → D → Option D → Option (LedgerApplication D × LossLedger D)
  unfolding budget_of consume
  apply ledger amount cap =
      let budget = budget_of amount cap in
      if is_zero budget
      then some (not_applied, ledger)
      else elim (consume (YearMap.keys ledger.balances)
          (record { budget = budget; balances = ledger.balances; application = not_applied })) [
            | none ↦ none
            | some p ↦ some (p.application, record { balances = p.balances })
          ]

  pub total : LossLedger D → D
  total ledger = sum_from nought (YearMap.values ledger.balances)

  pub expiring_after : LossLedger D → ℤ → D
  expiring_after ledger filing_year =
      YearMap.get_or ledger.balances (filing_year -ℤ carryforward_years) nought

  pub drop_expired : LossLedger D → ℤ → LossLedger D
  drop_expired ledger filing_year = record {
    balances =
        YearMap.retain (λ origin. ltb_ℤ (filing_year -ℤ carryforward_years) origin) ledger.balances;
  }
