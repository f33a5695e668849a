-- ===== src/TaxStatement/WashSale/Replayed.antt =====
-- The theorems on `process`, from those on its steps.
use investments.Base.{String, ◌≡◌, refl, ◌∙◌, ◌⊎◌, inl, inr, List, [], Bool-cases, arith}
use investments.Base.Names.{strings, get_or, get_or-insert}
use investments.Base.Decimal.{Decimal, nought, ◌≼◌}
use investments.TaxStatement.WashSale.Data.{Calendar, Disposal, Reintegration, InstrumentState}
use investments.TaxStatement.WashSale.Engine.{
  no_state, own_loss_of, consume_lots, retain_blocked, has_nothing, no_outcome, process_state,
  process,
}
use investments.TaxStatement.WashSale.Deferral.{IsBounded, defer-IsBounded}
use investments.TaxStatement.WashSale.Shares.{own_loss_of_nonneg}

module _ {D : Type 0} ⦃d : Decimal D⦄ where
  -- The state after the releases of a disposal.
  abbrev pub released_state : InstrumentState D → Disposal D → InstrumentState D
  released_state state disposal =
      let consumed = consume_lots state disposal.consumed [] nought in
      record (consumed.0) { blocked = retain_blocked consumed.0.blocked }

  abbrev pub released_by : InstrumentState D → Disposal D → List (Reintegration D)
  released_by state disposal = (consume_lots state disposal.consumed [] nought).1

  no_outcome-IsBounded : (own_loss : D) → nought ≼ own_loss → IsBounded own_loss no_outcome
  unfolding no_outcome
  no_outcome-IsBounded own_loss nonneg = (omega arith, nonneg, omega arith, tt)

  process_state-IsBounded :
      (calendar : Calendar) (state : InstrumentState D) (disposal : Disposal D)
      → IsBounded (own_loss_of disposal.fiscal_result) (process_state calendar state disposal).1
  unfolding process_state
  process_state-IsBounded calendar state disposal =
      let consumed = consume_lots state disposal.consumed [] nought in
      let own_loss = own_loss_of disposal.fiscal_result in
      let nonneg = own_loss_of_nonneg disposal.fiscal_result in
      elim (Bool-cases (has_nothing own_loss consumed.1)) [
        | inl e ↦ rw e (no_outcome-IsBounded own_loss nonneg)
        | inr e ↦ rw e (
            defer-IsBounded calendar (released_state state disposal) disposal own_loss consumed.1
              consumed.2 nonneg)
      ]

  -- Of every disposal: the loss that it defers is not negative and at most its own loss, the loss
  -- that only the window of a year would defer is not negative, and every reintegrated amount is
  -- positive. The states of the other instruments stay as they are.
  pub process-IsBounded :
      (calendar : Calendar) (instruments : List (String × InstrumentState D))
      (disposal : Disposal D)
      → IsBounded (own_loss_of disposal.fiscal_result) (process calendar instruments disposal).1
        × ((other : String)
            → (disposal.key ≡ other)
              ⊎ (get_or no_state (process calendar instruments disposal).0 other
                  ≡ get_or no_state instruments other))
  unfolding process
  process-IsBounded calendar instruments disposal =
      let state = get_or no_state instruments disposal.key in
      let result = process_state calendar state disposal in
      (
        process_state-IsBounded calendar state disposal,
        λ other. elim (Bool-cases (strings.same disposal.key other)) [
          | inl e ↦ inl ((strings.same_iff disposal.key other).0 e)
          | inr e ↦ inr (get_or-insert no_state instruments disposal.key other result.0 ∙ rw e refl)
        ],
      )
