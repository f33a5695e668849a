-- ===== src/TaxStatement/WashSale/Engine.antt =====
-- `WashSaleEngine`: the state of each instrument, and the replay of one disposal. The map of the
-- instruments is the list of its entries.
use investments.Base.{
  String, Bool, false, ◌&&◌, ◌||◌, List, [], ◌∷◌, ◌++◌, map, Option, none, some, if◌then◌else◌,
}
use investments.Base.Int.{ℤ}
use investments.Base.Names.{strings, get_or, insert}
use investments.Base.YearMap
use investments.Base.Decimal.{
  Decimal, nought, negate, ◌⊕◌, ◌⊖◌, ◌⊗◌, ◌⊘◌, min, ltd, led, is_zero, sum_from,
}
use investments.TaxStatement.WashSale.Data.{
  Calendar, BlockedLot, Acquisition, Disposal, Reintegration, DisposalOutcome, AcquisitionBucket,
  InstrumentState,
}
use investments.TaxStatement.WashSale.Release.{Released, release}
use investments.TaxStatement.WashSale.Matching.{window, wider_window, match_window}
use investments.TaxStatement.WashSale.Boundaries.{review_boundaries}

module _ {D : Type 0} ⦃d : Decimal D⦄ where
  -- The values that `or_default` puts in.
  unfoldable pub no_bucket : AcquisitionBucket D
  no_bucket = record { quantity = nought; consumed = nought }

  unfoldable pub no_state : InstrumentState D
  no_state = record { acquisitions = []; blocked = [] }

  unfoldable pub register_acquisition :
      List (String × InstrumentState D) → Acquisition D → List (String × InstrumentState D)
  unfolding no_bucket no_state
  register_acquisition instruments acquisition =
      let state = get_or no_state instruments acquisition.key in
      let bucket = YearMap.get_or state.acquisitions acquisition.date no_bucket in
      insert instruments acquisition.key (record state {
        acquisitions =
            YearMap.insert acquisition.date
              (record bucket { quantity = bucket.quantity ⊕ acquisition.quantity })
              state.acquisitions;
      })

  unfoldable pub register_opening :
      List (String × InstrumentState D) → String × BlockedLot D → List (String × InstrumentState D)
  unfolding no_state
  register_opening instruments (key, lot) =
      let state = get_or no_state instruments key in
      insert instruments key (record state { blocked = state.blocked ++ (lot ∷ []) })

  unfoldable pub register_acquisitions :
      List (String × InstrumentState D) → List (Acquisition D) → List (String × InstrumentState D)
  unfolding register_acquisition
  register_acquisitions instruments [] = instruments
  register_acquisitions instruments (acquisition ∷ acquisitions) =
      register_acquisitions (register_acquisition instruments acquisition) acquisitions

  unfoldable pub register_openings :
      List (String × InstrumentState D)
      → List (String × BlockedLot D)
      → List (String × InstrumentState D)
  unfolding register_opening
  register_openings instruments [] = instruments
  register_openings instruments (lot ∷ opening) =
      register_openings (register_opening instruments lot) opening

  -- `WashSaleEngine::new`.
  unfoldable pub new_engine :
      List (Acquisition D) → List (String × BlockedLot D) → List (String × InstrumentState D)
  unfolding register_acquisitions register_openings
  new_engine acquisitions opening =
      register_openings (register_acquisitions [] acquisitions) opening

  unfoldable pub own_loss_of : Option D → D
  own_loss_of none = nought
  own_loss_of (some result) = if ltd result nought then negate result else nought

  -- One consumed lot: its bucket, and the deferrals that it releases.
  unfoldable pub consume_lot :
      InstrumentState D → ℤ × D → List (Reintegration D) → InstrumentState D × Released D
  unfolding no_bucket release
  consume_lot state (lot_date, quantity) released =
      let bucket = YearMap.get_or state.acquisitions lot_date no_bucket in
      let result = release state.blocked lot_date quantity released in
      (
        record {
          acquisitions =
              YearMap.insert lot_date (record bucket { consumed = bucket.consumed ⊕ quantity })
                state.acquisitions;
          blocked = result.0;
        },
        result.1,
      )

  -- The loop over the consumed lots: the state, the releases, and the blocked shares consumed.
  unfoldable pub consume_lots :
      InstrumentState D
      → List (ℤ × D)
      → List (Reintegration D)
      → D
      → InstrumentState D × List (Reintegration D) × D
  unfolding consume_lot
  consume_lots state [] released blocked_consumed = (state, released, blocked_consumed)
  consume_lots state (lot ∷ consumed) released blocked_consumed =
      let step = consume_lot state lot released in
      consume_lots step.0 consumed step.1.reintegrations (blocked_consumed ⊕ step.1.consumed)

  unfoldable pub retain_blocked : List (BlockedLot D) → List (BlockedLot D)
  retain_blocked [] = []
  retain_blocked (lot ∷ lots) =
      let rest = retain_blocked lots in if ltd nought lot.blocked_quantity then lot ∷ rest else rest

  -- What is released becomes integrable, but for the fraction that is attached again.
  unfoldable pub split_released :
      D
      → List (Reintegration D)
      → List (Reintegration D) × List (ℤ × D)
      → List (Reintegration D) × List (ℤ × D)
  split_released fraction [] (reintegrations, placements) = (reintegrations, placements)
  split_released fraction (reintegration ∷ released) (reintegrations, placements) =
      let re_attached = reintegration.amount ⊗ fraction in
      let integrable = reintegration.amount ⊖ re_attached in
      split_released fraction released (
        (if ltd nought integrable
            then reintegrations ++ (record reintegration { amount = integrable } ∷ [])
            else reintegrations),
        (if ltd nought re_attached
            then placements ++ ((reintegration.origin_sale_date, re_attached) ∷ [])
            else placements),
      )

  -- The loop of `block` over the placements, for the shares matched on one date.
  unfoldable pub lots_on : D → D → ℤ × D → List (ℤ × D) → List (BlockedLot D)
  lots_on matched_total total (date, quantity) [] = []
  lots_on matched_total total (date, quantity) ((origin_sale_date, amount) ∷ placements) =
      let blocked_quantity = quantity ⊗ amount ⊘ total in
      let deferred_loss = amount ⊗ quantity ⊘ matched_total in
      let rest = lots_on matched_total total (date, quantity) placements in
      if led blocked_quantity nought && led deferred_loss nought
      then rest
      else record {
        buy_date = date;
        blocked_quantity = blocked_quantity;
        deferred_loss = deferred_loss;
        origin_sale_date = origin_sale_date;
      }
        ∷ rest

  unfoldable pub lots_of_matches : D → D → List (ℤ × D) → List (ℤ × D) → List (BlockedLot D)
  unfolding lots_on
  lots_of_matches matched_total total [] placements = []
  lots_of_matches matched_total total (match ∷ matched) placements =
      lots_on matched_total total match placements
      ++ lots_of_matches matched_total total matched placements

  unfoldable pub block : InstrumentState D → List (ℤ × D) → D → List (ℤ × D) → InstrumentState D
  unfolding lots_of_matches
  block state matched matched_total placements =
      let total = sum_from nought (map (λ (p : ℤ × D). p.1) placements) in
      if led matched_total nought || led total nought then state else record state {
        blocked = state.blocked ++ lots_of_matches matched_total total matched placements;
      }

  -- `a / b`, or zero where the divisor is not positive.
  abbrev pub share_of : D → D → D
  share_of a b = if ltd nought b then a ⊘ b else nought

  unfoldable pub own_placement : ℤ → D → List (ℤ × D)
  own_placement date deferred_loss =
      if ltd nought deferred_loss then (date, deferred_loss) ∷ [] else []

  -- The second half of `process`: the deferral, after the releases.
  unfoldable pub defer :
      Calendar
      → InstrumentState D
      → Disposal D
      → D
      → List (Reintegration D)
      → D
      → InstrumentState D × DisposalOutcome D
  unfolding match_window window wider_window review_boundaries own_placement split_released block
  defer calendar state disposal own_loss released blocked_consumed =
      let matches = match_window state disposal (window calendar disposal.date) in
      let matched_total = matches.1 in
      let blocked_fraction = share_of matched_total disposal.quantity in
      let is_tested = ltd nought own_loss && ltd nought disposal.quantity in
      let wider_total = (match_window state disposal (wider_window calendar disposal.date)).1 in
      let release_fraction = share_of (min matched_total blocked_consumed) blocked_consumed in
      let deferred_loss = own_loss ⊗ blocked_fraction in
      let split =
        split_released release_fraction released ([], own_placement disposal.date deferred_loss) in
      (
        block state matches.0 matched_total split.1,
        record {
          deferred_loss = deferred_loss;
          reintegrations = split.0;
          wider_window_loss =
              if is_tested
              then own_loss ⊗ (wider_total ⊖ matched_total) ⊘ disposal.quantity
              else nought;
          boundary_reviews =
              if is_tested
              then review_boundaries calendar state disposal own_loss matched_total
              else [];
        },
      )

  unfoldable pub has_nothing : D → List (Reintegration D) → Bool
  has_nothing own_loss [] = is_zero own_loss
  has_nothing own_loss (_ ∷ _) = false

  unfoldable pub no_outcome : DisposalOutcome D
  no_outcome = record {
    deferred_loss = nought;
    reintegrations = [];
    wider_window_loss = nought;
    boundary_reviews = [];
  }

  -- `process`, on the state of the instrument that is disposed of.
  unfoldable pub process_state :
      Calendar → InstrumentState D → Disposal D → InstrumentState D × DisposalOutcome D
  unfolding consume_lots retain_blocked own_loss_of has_nothing no_outcome defer
  process_state calendar state disposal =
      let consumed = consume_lots state disposal.consumed [] nought in
      let state' = record (consumed.0) { blocked = retain_blocked consumed.0.blocked } in
      let own_loss = own_loss_of disposal.fiscal_result in
      if has_nothing own_loss consumed.1
      then (state', no_outcome)
      else defer calendar state' disposal own_loss consumed.1 consumed.2

  unfoldable pub process :
      Calendar
      → List (String × InstrumentState D)
      → Disposal D
      → List (String × InstrumentState D) × DisposalOutcome D
  unfolding no_state process_state
  process calendar instruments disposal =
      let result = process_state calendar (get_or no_state instruments disposal.key) disposal in
      (insert instruments disposal.key result.0, result.1)
