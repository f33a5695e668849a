-- ===== src/TaxStatement/WashSale/Placed.antt =====
-- The lots that carry placements on matched shares, beside `block`, which makes them.
use investments.Base.{
  true, false, ◌&&◌, ◌||◌, ◌≡◌, refl, ap, sym, ◌∙◌, ◌⊎◌, inl, inr, List, [], ◌∷◌, ◌++◌, map,
  if◌then◌else◌, All, All-append, Bool-cases, arith,
}
use investments.Base.Int.{ℤ}
use investments.Base.Decimal.{
  Decimal, nought, ◌⊕◌, ◌⊗◌, ◌⊘◌, ◌≼◌, ◌≺◌, ◌≈◌, ltd, led, sum_from, nought_parts,
}
use investments.TaxStatement.WashSale.Data.{BlockedLot, Reintegration, InstrumentState}
use investments.TaxStatement.WashSale.Engine.{
  own_placement, split_released, lots_on, lots_of_matches, block,
}
use investments.TaxStatement.WashSale.Buckets.{sum_of}
use investments.TaxStatement.WashSale.Shares.{integrated, attached}

module _ {D : Type 0} ⦃d : Decimal D⦄ where
  abbrev pub sum_placed : List (ℤ × D) → D
  sum_placed placements = sum_from nought (map (λ (p : ℤ × D). p.1) placements)

  -- On the shares matched on a date, the lot of one placement: the part of the shares that the
  -- placement is of all placements, and the part of its loss that the shares are of all shares.
  unfoldable pub carrier : D → D → ℤ × D → ℤ × D → BlockedLot D
  carrier matched_total total match placement = record {
    buy_date = match.0;
    blocked_quantity = match.1 ⊗ placement.1 ⊘ total;
    deferred_loss = placement.1 ⊗ match.1 ⊘ matched_total;
    origin_sale_date = placement.0;
  }

  unfoldable pub filled : List (BlockedLot D) → List (BlockedLot D)
  filled [] = []
  filled (lot ∷ lots) =
      if ltd nought lot.blocked_quantity || ltd nought lot.deferred_loss
      then lot ∷ filled lots
      else filled lots

  -- A lot for each match and each placement.
  unfoldable pub carriers : D → D → List (ℤ × D) → List (ℤ × D) → List (BlockedLot D)
  carriers matched_total total [] placements = []
  carriers matched_total total (match ∷ matched) placements =
      map (carrier matched_total total match) placements
      ++ carriers matched_total total matched placements

  -- Those of them that round to some shares or some loss.
  unfoldable pub placed_lots : List (ℤ × D) → D → List (ℤ × D) → List (BlockedLot D)
  placed_lots matched matched_total placements =
      filled (carriers matched_total (sum_placed placements) matched placements)

  filled-append :
      (lots lots' : List (BlockedLot D)) → filled (lots ++ lots') ≡ filled lots ++ filled lots'
  unfolding filled
  filled-append [] lots' = refl
  filled-append (lot ∷ lots) lots' =
      elim (Bool-cases (ltd nought lot.blocked_quantity || ltd nought lot.deferred_loss)) [
        | inl e ↦ rw e (ap (λ (l : List (BlockedLot D)). lot ∷ l) (filled-append lots lots'))
        | inr e ↦ rw e (filled-append lots lots')
      ]

  lots_on-eq-filled :
      (matched_total total : D) (match : ℤ × D) (placements : List (ℤ × D))
      → lots_on matched_total total match placements
        ≡ filled (map (carrier matched_total total match) placements)
  unfolding lots_on filled carrier
  lots_on-eq-filled matched_total total match [] = refl
  lots_on-eq-filled matched_total total match (placement ∷ placements) =
      let lot = carrier matched_total total match placement in
      let rest = lots_on-eq-filled matched_total total match placements in
      elim (Bool-cases (led lot.blocked_quantity nought && led lot.deferred_loss nought)) [
        | inl none ↦
            let e : (ltd nought lot.blocked_quantity || ltd nought lot.deferred_loss) ≡ false =
              ground (arith, none) in
            rw (none, e) rest
        | inr some ↦
            let e : (ltd nought lot.blocked_quantity || ltd nought lot.deferred_loss) ≡ true =
              ground (arith, some) in
            rw (some, e) (ap (λ (l : List (BlockedLot D)). lot ∷ l) rest)
      ]

  lots_of_matches-eq-filled :
      (matched_total total : D) (matched placements : List (ℤ × D))
      → lots_of_matches matched_total total matched placements
        ≡ filled (carriers matched_total total matched placements)
  unfolding lots_of_matches carriers filled
  lots_of_matches-eq-filled matched_total total [] placements = refl
  lots_of_matches-eq-filled matched_total total (match ∷ matched) placements =
      rw
        (
          lots_on-eq-filled matched_total total match placements,
          lots_of_matches-eq-filled matched_total total matched placements,
        )
        (sym (
          filled-append (map (carrier matched_total total match) placements)
            (carriers matched_total total matched placements)))

  abbrev pub ArePositive : List (ℤ × D) → Type 0
  ArePositive placements = All (λ (p : ℤ × D). nought ≺ p.1) placements

  sum_of_nonneg : (placements : List (ℤ × D)) → ArePositive placements → nought ≼ sum_of placements
  unfolding sum_of
  sum_of_nonneg [] _ = omega arith
  sum_of_nonneg ((date, amount) ∷ placements) (positive, all) = omega (
    arith,
    positive,
    sum_of_nonneg placements all,
    nought_parts d,
    d.add_parts amount (sum_of placements),
  )

  sum_from_least :
      (sum : D) (placements : List (ℤ × D))
      → ArePositive placements
      → sum ≼ sum_from sum (map (λ (p : ℤ × D). p.1) placements)
  sum_from_least sum [] _ = omega arith
  sum_from_least sum ((date, amount) ∷ placements) (positive, all) = omega (
    arith,
    positive,
    sum_from_least (sum ⊕ amount) placements all,
    nought_parts d,
    d.add_parts sum amount,
  )

  carriers-nothing :
      (matched_total total : D) (matched : List (ℤ × D))
      → carriers matched_total total matched [] ≡ []
  unfolding carriers
  carriers-nothing matched_total total [] = refl
  carriers-nothing matched_total total (match ∷ matched) =
      carriers-nothing matched_total total matched

  append-nothing : (lots : List (BlockedLot D)) → lots ≡ lots ++ []
  append-nothing [] = refl
  append-nothing (lot ∷ lots) = ap (λ (l : List (BlockedLot D)). lot ∷ l) (append-nothing lots)

  pub placed_lots-nothing :
      (state : InstrumentState D) (matched : List (ℤ × D)) (matched_total : D)
      → state ≡ record state { blocked = state.blocked ++ placed_lots matched matched_total [] }
  unfolding placed_lots filled
  placed_lots-nothing state matched matched_total =
      ap (λ (lots : List (BlockedLot D)). record state { blocked = lots })
        (append-nothing state.blocked
          ∙ ap (λ (lots : List (BlockedLot D)). state.blocked ++ filled lots)
              (sym (carriers-nothing matched_total nought matched)))

  -- With positive placements, none of them without matched shares, `block` adds their lots.
  pub block-eq-placed_lots :
      (state : InstrumentState D) (matched : List (ℤ × D)) (matched_total : D)
      (placements : List (ℤ × D))
      → ArePositive placements
      → (nought ≺ matched_total) ⊎ (sum_of placements ≈ nought)
      → block state matched matched_total placements
        ≡ record state { blocked = state.blocked ++ placed_lots matched matched_total placements }
  unfolding block placed_lots sum_of
  block-eq-placed_lots state matched matched_total [] _ _ =
      let same : block state matched matched_total [] ≡ state = ground arith in
      same ∙ placed_lots-nothing state matched matched_total
  block-eq-placed_lots state matched matched_total ((date, amount) ∷ placements) (positive, all)
        some =
      let total = sum_placed ((date, amount) ∷ placements) in
      let least = sum_from_least (nought ⊕ amount) placements all in
      let guard : (led matched_total nought || led total nought) ≡ false = ground (
        arith,
        some,
        positive,
        least,
        sum_of_nonneg placements all,
        nought_parts d,
        d.add_parts nought amount,
        d.add_parts amount (sum_of placements),
      ) in
      rw guard (
        ap (λ (lots : List (BlockedLot D)). record state { blocked = state.blocked ++ lots })
          (lots_of_matches-eq-filled matched_total total matched ((date, amount) ∷ placements)))

  pub own_placement-ArePositive : (date : ℤ) (loss : D) → ArePositive (own_placement date loss)
  unfolding own_placement
  own_placement-ArePositive date loss = elim (Bool-cases (ltd nought loss)) [
    | inl e ↦ rw e (ground (arith, e), tt)
    | inr e ↦ rw e tt
  ]

  attached-ArePositive :
      (placements : List (ℤ × D)) (reintegration : Reintegration D) (fraction : D)
      → ArePositive placements
      → ArePositive (attached placements reintegration fraction)
  attached-ArePositive placements reintegration fraction all =
      let re_attached = reintegration.amount ⊗ fraction in
      elim (Bool-cases (ltd nought re_attached)) [
        | inl e ↦ rw e (
            All-append (λ (p : ℤ × D). nought ≺ p.1) placements
              ((reintegration.origin_sale_date, re_attached) ∷ []) all (ground (arith, e), tt))
        | inr e ↦ rw e all
      ]

  pub split_released-ArePositive :
      (fraction : D) (released reintegrations : List (Reintegration D)) (placements : List (ℤ × D))
      → ArePositive placements
      → ArePositive (split_released fraction released (reintegrations, placements)).1
  unfolding split_released
  split_released-ArePositive fraction [] reintegrations placements all = all
  split_released-ArePositive fraction (reintegration ∷ released) reintegrations placements all =
      split_released-ArePositive fraction released
        (integrated reintegrations reintegration fraction)
        (attached placements reintegration fraction)
        (attached-ArePositive placements reintegration fraction all)
