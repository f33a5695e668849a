-- ===== src/Time/Days.antt =====
-- A period as the set of its days.
use investments.Base.{
  ◌≡◌, refl, ◌∙◌, ◌⊎◌, inl, inr, Bool, false, ◌&&◌, ◌||◌, Option, none, some, Bool-cases, arith,
}
use investments.Base.Int.{ℤ, pos, ◌+ℤ◌, ◌≤ℤ◌, ltb_ℤ, leb_ℤ, +ℤ_parts}
use investments.Time.{
  Period, next_date, contains, in_order, intersect_ordered, try_intersect, union_ordered, try_union,
}

abbrev pub IsPeriod : Period → Type 0
IsPeriod period = period.first ≤ℤ period.last

-- An intersection or none, of the days that both hold.
abbrev pub IsIntersection : Period → Period → Option Period → Type 0
IsIntersection period other result =
    ((result ≡ none) × ((date : ℤ) → (contains period date && contains other date) ≡ false))
    ⊎ ((both : Period) × (result ≡ some both)
        × IsPeriod both
        × ((date : ℤ) → contains both date ≡ (contains period date && contains other date)))

-- A union, or none and a day after the one and before the other.
abbrev pub IsUnion : Period → Period → Option Period → Type 0
IsUnion period other result =
    ((result ≡ none)
      × ((date : ℤ) × (contains period date ≡ false)
          × (contains other date ≡ false)
          × (((period.last ≤ℤ date) × (date ≤ℤ other.first))
              ⊎ ((other.last ≤ℤ date) × (date ≤ℤ period.first)))))
    ⊎ ((either : Period) × (result ≡ some either)
        × IsPeriod either
        × ((date : ℤ) → contains either date ≡ (contains period date || contains other date)))

intersect_ordered-IsIntersection :
    (earlier later : Period)
    → IsPeriod earlier
    → IsPeriod later
    → earlier.first ≤ℤ later.first
    → IsIntersection earlier later (intersect_ordered (earlier, later))
unfolding intersect_ordered contains
intersect_ordered-IsIntersection earlier later sound sound' order =
    elim (Bool-cases (ltb_ℤ earlier.last later.first)) [
      | inl e ↦ rw e (inl (refl, λ date. ground (arith, e, order)))
      | inr e ↦
          rw e (inr (_, refl, ground (arith, e, sound, sound'), λ date. ground (arith, e, order)))
    ]

union_ordered-IsUnion :
    (earlier later : Period)
    → IsPeriod earlier
    → IsPeriod later
    → earlier.first ≤ℤ later.first
    → IsUnion earlier later (union_ordered (earlier, later))
unfolding union_ordered contains next_date
union_ordered-IsUnion earlier later sound sound' order =
    let next = +ℤ_parts earlier.last (pos 1) in
    elim (Bool-cases (ltb_ℤ (earlier.last +ℤ pos 1) later.first)) [
      | inl e ↦ rw e (
          inl (
            refl,
            (
              earlier.last +ℤ pos 1,
              ground (arith, next),
              ground (arith, e),
              inl (ground (arith, next), ground (arith, e)),
            ),
          ))
      | inr e ↦ rw e (
          inr (
            _,
            refl,
            ground (arith, sound, sound', order),
            λ date. ground (arith, e, next, order, sound, sound'),
          ))
    ]

both_comm : (a b : Bool) → (a && b) ≡ (b && a)
both_comm a b = ground arith

either_comm : (a b : Bool) → (a || b) ≡ (b || a)
either_comm a b = ground arith

-- For two periods that end on the day on which they start or later, in either order: the
-- intersection is a period of exactly the days that both hold, and it is none only if there is no
-- such day.
pub try_intersect-IsIntersection :
    (period other : Period)
    → IsPeriod period
    → IsPeriod other
    → IsIntersection period other (try_intersect period other)
unfolding try_intersect in_order
try_intersect-IsIntersection period other sound sound' =
    elim (Bool-cases (leb_ℤ period.first other.first)) [
      | inl e ↦
          rw e (intersect_ordered-IsIntersection period other sound sound' (ground (arith, e)))
      | inr e ↦
          rw e
            (elim (intersect_ordered-IsIntersection other period sound' sound (ground (arith, e))) [
              | inl (missed, apart) ↦ inl (
                missed,
                λ date. both_comm (contains period date) (contains other date) ∙ apart date,
              )
              | inr (both, found, valid, same) ↦ inr (
                both,
                found,
                valid,
                λ date. same date ∙ both_comm (contains other date) (contains period date),
              )
            ])
    ]

-- For two periods that end on the day on which they start or later, in either order: the union is
-- a period of exactly the days that one of them holds, and it is none only if some day between the
-- two is in neither.
pub try_union-IsUnion :
    (period other : Period)
    → IsPeriod period
    → IsPeriod other
    → IsUnion period other (try_union period other)
unfolding try_union in_order
try_union-IsUnion period other sound sound' = elim (Bool-cases (leb_ℤ period.first other.first)) [
  | inl e ↦ rw e (union_ordered-IsUnion period other sound sound' (ground (arith, e)))
  | inr e ↦ rw e (elim (union_ordered-IsUnion other period sound' sound (ground (arith, e))) [
    | inl (missed, (date, out', out, between)) ↦ inl (
      missed,
      (date, out, out', elim between [ inl after ↦ inr after | inr before ↦ inl before ]),
    )
    | inr (either, found, valid, same) ↦ inr (
      either,
      found,
      valid,
      λ date. same date ∙ either_comm (contains other date) (contains period date),
    )
  ])
]
