-- ===== src/TaxStatement/Germany/Statement/Groups.antt =====
-- What each entry of a fund adds to the groups of the form KAP-INV.
use investments.Base.{◌≡◌, refl, Bool-cases, inl, inr, arith}
use investments.Base.Decimal.{Decimal, nought, negate, ◌⊕◌, ◌⊖◌, ◌≼◌, ◌≈◌, led, nought_parts}
use investments.Taxes.Germany.Teilfreistellung.{
  TeilfreistellungRate, no_exemption, equity, mixed, bond,
}
use investments.TaxStatement.Germany.Entries.{Entries}
use investments.TaxStatement.Germany.Kap.{KapInv, KapInvGroup, no_group, in_group, add_sale}
use investments.Base.Totals.{total}

module _ {D : Type 0} ⦃d : Decimal D⦄ where
  -- The group of the form for a class of funds.
  unfoldable pub group_of : TeilfreistellungRate → KapInv D → KapInvGroup D
  unfolding no_group
  group_of equity g = g.kap_inv_equity
  group_of mixed g = g.kap_inv_mixed
  group_of bond g = g.kap_inv_other
  group_of no_exemption g = no_group

  -- An amount of a fund of the one class, counted for the other.
  unfoldable pub counted : TeilfreistellungRate → TeilfreistellungRate → D → D
  counted equity equity x = x
  counted equity mixed x = nought
  counted equity bond x = nought
  counted equity no_exemption x = nought
  counted mixed equity x = nought
  counted mixed mixed x = x
  counted mixed bond x = nought
  counted mixed no_exemption x = nought
  counted bond equity x = nought
  counted bond mixed x = nought
  counted bond bond x = x
  counted bond no_exemption x = nought
  counted no_exemption equity x = nought
  counted no_exemption mixed x = nought
  counted no_exemption bond x = nought
  counted no_exemption no_exemption x = nought

  abbrev pub results : KapInvGroup D → D
  results group = group.sale_gains ⊖ group.sale_losses

  abbrev pub no_groups : KapInv D
  no_groups = record {
    kap_inv_equity = no_group;
    kap_inv_mixed = no_group;
    kap_inv_other = no_group;
  }

  pub still_adds : (x : D) → x ≈ x ⊕ nought
  still_adds x = omega (arith, nought_parts d, d.add_parts x nought)

  -- A change that adds to a value of its group adds it for the class of the fund and no other.
  pub in_group_adds :
      (class fund : TeilfreistellungRate) (value : KapInvGroup D → D) (x : D)
      (change : KapInvGroup D → KapInvGroup D)
      (adds : (group : KapInvGroup D) → value (change group) ≈ value group ⊕ x) (g : KapInv D)
      → value (group_of class (in_group g fund change))
        ≈ value (group_of class g) ⊕ counted class fund x
  unfolding group_of in_group counted
  in_group_adds equity equity value x change adds g = adds g.kap_inv_equity
  in_group_adds equity mixed value x change adds g = still_adds (value g.kap_inv_equity)
  in_group_adds equity bond value x change adds g = still_adds (value g.kap_inv_equity)
  in_group_adds equity no_exemption value x change adds g = still_adds (value g.kap_inv_equity)
  in_group_adds mixed equity value x change adds g = still_adds (value g.kap_inv_mixed)
  in_group_adds mixed mixed value x change adds g = adds g.kap_inv_mixed
  in_group_adds mixed bond value x change adds g = still_adds (value g.kap_inv_mixed)
  in_group_adds mixed no_exemption value x change adds g = still_adds (value g.kap_inv_mixed)
  in_group_adds bond equity value x change adds g = still_adds (value g.kap_inv_other)
  in_group_adds bond mixed value x change adds g = still_adds (value g.kap_inv_other)
  in_group_adds bond bond value x change adds g = adds g.kap_inv_other
  in_group_adds bond no_exemption value x change adds g = still_adds (value g.kap_inv_other)
  in_group_adds no_exemption equity value x change adds g = still_adds (value no_group)
  in_group_adds no_exemption mixed value x change adds g = still_adds (value no_group)
  in_group_adds no_exemption bond value x change adds g = still_adds (value no_group)
  in_group_adds no_exemption no_exemption value x change adds g = still_adds (value no_group)

  pub add_sale_adds :
      (x : D) (group : KapInvGroup D) → results (add_sale x group) ≈ results group ⊕ x
  unfolding add_sale
  add_sale_adds x group =
      let a = group.sale_gains in
      let b = group.sale_losses in
      let off = d.add_parts (a ⊖ b) x in
      elim (Bool-cases (led nought x)) [
        | inl e ↦ rw e (omega (arith, off, d.add_parts a x, d.sub_parts a b, d.sub_parts (a ⊕ x) b))
        | inr e ↦ rw e (
            omega (
              arith,
              off,
              d.neg_parts x,
              d.add_parts b (negate x),
              d.sub_parts a b,
              d.sub_parts a (b ⊕ negate x),
            ))
      ]

  pub add_sale_keeps :
      (x : D) (group : KapInvGroup D) → (add_sale x group).distributions ≡ group.distributions
  unfolding add_sale
  add_sale_keeps x group = elim (Bool-cases (led nought x)) [
    | inl e ↦ rw e refl
    | inr e ↦ rw e refl
  ]

  -- What the disposals and the dividends of the funds of a class come to.
  unfoldable pub sold : TeilfreistellungRate → Entries D → D
  sold class entries =
      total (λ e. counted class e.teilfreistellung_rate e.taxable_before_exemption)
        entries.capital_gains

  unfoldable pub distributed : TeilfreistellungRate → Entries D → D
  distributed class entries =
      total (λ e. counted class e.teilfreistellung_rate e.gross_amount_eur) entries.dividends

  -- What a change preserves holds of every group after it.
  pub in_group_holds :
      (class fund : TeilfreistellungRate) (P : KapInvGroup D → Type 0)
      (change : KapInvGroup D → KapInvGroup D)
      (kept : (group : KapInvGroup D) → P group → P (change group)) (g : KapInv D)
      → P (group_of class g)
      → P (group_of class (in_group g fund change))
  unfolding group_of in_group
  in_group_holds equity equity P change kept g p = kept g.kap_inv_equity p
  in_group_holds equity mixed P change kept g p = p
  in_group_holds equity bond P change kept g p = p
  in_group_holds equity no_exemption P change kept g p = p
  in_group_holds mixed equity P change kept g p = p
  in_group_holds mixed mixed P change kept g p = kept g.kap_inv_mixed p
  in_group_holds mixed bond P change kept g p = p
  in_group_holds mixed no_exemption P change kept g p = p
  in_group_holds bond equity P change kept g p = p
  in_group_holds bond mixed P change kept g p = p
  in_group_holds bond bond P change kept g p = kept g.kap_inv_other p
  in_group_holds bond no_exemption P change kept g p = p
  in_group_holds no_exemption equity P change kept g p = p
  in_group_holds no_exemption mixed P change kept g p = p
  in_group_holds no_exemption bond P change kept g p = p
  in_group_holds no_exemption no_exemption P change kept g p = p

  abbrev pub NoneNegative : KapInvGroup D → Type 0
  NoneNegative group = (nought ≼ group.sale_gains) × (nought ≼ group.sale_losses)

  pub add_sale_nonneg :
      (x : D) (group : KapInvGroup D) → NoneNegative group → NoneNegative (add_sale x group)
  unfolding add_sale
  add_sale_nonneg x group (a, b) =
      let z = nought_parts d in
      elim (Bool-cases (led nought x)) [
        | inl e ↦ rw e (ground (arith, z, a, e, d.add_parts group.sale_gains x), b)
        | inr e ↦
            rw e
              (a, ground (arith, z, b, e, d.neg_parts x, d.add_parts group.sale_losses (negate x)))
      ]
