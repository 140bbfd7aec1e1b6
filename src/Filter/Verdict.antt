-- ===== src/Filter/Verdict.antt =====
-- The verdicts of filtr_packets.c: `check_categories_and_trust_level`, `main_filtring_by_domain` and
-- `main_filtring_by_ip`, under arrays of the declared sizes.
use grpc_server.Base.{
  ℕ, ◌≡◌, ◌↔◌, refl, ◌⊎◌, inl, inr, Bool, true, false, Option, none, some, Bytes, c_str,
  strcmp_eq_iff, starts_nul, ℤ, pos, ◌<ℤ◌, length, get_elem?, arith, not, sym, ◌∙◌, [], ◌∷◌,
  if◌then◌else◌,
}
use grpc_server.Filter.{
  RequestedClassification, BasePolicy, InfoOfPakage, max_categories, unknown_category, first_row,
  is_unknown, check_categories, check_trust_level, check_categories_with_lvl,
  check_categories_and_trust_level, check_domain_is_block, check_domain_is_allow, check_ip_is_block,
  check_ip_is_allow, main_filtring_by_domain, main_filtring_by_ip,
}
use grpc_server.Filter.Rows.{IsSized, DomainListed, IpListed, check_domain_iff, check_ip_iff}
use grpc_server.Filter.Categories.{
  CommonRow, LvlLocks, check_categories_iff, check_categories_with_lvl_cases,
}

-- Trust level 0 and the first category "unknown".
abbrev pub Unknown : RequestedClassification → Type 0
Unknown req =
    (req.get_trust_level ≡ pos 0) × (c_str (first_row req.get_categories) ≡ c_str unknown_category)

-- A common category row, a trust level below the minimum, or a row of the level table that locks.
abbrev pub Stopped : RequestedClassification → BasePolicy → Type 0
Stopped req p =
    CommonRow req.get_categories p.locked_categories
    ⊎ (req.get_trust_level <ℤ p.min_trust_level)
    ⊎ LvlLocks max_categories req p.categories_with_lvl

is_unknown_iff : (req : RequestedClassification) → (is_unknown req ≡ true) ↔ Unknown req
unfolding is_unknown
is_unknown_iff req = (
  λ h. ground (arith, strcmp_eq_iff (first_row req.get_categories) unknown_category),
  λ h. ground (arith, strcmp_eq_iff (first_row req.get_categories) unknown_category),
)

check_trust_level_iff : (a b : ℤ) → (check_trust_level a b ≡ false) ↔ (a <ℤ b)
unfolding check_trust_level
check_trust_level_iff a b = (λ h. ground arith, λ h. ground arith)

-- What the classification decides, with the reason.
abbrev pub ClassCases : Option Bool → RequestedClassification → BasePolicy → Type 0
ClassCases r req p =
    ((r ≡ some true) × Unknown req)
    ⊎ ((r ≡ some false) × (¬ Unknown req) × Stopped req p)
    ⊎ ((r ≡ none) × (¬ Unknown req) × (¬ Stopped req p))

-- What a filter decides, with the reason, where `Blocked` and `Allowed` are its two lists.
abbrev pub VerdictCases :
    Option Bool → Type 0 → Type 0 → RequestedClassification → BasePolicy → Type 0
VerdictCases r Blocked Allowed req p =
    ((r ≡ some false) × Blocked)
    ⊎ ((r ≡ some true) × (¬ Blocked) × Allowed)
    ⊎ ((¬ Blocked) × (¬ Allowed) × ClassCases r req p)

-- the ladder of the classification test, over any four conditions
module _ {U C T L : Type 0} (l : Option Bool)
    (l_cases : ((l ≡ some false) × L) ⊎ ((l ≡ none) × (¬ L))) where
  ladder :
      (u c t : Bool)
      → (u ≡ true) ↔ U
      → (c ≡ false) ↔ C
      → (t ≡ false) ↔ T
      → let r : Option Bool =
          if u then some true else if not c then some false else if not t then some false else l in
        ((r ≡ some true) × U)
        ⊎ ((r ≡ some false) × (¬ U) × (C ⊎ T ⊎ L))
        ⊎ ((r ≡ none) × (¬ U) × (¬ (C ⊎ T ⊎ L)))
  ladder true c t hu hc ht = inl (refl, hu.0 refl)
  ladder false false t hu hc ht = inr (inl (refl, λ x. cc (hu.1 x), inl (hc.0 refl)))
  ladder false true false hu hc ht = inr (inl (refl, λ x. cc (hu.1 x), inr (inl (ht.0 refl))))
  ladder false true true hu hc ht = elim l_cases [
    | inl (e, x) ↦ inr (inl (e, λ y. cc (hu.1 y), inr (inr x)))
    | inr (e, no_l) ↦ inr (
        inr (
          e,
          λ y. cc (hu.1 y),
          elim [ inl x ↦ cc (hc.1 x) | inr (inl x) ↦ cc (ht.1 x) | inr (inr x) ↦ no_l x ],
        ))
  ]

-- the ladder of the two filters
verdict_ladder :
    {B A : Type 0} (req : RequestedClassification) (p : BasePolicy) (b a : Bool) (r : Option Bool)
    → (b ≡ true) ↔ B
    → (a ≡ true) ↔ A
    → ClassCases r req p
    → VerdictCases (if b then some false else if a then some true else r) B A req p
verdict_ladder req p true a r hb ha h = inl (refl, hb.0 refl)
verdict_ladder req p false true r hb ha h = inr (inl (refl, λ x. cc (hb.1 x), ha.0 refl))
verdict_ladder req p false false r hb ha h = inr (inr (λ x. cc (hb.1 x), λ x. cc (ha.1 x), h))

module _ (req : RequestedClassification) (sized_req : length req.get_categories ≡ max_categories)
    (p : BasePolicy) (sized : IsSized p) where
  declared_table :
      ((check_categories_with_lvl req p.categories_with_lvl ≡ some false)
        × LvlLocks max_categories req p.categories_with_lvl)
      ⊎ ((check_categories_with_lvl req p.categories_with_lvl ≡ none)
          × (¬ LvlLocks max_categories req p.categories_with_lvl))
  declared_table =
      rw sized.categories_with_lvl at
        (check_categories_with_lvl_cases req sized_req p.categories_with_lvl)

  -- With arrays of the declared sizes, the classification test sends exactly an unknown site,
  -- drops exactly what is not unknown and has a locked category, a trust level below the minimum
  -- or a locking row of the level table, and otherwise reads outside the level table.
  check_categories_and_trust_level_cases : ClassCases (check_categories_and_trust_level req p) req p
  unfolding check_categories_and_trust_level
  check_categories_and_trust_level_cases =
      ladder (check_categories_with_lvl req p.categories_with_lvl) declared_table (is_unknown req)
        (check_categories req.get_categories p.locked_categories)
        (check_trust_level req.get_trust_level p.min_trust_level) (is_unknown_iff req)
        (check_categories_iff req.get_categories p.locked_categories sized_req
          sized.locked_categories)
        (check_trust_level_iff req.get_trust_level p.min_trust_level)

  module _ (info : InfoOfPakage) where
    -- With arrays of the declared sizes, the domain filter drops a blocked domain, sends one that
    -- is not blocked and allowed. Any other is sent if its category is unknown, dropped exactly for a
    -- locked category, a trust level below the minimum or a locking row of the level table, and
    -- otherwise the level table is read outside its end.
    pub main_filtring_by_domain_cases :
        VerdictCases
          (main_filtring_by_domain req p info)
          (DomainListed info.domain p.block_domains)
          (DomainListed info.domain p.allow_domains)
          req
          p
    unfolding main_filtring_by_domain
    main_filtring_by_domain_cases =
        verdict_ladder req p (check_domain_is_block info.domain p.block_domains)
          (check_domain_is_allow info.domain p.allow_domains)
          (check_categories_and_trust_level req p) (check_domain_iff info p sized).0
          (check_domain_iff info p sized).1 check_categories_and_trust_level_cases

    -- With arrays of the declared sizes, the address filter drops a blocked destination, sends one
    -- that is not blocked and allowed. Any other is sent if its category is unknown, dropped exactly for
    -- a locked category, a trust level below the minimum or a locking row of the level table, and
    -- otherwise the level table is read outside its end.
    pub main_filtring_by_ip_cases :
        VerdictCases
          (main_filtring_by_ip req p info)
          (IpListed info p.block_ip4 p.block_ip6)
          (IpListed info p.allow_ip4 p.allow_ip6)
          req
          p
    unfolding main_filtring_by_ip
    main_filtring_by_ip_cases =
        verdict_ladder req p (check_ip_is_block info p) (check_ip_is_allow info p)
          (check_categories_and_trust_level req p) (check_ip_iff info p sized).0
          (check_ip_iff info p sized).1 check_categories_and_trust_level_cases

drop_of_cases :
    {B A : Type 0} (req : RequestedClassification) (p : BasePolicy) (r : Option Bool)
    → VerdictCases r B A req p
    → ¬ A
    → ¬ Unknown req
    → Stopped req p
    → r ≡ some false
drop_of_cases req p r (inl (e, b)) no_a known stop = e
drop_of_cases req p r (inr (inl (e, no_b, a))) no_a known stop = absurd (no_a a)
drop_of_cases req p r (inr (inr (no_b, no_a', inl (e, u)))) no_a known stop = absurd (known u)
drop_of_cases req p r (inr (inr (no_b, no_a', inr (inl (e, k, s))))) no_a known stop = e
drop_of_cases req p r (inr (inr (no_b, no_a', inr (inr (e, k, s))))) no_a known stop =
    absurd (s stop)

c_str-starts_nul : (b : Bytes) → starts_nul b ≡ true → c_str b ≡ []
unfolding c_str starts_nul
c_str-starts_nul [] h = refl
c_str-starts_nul (b ∷ bs) h = rw h

-- A category row of the classification and a row of the locked categories that are both empty
-- are a common row: a site that is not unknown and on neither list is dropped by both filters.
empty_rows_drop :
    (req : RequestedClassification) (p : BasePolicy) (info : InfoOfPakage) (i j : ℕ) (g row : Bytes)
    → length req.get_categories ≡ max_categories
    → IsSized p
    → get_elem? req.get_categories i ≡ some g
    → get_elem? p.locked_categories j ≡ some row
    → starts_nul g ≡ true
    → starts_nul row ≡ true
    → ¬ Unknown req
    → ¬ DomainListed info.domain p.allow_domains
    → ¬ IpListed info p.allow_ip4 p.allow_ip6
    → (main_filtring_by_domain req p info ≡ some false)
      × (main_filtring_by_ip req p info ≡ some false)
empty_rows_drop req p info i j g row sized_req sized at_i at_j eg er known no_d no_ip =
    let same : c_str g ≡ c_str row = c_str-starts_nul g eg ∙ sym (c_str-starts_nul row er) in
    let stop : Stopped req p = inl (i, g, at_i, (j, row, at_j, same)) in
    (
      drop_of_cases req p (main_filtring_by_domain req p info)
          (main_filtring_by_domain_cases req sized_req p sized info) no_d known stop,
      drop_of_cases req p (main_filtring_by_ip req p info)
          (main_filtring_by_ip_cases req sized_req p sized info) no_ip known stop,
    )
