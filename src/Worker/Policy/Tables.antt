-- ===== src/Worker/Policy/Tables.antt =====
-- The tables that a policy message fills, by their contents.
use grpc_server.Base.{
  ℕ, suc, ◌≡◌, ◌∙◌, refl, sym, ap, Bool, true, false, ◌&&◌, none, some, List, [], ◌∷◌, map, Bytes,
  ℤ, length, leb, Bool-cases, Option-cases, inl, inr, if◌then◌else◌, arith,
}
use grpc_server.Base.Run.{Run, done, fault, ◌>>=◌}
use grpc_server.Filter.{BasePolicy, TrustCategoriesWithLvl, max_categories, max_domains}
use grpc_server.Filter.Rows.{IsSized}
use grpc_server.Worker.Policy.{
  AddrParser, PolicyMessage, text_row, copy_texts, copy_levels, copy_ips, zero_policy, fill_policy,
  install_policy,
}

module _ {ℓ} {A : Type ℓ} where
  -- the first rows replaced by those of another list, as far as there are rows
  abbrev pub overlay : List A → List A → List A
  overlay [] new = []
  overlay (r ∷ rows) [] = r ∷ rows
  overlay (r ∷ rows) (n ∷ new) = n ∷ overlay rows new

  overlay-nil : (rows : List A) → overlay rows [] ≡ rows
  overlay-nil [] = refl
  overlay-nil (r ∷ rows) = refl

  length-overlay : (rows new : List A) → length (overlay rows new) ≡ length rows
  length-overlay [] new = refl
  length-overlay (r ∷ rows) [] = refl
  length-overlay (r ∷ rows) (n ∷ new) = ap suc (length-overlay rows new)

-- the texts that are IPv4 addresses, and those of the others that are IPv6 addresses
unfoldable pub addresses4 : AddrParser → List Bytes → List ℕ
addresses4 pton [] = []
addresses4 pton (ip_str ∷ texts) = elim (pton.inet ip_str) [
  | some ip4 ↦ ip4 ∷ addresses4 pton texts
  | none ↦ addresses4 pton texts
]

unfoldable pub addresses6 : AddrParser → List Bytes → List Bytes
addresses6 pton [] = []
addresses6 pton (ip_str ∷ texts) = elim (pton.inet ip_str) [
  | some ip4 ↦ addresses6 pton texts
  | none ↦ elim (pton.inet6 ip_str) [
    | some ip6 ↦ ip6 ∷ addresses6 pton texts
    | none ↦ addresses6 pton texts
  ]
]

abbrev pub level_of : Bytes × ℤ → TrustCategoriesWithLvl
level_of (category, min_trust) = record {
  locked_by_trust_category = text_row 63 category;
  trust_lvl = min_trust;
}

copy_texts_cases :
    (n : ℕ) (rows texts : List Bytes)
    → copy_texts n rows texts ≡ (
        if leb (length texts) (length rows)
        then done (overlay rows (map (text_row n) texts))
        else fault)
unfolding copy_texts
copy_texts_cases n rows [] = rw (overlay-nil rows) (ground arith)
copy_texts_cases n [] (text ∷ texts) = ground arith
copy_texts_cases n (row ∷ rows) (text ∷ texts) =
    elim (Bool-cases (leb (length texts) (length rows))) [
      | inl fits ↦
          let fits' : leb (suc (length texts)) (suc (length rows)) ≡ true = ground arith in
          rw (copy_texts_cases n rows texts, fits, fits') refl
      | inr long ↦
          let long' : leb (suc (length texts)) (suc (length rows)) ≡ false = ground arith in
          rw (copy_texts_cases n rows texts, long, long') refl
    ]

copy_levels-overlay :
    (rows : List TrustCategoriesWithLvl) (levels : List (Bytes × ℤ))
    → copy_levels rows levels ≡ overlay rows (map level_of levels)
unfolding copy_levels
copy_levels-overlay rows [] = sym (overlay-nil rows)
copy_levels-overlay [] (l ∷ levels) = refl
copy_levels-overlay (row ∷ rows) (l ∷ levels) =
    ap (◌∷◌ (level_of l)) (copy_levels-overlay rows levels)

-- the outcome of the loop over addresses, for any rows
abbrev Copied : AddrParser → List Bytes → Type 0
Copied pton texts =
    (rows4 : List ℕ) (rows6 : List Bytes)
    → copy_ips pton texts rows4 rows6
      ≡ (overlay rows4 (addresses4 pton texts), overlay rows6 (addresses6 pton texts))

module _ (pton : AddrParser) (texts : List Bytes) (rest : Copied pton texts) where
  copy_ip4 :
      (ip4 : ℕ) (rows4 : List ℕ) (rows6 : List Bytes)
      → (elim rows4 as (λ _. List ℕ × List Bytes) [
        | [] ↦ copy_ips pton texts [] rows6
        | _ ∷ rows4' ↦ let (t4, t6) = copy_ips pton texts rows4' rows6 in (ip4 ∷ t4, t6)
      ])
        ≡ (overlay rows4 (ip4 ∷ addresses4 pton texts), overlay rows6 (addresses6 pton texts))
  copy_ip4 ip4 [] rows6 = rest [] rows6
  copy_ip4 ip4 (r ∷ rows) rows6 = rw (rest rows rows6) refl

  copy_ip6 :
      (ip6 : Bytes) (rows4 : List ℕ) (rows6 : List Bytes)
      → (elim rows6 as (λ _. List ℕ × List Bytes) [
        | [] ↦ copy_ips pton texts rows4 []
        | _ ∷ rows6' ↦ let (t4, t6) = copy_ips pton texts rows4 rows6' in (t4, ip6 ∷ t6)
      ])
        ≡ (overlay rows4 (addresses4 pton texts), overlay rows6 (ip6 ∷ addresses6 pton texts))
  copy_ip6 ip6 rows4 [] = rest rows4 []
  copy_ip6 ip6 rows4 (r ∷ rows) = rw (rest rows4 rows) refl

copy_ips-overlay : (pton : AddrParser) (texts : List Bytes) → Copied pton texts
unfolding copy_ips addresses4 addresses6
copy_ips-overlay pton [] rows4 rows6 = rw (overlay-nil rows4, overlay-nil rows6) refl
copy_ips-overlay pton (ip_str ∷ texts) rows4 rows6 = elim (Option-cases (pton.inet ip_str)) [
  | inr (ip4, e) ↦
      rw (e, copy_ips, addresses4, addresses6)
        (copy_ip4 pton texts (copy_ips-overlay pton texts) ip4 rows4 rows6)
  | inl e ↦ elim (Option-cases (pton.inet6 ip_str)) [
    | inr (ip6, e6) ↦
        rw (e, e6, copy_ips, addresses4, addresses6)
          (copy_ip6 pton texts (copy_ips-overlay pton texts) ip6 rows4 rows6)
    | inl e6 ↦
        rw (e, e6, copy_ips, addresses4, addresses6) (copy_ips-overlay pton texts rows4 rows6)
  ]
]

-- No list of a message is longer than the table that it is copied to without a test.
unfoldable pub fits : PolicyMessage → Bool
fits pol =
    leb (length pol.block_categories) max_categories
    && (leb (length pol.block_domains) max_domains && leb (length pol.allow_domains) max_domains)

-- The policy that a message stands for: each table holds the rows of its list, and behind them
-- zeros.
abbrev pub filled : AddrParser → PolicyMessage → BasePolicy → BasePolicy
filled pton pol blank = record {
  locked_categories = overlay blank.locked_categories (map (text_row 63) pol.block_categories);
  categories_with_lvl = overlay blank.categories_with_lvl (map level_of pol.block_by_trust);
  ttl_ip = pol.ttl_ip;
  ttl_domain = pol.ttl_domain;
  block_domains = overlay blank.block_domains (map (text_row 259) pol.block_domains);
  allow_domains = overlay blank.allow_domains (map (text_row 259) pol.allow_domains);
  block_ip4 = overlay blank.block_ip4 (addresses4 pton pol.block_ips);
  allow_ip4 = overlay blank.allow_ip4 (addresses4 pton pol.allow_ips);
  block_ip6 = overlay blank.block_ip6 (addresses6 pton pol.block_ips);
  allow_ip6 = overlay blank.allow_ip6 (addresses6 pton pol.allow_ips);
  min_trust_level = pol.min_trust_level;
}

abbrev pub installed : AddrParser → PolicyMessage → BasePolicy
installed pton pol = filled pton pol zero_policy

-- three steps that may each fail
chain3 {ℓ} :
    {A B C D : Type ℓ} (x y z : Bool) (m1 : Run A) (m2 : Run B) (m3 : Run C) (a : A) (b : B) (c : C)
    (f : A → B → C → D)
    → m1 ≡ (if x then done a else fault)
    → m2 ≡ (if y then done b else fault)
    → m3 ≡ (if z then done c else fault)
    → (m1 >>= (λ a'. m2 >>= (λ b'. m3 >>= (λ c'. done (f a' b' c')))))
      ≡ (if x && (y && z) then done (f a b c) else fault)
chain3 true true true m1 m2 m3 a b c f p q r = rw (p, q, r) refl
chain3 true true false m1 m2 m3 a b c f p q r = rw (p, q, r) refl
chain3 true false z m1 m2 m3 a b c f p q r = rw (p, q) refl
chain3 false y z m1 m2 m3 a b c f p q r = rw p refl

fits_table :
    (n k : ℕ) (rows texts : List Bytes)
    → length rows ≡ k
    → copy_texts n rows texts
      ≡ (if leb (length texts) k then done (overlay rows (map (text_row n) texts)) else fault)
fits_table n k rows texts h = rw (← h) (copy_texts_cases n rows texts)

fill_policy_cases :
    (pton : AddrParser) (pol : PolicyMessage) (blank : BasePolicy)
    → IsSized blank
    → fill_policy pton pol blank ≡ (if fits pol then done (filled pton pol blank) else fault)
unfolding fill_policy fits
fill_policy_cases pton pol blank sized =
    rw
      (
        copy_levels-overlay blank.categories_with_lvl pol.block_by_trust,
        copy_ips-overlay pton pol.block_ips blank.block_ip4 blank.block_ip6,
        copy_ips-overlay pton pol.allow_ips blank.allow_ip4 blank.allow_ip6,
      )
      (chain3 _ _ _ (copy_texts 63 blank.locked_categories pol.block_categories)
        (copy_texts 259 blank.block_domains pol.block_domains)
        (copy_texts 259 blank.allow_domains pol.allow_domains) _ _ _
        (λ locked block allow. record (filled pton pol blank) {
          locked_categories = locked;
          block_domains = block;
          allow_domains = allow;
        })
        (fits_table 63 max_categories blank.locked_categories pol.block_categories
          sized.locked_categories)
        (fits_table 259 max_domains blank.block_domains pol.block_domains sized.block_domains)
        (fits_table 259 max_domains blank.allow_domains pol.allow_domains sized.allow_domains))

zero_policy-IsSized : IsSized zero_policy
unfolding zero_policy
zero_policy-IsSized = record {
  locked_categories = refl;
  categories_with_lvl = refl;
  block_domains = refl;
  allow_domains = refl;
  block_ip4 = refl;
  allow_ip4 = refl;
  block_ip6 = refl;
  allow_ip6 = refl;
}

filled-IsSized :
    (pton : AddrParser) (pol : PolicyMessage) (blank : BasePolicy)
    → IsSized blank
    → IsSized (filled pton pol blank)
filled-IsSized pton pol blank sized = record {
  locked_categories = length-overlay blank.locked_categories _ ∙ sized.locked_categories;
  categories_with_lvl = length-overlay blank.categories_with_lvl _ ∙ sized.categories_with_lvl;
  block_domains = length-overlay blank.block_domains _ ∙ sized.block_domains;
  allow_domains = length-overlay blank.allow_domains _ ∙ sized.allow_domains;
  block_ip4 = length-overlay blank.block_ip4 _ ∙ sized.block_ip4;
  allow_ip4 = length-overlay blank.allow_ip4 _ ∙ sized.allow_ip4;
  block_ip6 = length-overlay blank.block_ip6 _ ∙ sized.block_ip6;
  allow_ip6 = length-overlay blank.allow_ip6 _ ∙ sized.allow_ip6;
}

-- If the message has at most 100 categories, 64 blocked and 64 allowed domains, the policy that is
-- built from it holds its lists, cut to the tables where the code tests for their ends, in tables of
-- the declared sizes. If it has more, the code writes outside a table.
pub install_policy_cases :
    (pton : AddrParser) (pol : PolicyMessage)
    → (install_policy pton pol ≡ (if fits pol then done (installed pton pol) else fault))
      × IsSized (installed pton pol)
unfolding install_policy
install_policy_cases pton pol = (
  fill_policy_cases pton pol zero_policy zero_policy-IsSized,
  filled-IsSized pton pol zero_policy zero_policy-IsSized,
)
