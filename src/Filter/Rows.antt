-- ===== src/Filter/Rows.antt =====
-- The block and allow lists of filtr_packets.c: what the loops over them decide.
use grpc_server.Base.{
  ℕ, ◌≡◌, ◌≢◌, ◌↔◌, true, false, List, ◌∷◌, ◌++◌, Bytes, c_str, strcmp_eq, strcmp_eq_iff, memcmp_eq,
  memcmp_eq_iff, starts_nul, length, take, take_all, scan_rows, scan_rows_iff, Bool-cases, inl, inr,
  scan_rows_hidden, scan_rows_stop, Found, arith, ◌==◌, ==_iff, if◌then◌else◌,
}
use grpc_server.Filter.{
  BasePolicy, InfoOfPakage, max_domains, max_ip4, max_ip6, max_categories,
  max_categories_by_trust_lvl, ip_4, check_domain_is_block, check_domain_is_allow,
  check_ip_is_block, check_ip_is_allow,
}

-- The arrays have the sizes that types.h declares.
pub record IsSized (p : BasePolicy) : Type 0 where
  pub locked_categories : length p.locked_categories ≡ max_categories
  pub categories_with_lvl : length p.categories_with_lvl ≡ max_categories_by_trust_lvl
  pub block_domains : length p.block_domains ≡ max_domains
  pub allow_domains : length p.allow_domains ≡ max_domains
  pub block_ip4 : length p.block_ip4 ≡ max_ip4
  pub allow_ip4 : length p.allow_ip4 ≡ max_ip4
  pub block_ip6 : length p.block_ip6 ≡ max_ip6
  pub allow_ip6 : length p.allow_ip6 ≡ max_ip6

-- The string of some row is the domain's, and no row up to it is empty.
abbrev pub DomainListed : Bytes → List Bytes → Type 0
DomainListed domain rows = Found starts_nul (λ row. c_str row ≡ c_str domain) rows

-- The destination is some row, and no row up to it is 0 (IPv4) or starts with a zero byte (IPv6).
abbrev pub IpListed : InfoOfPakage → List ℕ → List Bytes → Type 0
IpListed info rows4 rows6 =
    if info.ip_version == ip_4
    then Found (λ row. row == 0) (λ row. info.ip4_dist ≡ row) rows4
    else Found starts_nul (λ row. info.ip6_dist ≡ row) rows6

check_domain_is_block_iff :
    (domain : Bytes) (rows : List Bytes)
    → length rows ≡ max_domains
    → (check_domain_is_block domain rows ≡ true) ↔ DomainListed domain rows
unfolding check_domain_is_block
check_domain_is_block_iff domain rows h = rw (take_all rows max_domains (omega arith)) (
    scan_rows_iff starts_nul (λ row. strcmp_eq row domain) (λ row. c_str row ≡ c_str domain)
      (λ row. strcmp_eq_iff row domain) rows)

check_domain_is_allow_iff :
    (domain : Bytes) (rows : List Bytes)
    → length rows ≡ max_domains
    → (check_domain_is_allow domain rows ≡ true) ↔ DomainListed domain rows
unfolding check_domain_is_allow
check_domain_is_allow_iff domain rows h = rw (take_all rows max_domains (omega arith)) (
    scan_rows_iff starts_nul (λ row. strcmp_eq row domain) (λ row. c_str row ≡ c_str domain)
      (λ row. strcmp_eq_iff row domain) rows)

-- the two loops of an address test
ip_scan_iff :
    (info : InfoOfPakage) (rows4 : List ℕ) (rows6 : List Bytes)
    → length rows4 ≡ max_ip4
    → length rows6 ≡ max_ip6
    → ((if info.ip_version == ip_4
          then scan_rows (λ row. row == 0) (λ row. info.ip4_dist == row) (take max_ip4 rows4)
          else scan_rows starts_nul (λ row. memcmp_eq info.ip6_dist row) (take max_ip6 rows6))
        ≡ true)
      ↔ IpListed info rows4 rows6
ip_scan_iff info rows4 rows6 h4 h6 =
    rw (take_all rows4 max_ip4 (omega arith), take_all rows6 max_ip6 (omega arith))
      (elim (Bool-cases (info.ip_version == ip_4)) [
        | inl v4 ↦ rw v4 (
            scan_rows_iff (λ row. row == 0) (λ row. info.ip4_dist == row)
              (λ row. info.ip4_dist ≡ row) (λ row. ==_iff info.ip4_dist row) rows4)
        | inr v6 ↦ rw v6 (
            scan_rows_iff starts_nul (λ row. memcmp_eq info.ip6_dist row)
              (λ row. info.ip6_dist ≡ row) (λ row. memcmp_eq_iff info.ip6_dist row) rows6)
      ])

module _ (info : InfoOfPakage) (p : BasePolicy) (sized : IsSized p) where
  -- Under a policy of the declared sizes, the two domain tests are true exactly when the domain is
  -- the string of a row of the list in question, with no empty row up to that row.
  pub check_domain_iff :
      ((check_domain_is_block info.domain p.block_domains ≡ true)
        ↔ DomainListed info.domain p.block_domains)
      × ((check_domain_is_allow info.domain p.allow_domains ≡ true)
          ↔ DomainListed info.domain p.allow_domains)
  check_domain_iff = (
    check_domain_is_block_iff info.domain p.block_domains sized.block_domains,
    check_domain_is_allow_iff info.domain p.allow_domains sized.allow_domains,
  )

  -- Under a policy of the declared sizes, the two address tests are true exactly when the
  -- destination is a row of the list of its version, with no terminator up to that row.
  pub check_ip_iff :
      ((check_ip_is_block info p ≡ true) ↔ IpListed info p.block_ip4 p.block_ip6)
      × ((check_ip_is_allow info p ≡ true) ↔ IpListed info p.allow_ip4 p.allow_ip6)
  unfolding check_ip_is_block check_ip_is_allow
  check_ip_iff = (
    ip_scan_iff info p.block_ip4 p.block_ip6 sized.block_ip4 sized.block_ip6,
    ip_scan_iff info p.allow_ip4 p.allow_ip6 sized.allow_ip4 sized.allow_ip6,
  )

memcmp_starts_nul : (a b : Bytes) → starts_nul a ≡ true → memcmp_eq a b ≡ true → starts_nul b ≡ true
memcmp_starts_nul a b h e = rw ((memcmp_eq_iff a b).0 e) at h

-- A destination that is not IPv4 and whose first byte is 0 (such as ::1 or 64:ff9b::/96) is neither
-- blocked nor allowed, whatever the lists hold.
pub check_ip_zero_led :
    (info : InfoOfPakage) (p : BasePolicy)
    → info.ip_version ≢ ip_4
    → starts_nul info.ip6_dist ≡ true
    → (check_ip_is_block info p ≡ false) × (check_ip_is_allow info p ≡ false)
unfolding check_ip_is_block check_ip_is_allow
check_ip_zero_led info p v z =
    let hidden = λ (rows : List Bytes).
      scan_rows_stop starts_nul (λ row. memcmp_eq info.ip6_dist row) max_ip6 rows
        (λ row. memcmp_starts_nul info.ip6_dist row z) in
    let v6 : (info.ip_version == ip_4) ≡ false = ground arith in
    (rw v6 (hidden p.block_ip6), rw v6 (hidden p.allow_ip6))

-- An address that starts with a zero byte cuts the IPv6 block list: a policy decides as if the
-- entries behind it were not there.
pub check_ip_is_block_cut :
    (info : InfoOfPakage) (p : BasePolicy) (pre : List Bytes) (z : Bytes) (post : List Bytes)
    → p.block_ip6 ≡ pre ++ z ∷ post
    → starts_nul z ≡ true
    → check_ip_is_block info p ≡ check_ip_is_block info (record p { block_ip6 = pre })
unfolding check_ip_is_block
check_ip_is_block_cut info p pre z post e h =
    rw (e, scan_rows_hidden starts_nul (λ row. memcmp_eq info.ip6_dist row) max_ip6 pre z post h)
