-- ===== src/Filter.antt =====
-- worker/src/dpdk_filter/filtr_packets.c: the decision whether a packet is sent, over the types of
-- worker/include/dpdk_filter/types.h and the sizes of worker/include/dpdk_filter/constants.h.
-- A fixed array is the list of its rows. `none` is a read outside an array.
pub mod Rows
pub mod Categories
pub mod Verdict
mod Tests
use grpc_server.Base.{
  ℕ, zero, suc, Bool, true, false, ◌&&◌, Option, none, some, List, [], ◌∷◌, ℤ, pos, ltb_ℤ, Bytes,
  strcmp_eq, memcmp_eq, starts_nul, scan_rows, take, not, ◌==◌, if◌then◌else◌,
}

abbrev pub max_categories_by_trust_lvl : ℕ
max_categories_by_trust_lvl = 64

abbrev pub max_domains : ℕ
max_domains = 64

abbrev pub max_ip4 : ℕ
max_ip4 = 1024

abbrev pub max_ip6 : ℕ
max_ip6 = 1024

abbrev pub max_categories : ℕ
max_categories = 100

-- enum ip_version
abbrev pub ip_4 : ℕ
ip_4 = 1

abbrev pub ip_6 : ℕ
ip_6 = 2

pub record InfoOfPakage : Type 0 where
  pub ethernet_type_host : ℕ
  pub ethernet_type_protocol : ℕ
  pub number_port : ℕ
  pub domain : Bytes
  pub ip_version : ℕ
  pub ip4_src : ℕ
  pub ip4_dist : ℕ
  pub ip6_src : Bytes
  pub ip6_dist : Bytes

pub record TrustCategoriesWithLvl : Type 0 where
  pub locked_by_trust_category : Bytes
  pub trust_lvl : ℤ

pub record BasePolicy : Type 0 where
  pub locked_categories : List Bytes
  pub categories_with_lvl : List TrustCategoriesWithLvl
  pub ttl_ip : ℤ
  pub ttl_domain : ℤ
  pub block_domains : List Bytes
  pub allow_domains : List Bytes
  pub block_ip4 : List ℕ
  pub allow_ip4 : List ℕ
  pub block_ip6 : List Bytes
  pub allow_ip6 : List Bytes
  pub min_trust_level : ℤ

pub record RequestedClassification : Type 0 where
  pub get_categories : List Bytes
  pub get_trust_level : ℤ

unfoldable pub check_domain_is_block : Bytes → List Bytes → Bool
check_domain_is_block domain block_domains =
    scan_rows starts_nul (λ row. strcmp_eq row domain) (take max_domains block_domains)

unfoldable pub check_domain_is_allow : Bytes → List Bytes → Bool
check_domain_is_allow domain allow_domains =
    scan_rows starts_nul (λ row. strcmp_eq row domain) (take max_domains allow_domains)

unfoldable pub check_trust_level : ℤ → ℤ → Bool
check_trust_level get_trust_level min_trust_level =
    if ltb_ℤ get_trust_level min_trust_level then false else true

unfoldable pub check_ip_is_block : InfoOfPakage → BasePolicy → Bool
check_ip_is_block info_pac policy =
    if info_pac.ip_version == ip_4
    then scan_rows (λ row. row == 0) (λ row. info_pac.ip4_dist == row)
        (take max_ip4 policy.block_ip4)
    else scan_rows starts_nul (λ row. memcmp_eq info_pac.ip6_dist row)
        (take max_ip6 policy.block_ip6)

unfoldable pub check_ip_is_allow : InfoOfPakage → BasePolicy → Bool
check_ip_is_allow info_pac policy =
    if info_pac.ip_version == ip_4
    then scan_rows (λ row. row == 0) (λ row. info_pac.ip4_dist == row)
        (take max_ip4 policy.allow_ip4)
    else scan_rows starts_nul (λ row. memcmp_eq info_pac.ip6_dist row)
        (take max_ip6 policy.allow_ip6)

-- the inner loop of `check_categories`: whether `category` equals a row
unfoldable pub category_is_locked : Bytes → List Bytes → Bool
category_is_locked category [] = false
category_is_locked category (row ∷ rows) =
    if strcmp_eq category row then true else category_is_locked category rows

-- the outer loop of `check_categories`
unfoldable pub categories_pass : List Bytes → List Bytes → Bool
categories_pass [] locked = true
categories_pass (category ∷ rest) locked =
    if category_is_locked category locked then false else categories_pass rest locked

unfoldable pub check_categories : List Bytes → List Bytes → Bool
check_categories get_categories locked_categories =
    categories_pass (take max_categories get_categories) (take max_categories locked_categories)

-- the inner loop of `check_categories_with_lvl`: whether `row` stops one of the categories
unfoldable pub lvl_row_locks : ℤ → TrustCategoriesWithLvl → List Bytes → Bool
lvl_row_locks get_trust_level row [] = false
lvl_row_locks get_trust_level row (category ∷ rest) =
    if strcmp_eq category row.locked_by_trust_category && ltb_ℤ get_trust_level row.trust_lvl
    then true
    else lvl_row_locks get_trust_level row rest

-- the outer loop, over the rounds left and the rows from `categories_with_lvl[i]` on
unfoldable pub lvl_rows_pass :
    ℕ → RequestedClassification → List TrustCategoriesWithLvl → Option Bool
lvl_rows_pass zero req_clas rows = some true
lvl_rows_pass (suc rounds) req_clas [] = none
lvl_rows_pass (suc rounds) req_clas (row ∷ rows) =
    let rest = lvl_rows_pass rounds req_clas rows in
    if lvl_row_locks req_clas.get_trust_level row (take max_categories req_clas.get_categories)
    then some false
    else rest

-- The source loops up to `MAX_CATEGORIES`, not `MAX_CATEGORIES_BY_TRUST_LVL`.
unfoldable pub check_categories_with_lvl :
    RequestedClassification → List TrustCategoriesWithLvl → Option Bool
check_categories_with_lvl req_clas categories_with_lvl =
    lvl_rows_pass max_categories req_clas categories_with_lvl

-- "unknown", as bytes
abbrev pub unknown_category : Bytes
unknown_category = b'u' ∷ b'n' ∷ b'k' ∷ b'n' ∷ b'o' ∷ b'w' ∷ b'n' ∷ 0 ∷ []

abbrev pub first_row : List Bytes → Bytes
first_row [] = []
first_row (row ∷ rows) = row

abbrev is_zero : ℤ → Bool
is_zero (pos zero) = true
is_zero _ = false

-- get_trust_level == 0 && strcmp(get_categories[0], "unknown") == 0
unfoldable pub is_unknown : RequestedClassification → Bool
is_unknown req_clas =
    is_zero req_clas.get_trust_level
    && strcmp_eq (first_row req_clas.get_categories) unknown_category

unfoldable pub check_categories_and_trust_level : RequestedClassification → BasePolicy → Option Bool
check_categories_and_trust_level req_clas policy =
    if is_unknown req_clas
    then some true
    else if not (check_categories req_clas.get_categories policy.locked_categories)
    then some false
    else if not (check_trust_level req_clas.get_trust_level policy.min_trust_level)
    then some false
    else check_categories_with_lvl req_clas policy.categories_with_lvl

unfoldable pub main_filtring_by_domain :
    RequestedClassification → BasePolicy → InfoOfPakage → Option Bool
main_filtring_by_domain req_clas policy info_pac =
    if check_domain_is_block info_pac.domain policy.block_domains
    then some false
    else if check_domain_is_allow info_pac.domain policy.allow_domains
    then some true
    else check_categories_and_trust_level req_clas policy

unfoldable pub main_filtring_by_ip :
    RequestedClassification → BasePolicy → InfoOfPakage → Option Bool
main_filtring_by_ip req_clas policy info_pac =
    if check_ip_is_block info_pac policy
    then some false
    else if check_ip_is_allow info_pac policy
    then some true
    else check_categories_and_trust_level req_clas policy
