-- ===== src/Worker/Policy.antt =====
-- worker/src/worker.cpp: `Worker::requestPolicyFromController` and `Worker::classify`, on what the
-- controller answers. A std::string is its bytes, of which `c_str` keeps those before a NUL.
pub mod Tables
pub mod Installed
pub mod Classified
pub mod Requests
use grpc_server.Base.{
  ℕ, zero, suc, Bool, Option, none, some, List, [], ◌∷◌, ◌++◌, Bytes, ℤ, pos, c_str, take, drop,
  replicate,
}
use grpc_server.Base.Run.{Run, done, fault, ◌>>=◌}
use grpc_server.RteHash.{RteHash}
use grpc_server.Cache.{Cache}
use grpc_server.DomainCache.{strncpy, clear_dns_cache}
use grpc_server.IpCache.{clear_ip_cache}
use grpc_server.Filter.{
  BasePolicy, TrustCategoriesWithLvl, RequestedClassification, max_categories,
  max_categories_by_trust_lvl, max_domains, max_ip4, max_ip6,
}

abbrev pub category_max_len : ℕ
category_max_len = 64

abbrev pub domain_max_len : ℕ
domain_max_len = 260

-- `inet_pton`: the address as a number in network order, and the 16 bytes of an IPv6 address
pub record AddrParser : Type 0 where
  pub inet : Bytes → Option ℕ
  pub inet6 : Bytes → Option Bytes

-- the policy in the controller's answer
pub record PolicyMessage : Type 0 where
  pub block_categories : List Bytes
  -- in the order in which the map is gone through
  pub block_by_trust : List (Bytes × ℤ)
  pub block_domains : List Bytes
  pub allow_domains : List Bytes
  pub block_ips : List Bytes
  pub allow_ips : List Bytes
  pub min_trust_level : ℤ
  pub ttl_ip : ℤ
  pub ttl_domain : ℤ
  pub config_version : ℕ

-- `strncpy` of `n` bytes and a NUL in the byte after them
abbrev pub text_row : ℕ → Bytes → Bytes
text_row n text = strncpy n (c_str text) ++ 0 ∷ []

-- A loop over all texts, each copied into the next row; `rows` are the rows from `i` on.
unfoldable pub copy_texts : ℕ → List Bytes → List Bytes → Run (List Bytes)
copy_texts n rows [] = done rows
copy_texts n [] (text ∷ texts) = fault
copy_texts n (row ∷ rows) (text ∷ texts) = do
  rest ← copy_texts n rows texts
  done (text_row n text ∷ rest)

-- The loop over `block_by_trust`, which stops where the table ends.
unfoldable pub copy_levels :
    List TrustCategoriesWithLvl → List (Bytes × ℤ) → List TrustCategoriesWithLvl
copy_levels rows [] = rows
copy_levels [] ((category, min_trust) ∷ rest) = []
copy_levels (row ∷ rows) ((category, min_trust) ∷ rest) =
    record { locked_by_trust_category = text_row 63 category; trust_lvl = min_trust }
    ∷ copy_levels rows rest

-- The loop over the texts of addresses. `rows4` and `rows6` are the rows from the two indices on;
-- what no longer fits and what is no address is passed over.
unfoldable pub copy_ips : AddrParser → List Bytes → List ℕ → List Bytes → List ℕ × List Bytes
copy_ips pton [] rows4 rows6 = (rows4, rows6)
copy_ips pton (ip_str ∷ texts) rows4 rows6 = elim (pton.inet ip_str) [
  | some ip4 ↦ elim rows4 [
    | [] ↦ copy_ips pton texts [] rows6
    | _ ∷ rows4' ↦ let (t4, t6) = copy_ips pton texts rows4' rows6 in (ip4 ∷ t4, t6)
  ]
  | none ↦ elim (pton.inet6 ip_str) [
    | some ip6 ↦ elim rows6 [
      | [] ↦ copy_ips pton texts rows4 []
      | _ ∷ rows6' ↦ let (t4, t6) = copy_ips pton texts rows4 rows6' in (t4, ip6 ∷ t6)
    ]
    | none ↦ copy_ips pton texts rows4 rows6
  ]
]

-- memset(&current_policy, 0, sizeof(current_policy))
unfoldable pub zero_policy : BasePolicy
zero_policy = record {
  locked_categories = replicate max_categories (replicate category_max_len 0);
  categories_with_lvl =
      replicate max_categories_by_trust_lvl
        (record { locked_by_trust_category = replicate category_max_len 0; trust_lvl = pos 0 });
  ttl_ip = pos 0;
  ttl_domain = pos 0;
  block_domains = replicate max_domains (replicate domain_max_len 0);
  allow_domains = replicate max_domains (replicate domain_max_len 0);
  block_ip4 = replicate max_ip4 0;
  allow_ip4 = replicate max_ip4 0;
  block_ip6 = replicate max_ip6 (replicate 16 0);
  allow_ip6 = replicate max_ip6 (replicate 16 0);
  min_trust_level = pos 0;
}

-- the filling of a policy from a message
unfoldable pub fill_policy : AddrParser → PolicyMessage → BasePolicy → Run BasePolicy
fill_policy pton pol current_policy = do
  locked_categories ← copy_texts 63 current_policy.locked_categories pol.block_categories
  let categories_with_lvl = copy_levels current_policy.categories_with_lvl pol.block_by_trust
  block_domains ← copy_texts 259 current_policy.block_domains pol.block_domains
  allow_domains ← copy_texts 259 current_policy.allow_domains pol.allow_domains
  let (block_ip4, block_ip6) =
      copy_ips pton pol.block_ips current_policy.block_ip4 current_policy.block_ip6
  let (allow_ip4, allow_ip6) =
      copy_ips pton pol.allow_ips current_policy.allow_ip4 current_policy.allow_ip6
  done (record {
    locked_categories = locked_categories;
    categories_with_lvl = categories_with_lvl;
    ttl_ip = pol.ttl_ip;
    ttl_domain = pol.ttl_domain;
    block_domains = block_domains;
    allow_domains = allow_domains;
    block_ip4 = block_ip4;
    allow_ip4 = allow_ip4;
    block_ip6 = block_ip6;
    allow_ip6 = allow_ip6;
    min_trust_level = pol.min_trust_level;
  })

-- the policy that is built from a message
unfoldable pub install_policy : AddrParser → PolicyMessage → Run BasePolicy
install_policy pton pol = fill_policy pton pol zero_policy

pub data PolicyResult : Type 0 where
  policy_provided policy_unchanged unknown_result : PolicyResult

pub record GetPolicyResponse : Type 0 where
  pub filtering_enabled : Bool
  pub result : PolicyResult
  pub policy : PolicyMessage

-- what a request for a policy changes
pub record Configured (h : RteHash) : Type 0 where
  pub current_config_version : ℕ
  pub enable : Bool
  pub current_policy : BasePolicy
  pub ip_cache : Cache h
  pub dns_cache : Cache h

module _ {h : RteHash} (pton : AddrParser) where
  unfoldable pub apply_result : PolicyResult → PolicyMessage → Configured h → Run (Configured h)
  unfolding install_policy
  apply_result policy_provided pol w = do
    current_policy ← install_policy pton pol
    done (record w {
      current_policy = current_policy;
      current_config_version = pol.config_version;
      ip_cache = clear_ip_cache h w.ip_cache;
      dns_cache = clear_dns_cache h w.dns_cache;
    })
  apply_result policy_unchanged pol w = done w
  apply_result unknown_result pol w = done w

  -- `none` is a call that fails, times out or throws.
  unfoldable pub request_policy : Option GetPolicyResponse → Configured h → Run (Configured h)
  unfolding apply_result
  request_policy none w = done w
  request_policy (some resp) w =
      apply_result resp.result resp.policy (record w { enable = resp.filtering_enabled })

-- the controller's answer to `Classify`
pub record ClassifyResponse : Type 0 where
  pub categories : List Bytes
  pub trust_level : ℤ

-- The loop over at most MAX_CATEGORIES categories: 63 bytes of each row are written, and no others.
unfoldable pub copy_categories : List Bytes → List Bytes → List Bytes
copy_categories rows [] = rows
copy_categories [] (category ∷ categories) = []
copy_categories (row ∷ rows) (category ∷ categories) =
    (strncpy 63 (c_str category) ++ drop 63 row) ∷ copy_categories rows categories

-- `none` is false; `out_req` is what the caller's variable held.
unfoldable pub classify :
    Option ClassifyResponse → RequestedClassification → Option RequestedClassification
classify none out_req = none
classify (some resp) out_req = some (record {
  get_categories = copy_categories out_req.get_categories (take max_categories resp.categories);
  get_trust_level = resp.trust_level;
})
