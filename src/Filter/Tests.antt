-- ===== src/Filter/Tests.antt =====
-- Concrete policies and packets for filtr_packets.c, and the theorems at them.
use grpc_server.Base.{
  ◌≡◌, refl, false, none, some, [], ◌∷◌, ◌++◌, Bytes, c_str, memcmp_eq, strcmp_eq, starts_nul,
  scan_rows, pos, replicate,
}
use grpc_server.Filter.{
  RequestedClassification, BasePolicy, InfoOfPakage, TrustCategoriesWithLvl, check_domain_is_block,
  check_domain_is_allow, check_ip_is_block, check_ip_is_allow, check_categories, category_is_locked,
  categories_pass, check_trust_level, lvl_row_locks, lvl_rows_pass, check_categories_with_lvl,
  is_unknown, check_categories_and_trust_level, main_filtring_by_domain, main_filtring_by_ip,
}
use grpc_server.Filter.Rows.{IsSized, DomainListed, IpListed}
use grpc_server.Filter.Verdict.{
  VerdictCases, main_filtring_by_domain_cases, main_filtring_by_ip_cases,
}

program : Unit {0}
unfolding check_domain_is_block check_domain_is_allow check_ip_is_block check_ip_is_allow
    check_categories category_is_locked categories_pass check_trust_level lvl_row_locks
    lvl_rows_pass check_categories_with_lvl is_unknown check_categories_and_trust_level
    main_filtring_by_domain main_filtring_by_ip scan_rows memcmp_eq strcmp_eq c_str starts_nul
program = tt

abbrev row_a : Bytes
row_a = b'a' ∷ b'.' ∷ b'b' ∷ 0 ∷ 7 ∷ []

abbrev row_ads : Bytes
row_ads = b'a' ∷ b'd' ∷ b's' ∷ 0 ∷ []

abbrev row_news : Bytes
row_news = b'n' ∷ b'e' ∷ b'w' ∷ b's' ∷ 0 ∷ []

abbrev empty_row : Bytes
empty_row = 0 ∷ []

abbrev level_row : TrustCategoriesWithLvl
level_row = record { locked_by_trust_category = row_news; trust_lvl = pos 5 }

abbrev blank_level : TrustCategoriesWithLvl
blank_level = record { locked_by_trust_category = empty_row; trust_lvl = pos 0 }

-- 100 locked categories, so that no row is empty
abbrev policy : BasePolicy
policy = record {
  locked_categories = replicate 100 row_ads;
  categories_with_lvl = level_row ∷ replicate 63 blank_level;
  ttl_ip = pos 60;
  ttl_domain = pos 60;
  block_domains = row_a ∷ replicate 63 empty_row;
  allow_domains = replicate 64 empty_row;
  block_ip4 = 5 ∷ replicate 1023 0;
  allow_ip4 = replicate 1024 0;
  block_ip6 = replicate 1024 empty_row;
  allow_ip6 = replicate 1024 empty_row;
  min_trust_level = pos 1;
}

-- a policy with room for more locked categories
abbrev short_policy : BasePolicy
short_policy = record policy { locked_categories = row_ads ∷ replicate 99 empty_row }

policy-IsSized : IsSized policy
policy-IsSized = record {
  locked_categories = refl;
  categories_with_lvl = refl;
  block_domains = refl;
  allow_domains = refl;
  block_ip4 = refl;
  allow_ip4 = refl;
  block_ip6 = refl;
  allow_ip6 = refl;
}

abbrev info : InfoOfPakage
info = record {
  ethernet_type_host = 8;
  ethernet_type_protocol = 8;
  number_port = 0x3500;
  domain = b'a' ∷ b'.' ∷ b'b' ∷ 0 ∷ 0 ∷ [];
  ip_version = 1;
  ip4_src = 3;
  ip4_dist = 5;
  ip6_src = replicate 16 0;
  ip6_dist = replicate 16 0;
}

-- a packet to ::1
abbrev loopback : InfoOfPakage
loopback = record info { ip_version = 2; ip6_dist = replicate 15 0 ++ 1 ∷ [] }

abbrev other : InfoOfPakage
other = record info { domain = b'x' ∷ 0 ∷ []; ip4_dist = 6 }

abbrev req : RequestedClassification
req = record { get_categories = row_news ∷ replicate 99 empty_row; get_trust_level = pos 3 }

blocked : main_filtring_by_domain req policy info ≡ some false
unfolding program
blocked = refl

level_locks : main_filtring_by_domain req policy other ≡ some false
unfolding program
level_locks = refl

-- With a trust level that nothing stops, the filter reads the 65th row of the level table.
reads_past_table :
    main_filtring_by_domain (record req { get_trust_level = pos 9 }) policy other ≡ none
unfolding program
reads_past_table = refl

-- The same site is dropped where the locked categories leave a row empty.
short_policy_drops :
    main_filtring_by_domain (record req { get_trust_level = pos 9 }) short_policy other ≡ some false
unfolding program
short_policy_drops = refl

main_filtring_by_domain_cases_example :
    VerdictCases
      (main_filtring_by_domain req policy info)
      (DomainListed info.domain policy.block_domains)
      (DomainListed info.domain policy.allow_domains)
      req
      policy
main_filtring_by_domain_cases_example =
    main_filtring_by_domain_cases req refl policy policy-IsSized info

main_filtring_by_ip_cases_example :
    VerdictCases
      (main_filtring_by_ip req policy other)
      (IpListed other policy.block_ip4 policy.block_ip6)
      (IpListed other policy.allow_ip4 policy.allow_ip6)
      req
      policy
main_filtring_by_ip_cases_example = main_filtring_by_ip_cases req refl policy policy-IsSized other
