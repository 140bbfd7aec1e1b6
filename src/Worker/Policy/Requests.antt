-- ===== src/Worker/Policy/Requests.antt =====
-- What a request for a policy leaves.
use grpc_server.Base.{◌≡◌, ◌⊎◌, refl, true, false, Option, none, some, Bytes, inl, inr, Bool-cases}
use grpc_server.Base.Run.{Run, done, fault}
use grpc_server.RteHash.{RteHash, IsHash, found_at}
use grpc_server.Cache.{Cache}
use grpc_server.Cache.Release.{clear_cache_leaks}
use grpc_server.DomainCache.{clear_dns_cache}
use grpc_server.IpCache.{clear_ip_cache}
use grpc_server.Worker.Policy.{
  AddrParser, PolicyMessage, PolicyResult, policy_provided, policy_unchanged, unknown_result,
  GetPolicyResponse, Configured, apply_result, request_policy,
}
use grpc_server.Worker.Policy.Tables.{fits, installed, install_policy_cases}

-- a cache with a table that has no entry, on the same heap as another
abbrev pub IsEmptied : (h : RteHash) → Cache h → Cache h → Type 0
IsEmptied h c c' =
    (t : h.Table) × (c' ≡ record { hash = some t; heap = c.heap })
    × ((k : Bytes) → found_at h t k ≡ none)

-- the policy of the message and its version, with both caches emptied
abbrev pub Replaced :
    (h : RteHash) → AddrParser → PolicyMessage → Configured h → Configured h → Type 0
Replaced h pton pol w w' =
    (w'.current_policy ≡ installed pton pol)
    × (w'.current_config_version ≡ pol.config_version)
    × (w'.enable ≡ w.enable)
    × IsEmptied h w.ip_cache w'.ip_cache
    × IsEmptied h w.dns_cache w'.dns_cache

-- The outcome of an answer, by its result.
abbrev pub Applied :
    (h : RteHash)
    → AddrParser
    → PolicyResult
    → PolicyMessage
    → Configured h
    → Run (Configured h)
    → Type 0
Applied h pton policy_provided pol w out =
    ((fits pol ≡ true) × (w' : Configured h) × (out ≡ done w') × Replaced h pton pol w w')
    ⊎ ((fits pol ≡ false) × (out ≡ fault))
Applied h pton policy_unchanged pol w out = out ≡ done w
Applied h pton unknown_result pol w out = out ≡ done w

abbrev pub Requested :
    (h : RteHash)
    → AddrParser
    → Option GetPolicyResponse
    → Configured h
    → Run (Configured h)
    → Type 0
Requested h pton none w out = out ≡ done w
Requested h pton (some resp) w out =
    Applied h pton resp.result resp.policy (record w { enable = resp.filtering_enabled }) out

module _ {h : RteHash} (laws : IsHash h) (pton : AddrParser) where
  open_cache-IsEmptied :
      (c : Cache h) (t : h.Table)
      → c.hash ≡ some t
      → IsEmptied h c (clear_ip_cache h c) × IsEmptied h c (clear_dns_cache h c)
  unfolding clear_ip_cache clear_dns_cache
  open_cache-IsEmptied c t e =
      let same : record { hash = some t; heap = c.heap } ≡ c = rw e refl in
      let (t', run, none_at) = clear_cache_leaks h laws t c.heap in
      ((t', rw same at run, none_at), (t', rw same at run, none_at))

  module _ (w : Configured h) (t_ip t_dns : h.Table) (ip_open : w.ip_cache.hash ≡ some t_ip)
      (dns_open : w.dns_cache.hash ≡ some t_dns) where
    apply_result-Applied :
        (result : PolicyResult) (pol : PolicyMessage)
        → Applied h pton result pol w (apply_result pton result pol w)
    unfolding apply_result
    apply_result-Applied policy_unchanged pol = refl
    apply_result-Applied unknown_result pol = refl
    apply_result-Applied policy_provided pol = elim (Bool-cases (fits pol)) [
      | inl few ↦ inl (
        few,
        record w {
          current_policy = installed pton pol;
          current_config_version = pol.config_version;
          ip_cache = clear_ip_cache h w.ip_cache;
          dns_cache = clear_dns_cache h w.dns_cache;
        },
        rw ((install_policy_cases pton pol).0, few) refl,
        (
          refl,
          refl,
          refl,
          (open_cache-IsEmptied w.ip_cache t_ip ip_open).0,
          (open_cache-IsEmptied w.dns_cache t_dns dns_open).1,
        ),
      )
      | inr many ↦ inr (many, rw ((install_policy_cases pton pol).0, many) refl)
    ]

  -- A request that gets no answer changes nothing. An answer switches the filter, and nothing more
  -- unless it brings a policy: that is then installed with its version, and both caches, where they
  -- are open, are left with no entry and with every node still allocated. A policy with more
  -- categories or domains than its tables have rows makes the code write outside them.
  pub request_policy-Requested :
      (answer : Option GetPolicyResponse) (w : Configured h) (t_ip t_dns : h.Table)
      → w.ip_cache.hash ≡ some t_ip
      → w.dns_cache.hash ≡ some t_dns
      → Requested h pton answer w (request_policy pton answer w)
  unfolding request_policy
  request_policy-Requested none w t_ip t_dns ip_open dns_open = refl
  request_policy-Requested (some resp) w t_ip t_dns ip_open dns_open =
      apply_result-Applied (record w { enable = resp.filtering_enabled }) t_ip t_dns ip_open
        dns_open resp.result resp.policy
