-- ===== src/Packets/Decisions.antt =====
-- The decision on a packet against the map that its cache stands for.
use grpc_server.Base.{
  ℕ, suc, ◌/◌, ◌%◌, ◌<◌, ◌≡◌, refl, Bool, true, Option, none, some, ◌∷◌, Bytes, ℤ, take, replicate,
  Bool-cases, Option-cases, inl, inr, ◌==◌, if◌then◌else◌,
}
use grpc_server.Base.Run.{Run, done, ◌>>=◌, or_fault}
use grpc_server.RteHash.{RteHash, Ptr, IsHash}
use std.Path.{fun_ext}
use grpc_server.Cache.{Node, Heap, alloc_node, add_to_cache}
use grpc_server.Cache.Invariant.{IsFresh, AllHold, view}
use grpc_server.Cache.Lookup.{Answers, lookup_cache_refines}
use grpc_server.DomainCache.{domain_max_len, lookup_dns_cache, add_to_dns_cache, copy_domain}
use grpc_server.IpCache.{key_bytes, lookup_ip_cache, add_to_ip_cache}
use grpc_server.Parser.{Mbuf}
use grpc_server.Filter.{
  BasePolicy, InfoOfPakage, RequestedClassification, ip_4, main_filtring_by_ip,
  main_filtring_by_domain,
}
use grpc_server.Packets.State.{Env, World, ip, domain, tick}
use grpc_server.Packets.Forward.{package_sending_decision}
use grpc_server.Packets.{
  fresh_node, lookup_result, decide_ip, decide_domain, remember_ip, remember_domain, on_ip_result,
  on_domain_result, process_ip, process_domain, ip_key_of, ip_text,
}

-- The verdict on a target: `filter` is asked with the answer of the classifier, and a target that it
-- does not answer for is sent.
abbrev pub verdict :
    Option RequestedClassification → (RequestedClassification → Option Bool) → Run Bool
verdict none filter = done true
verdict (some answer) filter = or_fault (filter answer)

-- the text of the destination address, for the classifier
abbrev pub address_text : Env → InfoOfPakage → Bytes
address_text env i = if i.ip_version == ip_4 then env.ntop4 i.ip4_dist else env.ntop6 i.ip6_dist

-- The key of the destination address: the version in four bytes, and the address in sixteen.
abbrev pub address_key : InfoOfPakage → Bytes
address_key i =
    if i.ip_version == ip_4
    then 4
      ∷ 0
      ∷ 0
      ∷ 0
      ∷ i.ip4_dist % 256
      ∷ i.ip4_dist / 256 % 256
      ∷ i.ip4_dist / 65536 % 256
      ∷ i.ip4_dist / 16777216 % 256
      ∷ replicate 12 0
    else 6 ∷ 0 ∷ 0 ∷ 0 ∷ i.ip6_dist

-- the verdict of the address filter, and that of the domain filter
abbrev pub filter_ip : Env → BasePolicy → ℕ → InfoOfPakage → Run Bool
filter_ip env policy step i =
    verdict (env.classify step ip (address_text env i))
      (λ answer. main_filtring_by_ip answer policy i)

abbrev pub filter_domain : Env → BasePolicy → ℕ → InfoOfPakage → Run Bool
filter_domain env policy step i =
    verdict (env.classify step domain i.domain) (λ answer. main_filtring_by_domain answer policy i)

key_bytes-ip_key_of : (i : InfoOfPakage) → key_bytes (ip_key_of i) ≡ address_key i
unfolding ip_key_of key_bytes
key_bytes-ip_key_of i = elim (Bool-cases (i.ip_version == ip_4)) [
  | inl e ↦ rw e refl
  | inr e ↦ rw e refl
]

decide_ip_lem :
    (env : Env) (policy : BasePolicy) (step : ℕ) (i : InfoOfPakage)
    → decide_ip env policy step i ≡ filter_ip env policy step i
unfolding decide_ip ip_text
decide_ip_lem env policy step i = elim (Option-cases (env.classify step ip (address_text env i))) [
  | inl e ↦ rw (decide_ip, ip_text, e) refl
  | inr (answer, e) ↦ rw (decide_ip, ip_text, e) refl
]

decide_domain_lem :
    (env : Env) (policy : BasePolicy) (step : ℕ) (i : InfoOfPakage)
    → decide_domain env policy step i ≡ filter_domain env policy step i
unfolding decide_domain
decide_domain_lem env policy step i = elim (Option-cases (env.classify step domain i.domain)) [
  | inl e ↦ rw (decide_domain, e) refl
  | inr (answer, e) ↦ rw (decide_domain, e) refl
]

module _ {h : RteHash} (env : Env) (policy : BasePolicy) where
  -- A decision is remembered: where there is memory for a node, one with the decision is inserted into
  -- the cache under the key, for the time to live of the policy.
  abbrev pub remembered_ip : Bool → InfoOfPakage → World h → Run (World h)
  remembered_ip solution i w =
      if env.malloc_ok w.step
      then (add_to_cache h (env.malloc_ok (suc w.step)) (env.cycles (suc w.step)) (address_key i)
            w.ip_cache.heap.next policy.ttl_ip
            (record w.ip_cache { heap = (alloc_node (fresh_node solution) w.ip_cache.heap).1 })
          >>= (λ cache. done (record (tick (tick w)) { ip_cache = cache })))
      else done (tick w)

  abbrev pub remembered_domain : Bool → InfoOfPakage → World h → Run (World h)
  remembered_domain solution i w =
      if env.malloc_ok w.step
      then (add_to_cache h (env.malloc_ok (suc w.step)) (env.cycles (suc w.step))
            (copy_domain i.domain) w.dns_cache.heap.next policy.ttl_domain
            (record w.dns_cache { heap = (alloc_node (fresh_node solution) w.dns_cache.heap).1 })
          >>= (λ cache. done (record (tick (tick w)) { dns_cache = cache })))
      else done (tick w)

  pub remember_ip_lem :
      (solution : Bool) (i : InfoOfPakage) (w : World h)
      → remember_ip env policy solution i w ≡ remembered_ip solution i w
  unfolding remember_ip add_to_ip_cache alloc_node
  remember_ip_lem solution i w = elim (Bool-cases (env.malloc_ok w.step)) [
    | inl e ↦ rw (remember_ip, e, add_to_ip_cache, key_bytes-ip_key_of i) refl
    | inr e ↦ rw (remember_ip, e) refl
  ]

  pub remember_domain_lem :
      (solution : Bool) (i : InfoOfPakage) (w : World h)
      → remember_domain env policy solution i w ≡ remembered_domain solution i w
  unfolding remember_domain add_to_dns_cache alloc_node
  remember_domain_lem solution i w = elim (Bool-cases (env.malloc_ok w.step)) [
    | inl e ↦ rw (remember_domain, e) refl
    | inr e ↦ rw (remember_domain, e) refl
  ]

  remember_ip_same : remember_ip env policy ≡ remembered_ip
  remember_ip_same =
      fun_ext (λ solution. fun_ext (λ i. fun_ext (λ w. remember_ip_lem solution i w)))

  remember_domain_same : remember_domain env policy ≡ remembered_domain
  remember_domain_same =
      fun_ext (λ solution. fun_ext (λ i. fun_ext (λ w. remember_domain_lem solution i w)))

module _ {h : RteHash} (env : Env) (policy : BasePolicy) (port_in port_out queue_number : ℕ)
    (pkt : Mbuf) (info_pac : InfoOfPakage) where
  -- A live node of the map decides; without one the verdict does, and it is remembered. `w` is the
  -- world after the lookup.
  abbrev pub decided_by :
      Option Node
      → Run Bool
      → (Bool → InfoOfPakage → World h → Run (World h))
      → World h
      → Run (World h)
  decided_by (some node) decision remember w =
      package_sending_decision env node.solution_is_send pkt port_in port_out queue_number w
  decided_by none decision remember w = decision >>= (λ solution_is_send.
      package_sending_decision env solution_is_send pkt port_in port_out queue_number (tick w)
      >>= remember solution_is_send info_pac)

  -- an answer that fits the map leads where the map says
  on_ip_result-Answers :
      (m : Option Node) (r : ℤ × Option Ptr) (w : World h)
      → Answers m r w.ip_cache.heap
      → on_ip_result env policy port_in port_out queue_number pkt info_pac (lookup_result r) w
        ≡ decided_by m (filter_ip env policy w.step info_pac) (remembered_ip env policy) w
  unfolding on_ip_result lookup_result
  on_ip_result-Answers none r w e =
      rw
        (
          e,
          lookup_result,
          decide_ip_lem env policy w.step info_pac,
          remember_ip_same {h = h} env policy,
        )
        refl
  on_ip_result-Answers (some node) r w (i, p, e, at_p) =
      rw (e, lookup_result, on_ip_result, at_p) refl

  on_domain_result-Answers :
      (m : Option Node) (r : ℤ × Option Ptr) (w : World h)
      → Answers m r w.dns_cache.heap
      → on_domain_result env policy port_in port_out queue_number pkt info_pac (lookup_result r) w
        ≡ decided_by m (filter_domain env policy w.step info_pac) (remembered_domain env policy) w
  unfolding on_domain_result lookup_result
  on_domain_result-Answers none r w e =
      rw
        (
          e,
          lookup_result,
          decide_domain_lem env policy w.step info_pac,
          remember_domain_same {h = h} env policy,
        )
        refl
  on_domain_result-Answers (some node) r w (i, p, e, at_p) =
      rw (e, lookup_result, on_domain_result, at_p) refl

  module _ (laws : IsHash h) (hz_pos : 0 < env.hz) (w : World h) (t : h.Table) (heap : Heap)
      (all : AllHold h t heap) (fresh : IsFresh heap) where
    -- On an IP cache that keeps the invariant, over a hash table with the documented behaviour and
    -- with a running clock: a packet without a domain is decided by the live node of its address
    -- in the map that the cache stands for. Without one, the classifier is asked for the text of the
    -- address: the filter of addresses decides on its answer, and without an answer the packet is
    -- sent; then a new node with the decision is inserted under the address, if there is memory.
    -- The lookup keeps the invariant and the map.
    pub process_ip_decides :
        w.ip_cache ≡ record { hash = some t; heap = heap }
        → (t' : h.Table) × (heap' : Heap) × (process_ip env policy port_in port_out queue_number pkt
              info_pac w
            ≡ decided_by
                (view h (env.cycles w.step) env.hz t heap (address_key info_pac))
                (filter_ip env policy (suc w.step) info_pac)
                (remembered_ip env policy)
                (record (tick w) { ip_cache = record { hash = some t'; heap = heap' } }))
          × AllHold h t' heap'
          × IsFresh heap'
          × ((j : Bytes)
              → view h (env.cycles w.step) env.hz t' heap' j
                ≡ view h (env.cycles w.step) env.hz t heap j)
    unfolding process_ip lookup_ip_cache
    process_ip_decides at =
        let (r, t', heap', run, answer, dropped, all', fresh', same) =
          lookup_cache_refines h laws (env.cycles w.step) env.hz hz_pos (address_key info_pac) t
            heap all fresh in
        (
          t',
          heap',
          rw (at, key_bytes-ip_key_of info_pac, run) (on_ip_result-Answers _ r _ answer),
          all',
          fresh',
          same,
        )

    -- On a domain cache that keeps the invariant, over a hash table with the documented behaviour
    -- and with a running clock: a packet with a domain is decided by the live node of its domain
    -- buffer in the map that the cache stands for. Without one, the classifier is asked for the
    -- domain: the filter of domains decides on its answer, and without an answer the packet is sent;
    -- then a new node with the decision is inserted under the copy of the domain, if there is memory.
    -- The lookup keeps the invariant and the map.
    pub process_domain_decides :
        w.dns_cache ≡ record { hash = some t; heap = heap }
        → (t' : h.Table) × (heap' : Heap) × (process_domain env policy port_in port_out queue_number
              pkt info_pac w
            ≡ decided_by
                (view h (env.cycles w.step) env.hz t heap (take domain_max_len info_pac.domain))
                (filter_domain env policy (suc w.step) info_pac)
                (remembered_domain env policy)
                (record (tick w) { dns_cache = record { hash = some t'; heap = heap' } }))
          × AllHold h t' heap'
          × IsFresh heap'
          × ((j : Bytes)
              → view h (env.cycles w.step) env.hz t' heap' j
                ≡ view h (env.cycles w.step) env.hz t heap j)
    unfolding process_domain lookup_dns_cache
    process_domain_decides at =
        let (r, t', heap', run, answer, dropped, all', fresh', same) =
          lookup_cache_refines h laws (env.cycles w.step) env.hz hz_pos
            (take domain_max_len info_pac.domain) t heap all fresh in
        (t', heap', rw (at, run) (on_domain_result-Answers _ r _ answer), all', fresh', same)
