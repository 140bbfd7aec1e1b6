-- ===== src/Packets.antt =====
-- worker/src/dpdk_filter/proc_packets.c: what is done with each packet of a burst. The ports are
-- shared objects, so they are a function of their addresses.
pub mod State
pub mod Forward
pub mod Accounts
pub mod Handled
pub mod Burst
pub mod Finishes
pub mod Total
pub mod Progress
mod Rewritten
mod Neighbors
pub mod Decisions
pub mod Sample
mod Tests
use grpc_server.Base.{
  ℕ, zero, suc, ◌+◌, ◌*◌, ◌/◌, ◌%◌, Bool, true, false, Option, none, some, List, [], ◌∷◌, ◌++◌,
  Bytes, ℤ, pos, negsuc, replicate, starts_nul, ◌==◌, if◌then◌else◌,
}
use grpc_server.Base.Run.{Run, done, ◌>>=◌, or_fault}
use grpc_server.RteHash.{RteHash, Ptr}
use grpc_server.Cache.{Cache, Node, alloc_node}
use grpc_server.DomainCache.{lookup_dns_cache, add_to_dns_cache}
use grpc_server.IpCache.{IpKey, lookup_ip_cache, add_to_ip_cache}
use grpc_server.Filter.{
  InfoOfPakage, BasePolicy, ip_4, main_filtring_by_domain, main_filtring_by_ip,
}
use grpc_server.Parser.{Mbuf, parsing_pakage}
use State.{
  Env, World, TargetType, ip, domain, record_packet_received, record_packet_dropped, pktmbuf_free,
  tick,
}
use Forward.{package_sending_decision, check_is_exception}

-- memset(&info_pac, 0, sizeof(info_pac))
abbrev pub zero_info : InfoOfPakage
zero_info = record {
  ethernet_type_host = 0;
  ethernet_type_protocol = 0;
  number_port = 0;
  domain = replicate 260 0;
  ip_version = 0;
  ip4_src = 0;
  ip4_dist = 0;
  ip6_src = replicate 16 0;
  ip6_dist = replicate 16 0;
}

-- a node from rte_calloc, with its decision
abbrev pub fresh_node : Bool → Node
fresh_node solution_is_send = record {
  categories = replicate 100 (replicate 64 0);
  solution_is_send = solution_is_send;
  trust_lvl = pos 0;
  timestamp = 0;
  ttl_seconds = 0;
  key = none;
}

-- the bytes of a uint32_t in memory
abbrev pub bytes32 : ℕ → Bytes
bytes32 x = x % 256 ∷ x / 256 % 256 ∷ x / 65536 % 256 ∷ x / 16777216 % 256 ∷ []

unfoldable pub ip_key_of : InfoOfPakage → IpKey
ip_key_of info_pac =
    if info_pac.ip_version == ip_4
    then record { version = 4; addr = bytes32 info_pac.ip4_dist ++ replicate 12 0 }
    else record { version = 6; addr = info_pac.ip6_dist }

unfoldable pub ip_text : Env → InfoOfPakage → Bytes
ip_text env info_pac =
    if info_pac.ip_version == ip_4 then env.ntop4 info_pac.ip4_dist else env.ntop6 info_pac.ip6_dist

-- the three ways in which the result of a cache lookup is taken: `ret >= 0` with a node, -ENOENT, and
-- any other
pub data LookupResult : Type 0 where
  hit : Ptr → LookupResult
  missed failed : LookupResult

unfoldable pub lookup_result : ℤ × Option Ptr → LookupResult
lookup_result (pos i, some p) = hit p
lookup_result (pos i, none) = failed
lookup_result (negsuc (suc zero), _) = missed
lookup_result (negsuc zero, _) = failed
lookup_result (negsuc (suc (suc n)), _) = failed

module _ (env : Env) (policy : BasePolicy) where
  -- the decision on a cache miss: a failed classification sends
  unfoldable pub decide_ip : ℕ → InfoOfPakage → Run Bool
  decide_ip step info_pac = elim (env.classify step ip (ip_text env info_pac)) [
    | some req_clas ↦ or_fault (main_filtring_by_ip req_clas policy info_pac)
    | none ↦ done true
  ]

  unfoldable pub decide_domain : ℕ → InfoOfPakage → Run Bool
  decide_domain step info_pac = elim (env.classify step domain info_pac.domain) [
    | some req_clas ↦ or_fault (main_filtring_by_domain req_clas policy info_pac)
    | none ↦ done true
  ]

module _ {h : RteHash} (env : Env) (policy : BasePolicy) where
  -- the new node and its insertion, after the packet is gone
  unfoldable pub remember_ip : Bool → InfoOfPakage → World h → Run (World h)
  remember_ip solution_is_send info_pac w =
      if env.malloc_ok w.step
      then (do
        let (new_node, heap) = alloc_node (fresh_node solution_is_send) w.ip_cache.heap
        let w' = tick w
        cache ←
            add_to_ip_cache h (env.malloc_ok w'.step) (env.cycles w'.step) (ip_key_of info_pac)
              new_node policy.ttl_ip (record w.ip_cache { heap = heap })
        done (record (tick w') { ip_cache = cache }))
      else done (tick w)

  unfoldable pub remember_domain : Bool → InfoOfPakage → World h → Run (World h)
  remember_domain solution_is_send info_pac w =
      if env.malloc_ok w.step
      then (do
        let (new_node, heap) = alloc_node (fresh_node solution_is_send) w.dns_cache.heap
        let w' = tick w
        cache ←
            add_to_dns_cache h (env.malloc_ok w'.step) (env.cycles w'.step) info_pac.domain new_node
              policy.ttl_domain (record w.dns_cache { heap = heap })
        done (record (tick w') { dns_cache = cache }))
      else done (tick w)

  module _ (port_in port_out queue_number : ℕ) (pkt : Mbuf) (info_pac : InfoOfPakage) where
    unfoldable pub on_ip_result : LookupResult → World h → Run (World h)
    on_ip_result (hit p) w = do
      node ← or_fault (w.ip_cache.heap.nodes p)
      package_sending_decision env node.solution_is_send pkt port_in port_out queue_number w
    on_ip_result missed w = do
      solution_is_send ← decide_ip env policy w.step info_pac
      w' ← package_sending_decision env solution_is_send pkt port_in port_out queue_number (tick w)
      remember_ip solution_is_send info_pac w'
    on_ip_result failed w = done (pktmbuf_free pkt (record_packet_dropped w))

    unfoldable pub on_domain_result : LookupResult → World h → Run (World h)
    on_domain_result (hit p) w = do
      node ← or_fault (w.dns_cache.heap.nodes p)
      package_sending_decision env node.solution_is_send pkt port_in port_out queue_number w
    on_domain_result missed w = do
      solution_is_send ← decide_domain env policy w.step info_pac
      w' ← package_sending_decision env solution_is_send pkt port_in port_out queue_number (tick w)
      remember_domain solution_is_send info_pac w'
    on_domain_result failed w = done (pktmbuf_free pkt (record_packet_dropped w))

    -- a packet without a domain, on no exception port
    unfoldable pub process_ip : World h → Run (World h)
    process_ip w = do
      (r, cache) ← lookup_ip_cache h (env.cycles w.step) env.hz (ip_key_of info_pac) w.ip_cache
      on_ip_result (lookup_result r) (record (tick w) { ip_cache = cache })

    -- a packet with a domain, on no exception port
    unfoldable pub process_domain : World h → Run (World h)
    process_domain w = do
      (r, cache) ← lookup_dns_cache h (env.cycles w.step) env.hz info_pac.domain w.dns_cache
      on_domain_result (lookup_result r) (record (tick w) { dns_cache = cache })

  module _ (port_in port_out port_exception queue_number : ℕ) where
    -- the test at the head of both branches
    unfoldable pub unless_exception :
        Mbuf → InfoOfPakage → (World h → Run (World h)) → World h → Run (World h)
    unless_exception pkt info_pac process w =
        if check_is_exception info_pac.number_port
        then package_sending_decision env true pkt port_in port_exception queue_number w
        else process w

    -- the body of the loop, with the filter on
    unfoldable pub process_packet : Mbuf → World h → Run (World h)
    unfolding unless_exception
    process_packet pkt w =
        let w' = record_packet_received w in
        parsing_pakage env.net pkt zero_info >>= (λ info_pac.
          if starts_nul info_pac.domain
          then unless_exception pkt info_pac (process_ip port_in port_out queue_number pkt info_pac)
              w'
          else unless_exception pkt info_pac
              (process_domain port_in port_out queue_number pkt info_pac) w')

    unfoldable pub process_all : List Mbuf → World h → Run (World h)
    process_all [] w = done w
    process_all (pkt ∷ pkts) w = do w' ← process_packet pkt w; process_all pkts w'

    -- the loop with the filter off
    unfoldable pub forward_all : List Mbuf → World h → Run (World h)
    forward_all [] w = done w
    forward_all (pkt ∷ pkts) w = do
      w' ←
          package_sending_decision env true pkt port_in port_out queue_number
            (record_packet_received w)
      forward_all pkts w'

    -- `pkts` is what `rte_eth_rx_burst` has filled in.
    unfoldable pub pakage_processing : Bool → List Mbuf → World h → Run (World h)
    unfolding process_all forward_all
    pakage_processing filtring_is_turned_off pkts w =
        if filtring_is_turned_off then forward_all pkts w else process_all pkts w
