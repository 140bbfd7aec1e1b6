-- ===== src/Packets/Tests.antt =====
-- The theorems on the packet loop at two small packets.
use grpc_server.Base.{
  ◌+◌, length, ℕ, ◌≡◌, refl, starts_nul, scan_rows, strcmp_eq, memcmp_eq, c_str, inr, true, false,
  some, [], ◌∷◌, pos, Bytes, replicate, take, arith,
}
use grpc_server.Base.Run.{done, Gives}
use grpc_server.Cache.{Heap}
use grpc_server.Cache.Invariant.{IsFresh, AllHold, view}
use grpc_server.Cache.Table.{Table, sample_hash, sample_hash-IsHash}
use grpc_server.Cache.Sample.{sample_heap, one_entry, sample_heap-IsFresh, one_entry-AllHold}
use grpc_server.DomainCache.{domain_max_len}
use grpc_server.Filter.{
  RequestedClassification, BasePolicy, main_filtring_by_ip, check_ip_is_block, check_ip_is_allow,
  check_categories_and_trust_level, is_unknown, check_categories, categories_pass,
  category_is_locked, check_trust_level,
}
use grpc_server.Packets.State.{Env, NetPort, World, tick}
use grpc_server.Packets.Accounts.{count_sent, count_refused, count_released}
use grpc_server.Packets.Burst.{pakage_processing-IsAccounted}
use grpc_server.Packets.Handled.{IsAccounted}
use grpc_server.Packets.Forward.{check_is_exception, learn_neighbor_mac, rewrite_packet}
use grpc_server.Packets.Neighbors.{Learned, learn_neighbor_mac-Learned}
use grpc_server.Packets.Progress.{pakage_processing-off}
use grpc_server.Packets.Decisions.{
  remembered_ip, remembered_domain, address_key, filter_ip, filter_domain, decided_by,
  process_ip_decides, process_domain_decides,
}
use grpc_server.Packets.{zero_info, process_ip, process_domain, pakage_processing}
use grpc_server.Parser.{parsing_pakage, read16, parse_l3, has, read32, parse_l4, parse_dns}
use grpc_server.Packets.Finishes.{IsReady}
use grpc_server.Packets.Total.{IsParsable, pakage_processing-on}
use grpc_server.Packets.Rewritten.{Ipv4, ipv4, frame, forwarded, rewrite_packet_lem}
use grpc_server.Packets.Sample.{env, policy, packet_to, world}

world-IsAccounted : IsAccounted world
unfolding count_sent count_refused count_released
world-IsAccounted = record {
  disposed = refl;
  passed = refl;
  dropped_ge = omega arith;
  dropped_le = omega arith;
}

pakage_processing-IsAccounted_example :
    Gives
      (λ w'.
        IsAccounted w'
        × (w'.received ≡ length (packet_to 80 ∷ packet_to 22 ∷ []) + world.received)
        × (count_sent w'.events + count_released w'.events
            ≡ length (packet_to 80 ∷ packet_to 22 ∷ [])
              + (count_sent world.events + count_released world.events)))
      (pakage_processing env policy 0 1 2 0 false (packet_to 80 ∷ packet_to 22 ∷ []) world)
pakage_processing-IsAccounted_example =
    pakage_processing-IsAccounted env policy 0 1 2 0 false (packet_to 80 ∷ packet_to 22 ∷ []) world
      world-IsAccounted

process_ip_decides_example :
    (t' : Table) × (heap' : Heap) × (process_ip env policy 0 1 0 (packet_to 80) zero_info world
      ≡ decided_by env policy 0 1 0
          (packet_to 80)
          zero_info
          (view sample_hash 1000 1 one_entry sample_heap (address_key zero_info))
          (filter_ip env policy 1 zero_info)
          (remembered_ip env policy)
          (record (tick world) { ip_cache = record { hash = some t'; heap = heap' } }))
    × AllHold sample_hash t' heap'
    × IsFresh heap'
    × ((j : Bytes)
        → view sample_hash 1000 1 t' heap' j ≡ view sample_hash 1000 1 one_entry sample_heap j)
process_ip_decides_example =
    process_ip_decides env policy 0 1 0 (packet_to 80) zero_info sample_hash-IsHash (omega arith)
      world one_entry sample_heap one_entry-AllHold sample_heap-IsFresh refl

process_domain_decides_example :
    (t' : Table) × (heap' : Heap) × (process_domain env policy 0 1 0 (packet_to 80) zero_info world
      ≡ decided_by env policy 0 1 0
          (packet_to 80)
          zero_info
          (view sample_hash 1000 1 one_entry sample_heap (take domain_max_len zero_info.domain))
          (filter_domain env policy 1 zero_info)
          (remembered_domain env policy)
          (record (tick world) { dns_cache = record { hash = some t'; heap = heap' } }))
    × AllHold sample_hash t' heap'
    × IsFresh heap'
    × ((j : Bytes)
        → view sample_hash 1000 1 t' heap' j ≡ view sample_hash 1000 1 one_entry sample_heap j)
process_domain_decides_example =
    process_domain_decides env policy 0 1 0 (packet_to 80) zero_info sample_hash-IsHash
      (omega arith) world one_entry sample_heap one_entry-AllHold sample_heap-IsFresh refl

pakage_processing-off_example :
    (w' : World sample_hash) × (pakage_processing env policy 0 1 2 0 true
        (packet_to 80 ∷ packet_to 22 ∷ [])
        world
      ≡ done w')
    × IsAccounted w'
    × (w'.received ≡ world.received + length (packet_to 80 ∷ packet_to 22 ∷ []))
pakage_processing-off_example =
    pakage_processing-off env policy 0 1 2 0 (packet_to 80 ∷ packet_to 22 ∷ []) world
      (omega arith, (omega arith, tt)) (λ p. (refl, refl)) world-IsAccounted

learn_neighbor_mac-Learned_example :
    (ports' : ℕ → NetPort) × (learn_neighbor_mac 0 (packet_to 80).buf 1 world.ports ≡ done ports')
    × Learned world.ports 0 1 (replicate 6 1) ports'
learn_neighbor_mac-Learned_example =
    learn_neighbor_mac-Learned 0 (packet_to 80).buf 1 world.ports (omega arith)

-- a classifier that answers every question, and a policy that asks for more trust
abbrev answer : RequestedClassification
answer = record { get_categories = (b'g' ∷ 0 ∷ []) ∷ []; get_trust_level = pos 3 }

abbrev asking : Env
asking = record env { classify = λ step kind text. some answer }

abbrev strict : BasePolicy
strict = record policy {
  locked_categories = (b'b' ∷ 0 ∷ []) ∷ [];
  block_ip4 = 7 ∷ [];
  allow_ip4 = 8 ∷ [];
  min_trust_level = pos 5;
}

burst-IsParsable : IsParsable asking strict (packet_to 80 ∷ packet_to 22 ∷ [])
unfolding parsing_pakage read16 parse_l3 has read32 parse_l4 parse_dns check_is_exception
    main_filtring_by_ip check_ip_is_block check_ip_is_allow check_categories_and_trust_level
    is_unknown check_categories check_trust_level starts_nul scan_rows categories_pass
    category_is_locked strcmp_eq memcmp_eq c_str
burst-IsParsable =
    ((_, refl, inr (λ step. (false, refl))), ((_, refl, inr (λ step. (false, refl))), tt))

world-IsReady : IsReady world
world-IsReady = record {
  ports = λ p. (refl, refl);
  ip_cache = (one_entry, sample_heap, refl, one_entry-AllHold, sample_heap-IsFresh);
  dns_cache = (one_entry, sample_heap, refl, one_entry-AllHold, sample_heap-IsFresh);
}

pakage_processing-on_example :
    (w' : World sample_hash) × (pakage_processing asking strict 0 1 2 0 false
        (packet_to 80 ∷ packet_to 22 ∷ [])
        world
      ≡ done w')
    × IsReady w'
    × IsAccounted w'
    × (w'.received ≡ world.received + length (packet_to 80 ∷ packet_to 22 ∷ []))
pakage_processing-on_example =
    pakage_processing-on sample_hash-IsHash asking (omega arith) strict 0 1 2 0
      (packet_to 80 ∷ packet_to 22 ∷ []) world burst-IsParsable (omega arith, (omega arith, tt))
      world-IsReady world-IsAccounted

abbrev out_port : NetPort
out_port = record {
  port_id = 1;
  mac_addr = replicate 6 4;
  neighbor_mac = replicate 6 5;
  neighbor_learned = true;
}

abbrev datagram : Ipv4
datagram = record {
  start = replicate 8 2;
  time_to_live = 64;
  protocol = 17;
  cksum = 7 ∷ 7 ∷ [];
  rest = replicate 20 3;
}

rewrite_packet_lem_example :
    rewrite_packet env out_port (frame env (replicate 6 1) (replicate 6 1) (ipv4 datagram))
    ≡ done (forwarded env out_port (ipv4 datagram))
rewrite_packet_lem_example =
    rewrite_packet_lem env out_port refl refl (replicate 6 1) (replicate 6 1) (ipv4 datagram) refl
      refl (refl, refl)
