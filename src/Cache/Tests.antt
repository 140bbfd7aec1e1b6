-- ===== src/Cache/Tests.antt =====
-- The theorems of the cache at a table of two entries.
use grpc_server.Base.{
  ℕ, ◌≡◌, ◌≢◌, refl, true, none, some, [], ◌∷◌, Bytes, memcmp_eq, pos, arith, if◌then◌else◌,
}
use grpc_server.Base.Run.{done, ◌>>=◌}
use grpc_server.RteHash.{Ptr}
use grpc_server.Cache.{Node, Heap, Cache, age_seconds, to_u32, add_to_cache, lookup_cache}
use grpc_server.Cache.Invariant.{IsFresh, AllHold, live, view}
use grpc_server.Cache.Lookup.{LookupOk, lookup_cache_refines}
use grpc_server.Cache.Insert.{stored, add_to_cache_refines, add_to_cache_refused}
use grpc_server.Cache.Roundtrip.{lookup-add}
use grpc_server.Cache.Table.{Table, sample_hash, sample_hash-IsHash, is_full}
use grpc_server.Cache.Sample.{
  node_with, key_1, sample_heap, one_entry, two_entries, sample_heap-IsFresh, one_entry-AllHold,
  two_entries-AllHold, one_entry-unlinked, two_entries-unlinked,
}

abbrev cache_of : Table → Heap → Cache sample_hash
cache_of t heap = record { hash = some t; heap = heap }

-- a node of 10 seconds, 20 seconds after its insertion
lookup_cache_refines_example :
    LookupOk sample_hash sample_hash-IsHash 1020 1
      (omega arith)
      key_1
      two_entries
      sample_heap
      two_entries-AllHold
      sample_heap-IsFresh
      (lookup_cache sample_hash 1020 1 key_1 (cache_of two_entries sample_heap))
lookup_cache_refines_example =
    lookup_cache_refines sample_hash sample_hash-IsHash 1020 1 (omega arith) key_1 two_entries
      sample_heap two_entries-AllHold sample_heap-IsFresh

abbrev key_3 : Bytes
key_3 = 3 ∷ []

has_room : (sample_hash.add_key_data one_entry key_3 2).0 ≡ pos 0
unfolding is_full
has_room = refl

no_room : (sample_hash.add_key_data two_entries key_3 2).0 ≢ pos 0
unfolding is_full
no_room e = ground arith

add_to_cache_refines_example :
    (t' : Table) × (heap' : Heap) × (add_to_cache sample_hash true 1000 key_3 2
        (pos 5)
        (cache_of one_entry sample_heap)
      ≡ done (cache_of t' heap'))
    × AllHold sample_hash t' heap'
    × IsFresh heap'
    × ((now' hz : ℕ) (j : Bytes)
        → view sample_hash now' hz t' heap' j ≡ (
            if memcmp_eq key_3 j
            then live now' hz (some (stored (node_with none) 1000 (pos 5) 3))
            else view sample_hash now' hz one_entry sample_heap j))
add_to_cache_refines_example =
    add_to_cache_refines sample_hash sample_hash-IsHash 1000 (pos 5) key_3 2 one_entry sample_heap
      (node_with none) one_entry-AllHold sample_heap-IsFresh refl one_entry-unlinked has_room

add_to_cache_refused_example :
    (heap' : Heap) × (add_to_cache sample_hash true 1000 key_3 2
        (pos 5)
        (cache_of two_entries sample_heap)
      ≡ done (cache_of two_entries heap'))
    × (heap'.nodes 2 ≡ none)
    × (heap'.keys 3 ≡ none)
    × AllHold sample_hash two_entries heap'
    × ((now' hz : ℕ) (j : Bytes)
        → view sample_hash now' hz two_entries heap' j
          ≡ view sample_hash now' hz two_entries sample_heap j)
add_to_cache_refused_example =
    add_to_cache_refused sample_hash sample_hash-IsHash 1000 (pos 5) key_3 2 two_entries sample_heap
      (node_with none) two_entries-AllHold sample_heap-IsFresh refl two_entries-unlinked no_room

abbrev stored_3 : Node
stored_3 = stored (node_with none) 1000 (pos 5) 3

lookup-add_example :
    (c : Cache sample_hash) × (i : ℕ) × (q : Ptr) × ((add_to_cache sample_hash true 1000 key_3 2
          (pos 5)
          (cache_of one_entry sample_heap)
        >>= lookup_cache sample_hash 1004 1 key_3)
      ≡ done ((pos i, some q), c))
    × (c.heap.nodes q ≡ some stored_3)
lookup-add_example =
    lookup-add sample_hash sample_hash-IsHash 1000 (pos 5) key_3 2 one_entry sample_heap
      (node_with none) one_entry-AllHold sample_heap-IsFresh refl one_entry-unlinked has_room 1004 1
      (omega arith) (unfold to_u32 age_seconds in refl)
