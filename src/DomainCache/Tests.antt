-- ===== src/DomainCache/Tests.antt =====
-- The theorems on the keys of the domain cache at two buffers: the one that the query a\0b leaves,
-- and the one of an ordinary name.
use grpc_server.Base.{
  ◌++◌, ◌==◌, take, Bool-cases, inl, inr, if◌then◌else◌, ◌≡◌, ◌≢◌, refl, true, false, none, some,
  [], ◌∷◌, Bytes, pos, replicate, c_str, memcmp_eq, memcmp_eq_iff, arith,
}
use grpc_server.Base.Run.{done}
use grpc_server.RteHash.{Ptr, find, found_at, enoent}
use grpc_server.Cache.{Cache, Heap}
use grpc_server.Cache.Invariant.{Holds, IsFresh, AllHold, live, view}
use grpc_server.Cache.Insert.{stored}
use grpc_server.Cache.Table.{Table, sample_hash, sample_hash-IsHash, is_full}
use grpc_server.Cache.Sample.{node_with, sample_heap, sample_heap-IsFresh}
use grpc_server.DomainCache.{
  domain_max_len, strncpy, copy_domain, lookup_dns_cache, add_to_dns_cache,
}
use grpc_server.DomainCache.Keys.{AllCopies, copy_domain-clean, add_to_dns_cache_dirty}

abbrev dirty_domain : Bytes
dirty_domain = b'a' ∷ 0 ∷ b'b' ∷ replicate 257 0

abbrev clean_text : Bytes
clean_text = b'a' ∷ b'.' ∷ b'b' ∷ []

is_dirty : memcmp_eq (copy_domain dirty_domain) dirty_domain ≡ false
unfolding copy_domain strncpy c_str memcmp_eq
is_dirty = refl

not_its_copy : copy_domain (take domain_max_len dirty_domain) ≢ take domain_max_len dirty_domain
not_its_copy e = ground (arith, is_dirty, memcmp_eq_iff (copy_domain dirty_domain) dirty_domain)

-- the buffer of a.b
abbrev clean_key : Bytes
clean_key = clean_text ++ replicate 257 0

alone : find clean_key [] ≡ none
unfolding find
alone = refl

-- a table with the one key a.b
abbrev clean_table : Table
clean_table = ((clean_key, 0) ∷ [], (alone, tt))

abbrev clean_heap : Heap
clean_heap = record sample_heap { keys = λ p. if p == 0 then some clean_key else none }

only_entry :
    (k : Bytes) (p : Ptr) → found_at sample_hash clean_table k ≡ some p → (clean_key ≡ k) × (0 ≡ p)
unfolding find
only_entry k p e = elim (Bool-cases (memcmp_eq clean_key k)) [
  | inl same ↦ ((memcmp_eq_iff clean_key k).0 same, ground (arith, e, same))
  | inr ne ↦ absurd (ground (arith, e, ne))
]

held : (k : Bytes) (p : Ptr) → (clean_key ≡ k) × (0 ≡ p) → Holds clean_heap k p
held k p (e, z) = rw (← e, ← z) (node_with (some 0), 0, refl, refl, refl)

clean_table-AllHold : AllHold sample_hash clean_table clean_heap
clean_table-AllHold k p e = held k p (only_entry k p e)

clean_table-AllCopies : AllCopies sample_hash clean_table
clean_table-AllCopies k p e =
    let same = (only_entry k p e).0 in
    rw (← same) (
      copy_domain-clean clean_text 256
        ((λ z. omega (arith, z)), ((λ z. omega (arith, z)), ((λ z. omega (arith, z)), tt))) refl)

clean_heap-IsFresh : IsFresh clean_heap
clean_heap-IsFresh = record {
  nodes = λ p le. sample_heap-IsFresh.nodes p le;
  keys = λ p le. ground arith;
}

clean_table-unlinked : (k : Bytes) → found_at sample_hash clean_table k ≢ some 2
clean_table-unlinked k e = let z = (only_entry k 2 e).1 in absurd (omega (arith, z))

has_room : (sample_hash.add_key_data clean_table (copy_domain dirty_domain) 2).0 ≡ pos 0
unfolding is_full
has_room = refl

add_to_dns_cache_dirty_example :
    (c : Cache sample_hash) × (t' : Table) × (add_to_dns_cache sample_hash true 1000 dirty_domain 2
        (pos 5)
        (record { hash = some clean_table; heap = clean_heap })
      ≡ done c)
    × (c.hash ≡ some t')
    × AllHold sample_hash t' c.heap
    × IsFresh c.heap
    × AllCopies sample_hash t'
    × (lookup_dns_cache sample_hash 1001 1 dirty_domain c ≡ done ((enoent, none), c))
    × (view sample_hash 1001 1 t' c.heap (copy_domain dirty_domain)
        ≡ live 1001 1 (some (stored (node_with none) 1000 (pos 5) 3)))
add_to_dns_cache_dirty_example =
    add_to_dns_cache_dirty sample_hash sample_hash-IsHash 1000 (pos 5) dirty_domain 2 clean_table
      clean_heap (node_with none) clean_table-AllHold clean_heap-IsFresh refl clean_table-unlinked
      clean_table-AllCopies 1001 1 not_its_copy has_room
