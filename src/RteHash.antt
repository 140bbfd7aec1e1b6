-- ===== src/RteHash.antt =====
-- DPDK's `rte_hash`, which worker/src/dpdk_filter/domain_cache.c and ip_cache.c call: a parameter of
-- the caches, with the documented behaviour that their theorems rely on.
use grpc_server.Base.{
  ℕ, ◌≡◌, ◌≢◌, Option, none, some, List, [], ◌∷◌, Bytes, memcmp_eq, ℤ, pos, negsuc, if◌then◌else◌,
}

-- A pointer to a node or to a key.
abbrev pub Ptr : Type 0
Ptr = ℕ

-- -ENOENT and -EINVAL
abbrev pub enoent : ℤ
enoent = negsuc 1

abbrev pub einval : ℤ
einval = negsuc 21

-- The first entry with a key. Keys are compared as arrays of bytes.
unfoldable pub find : Bytes → List (Bytes × Ptr) → Option Ptr
find k [] = none
find k ((j, p) ∷ entries) = let rest = find k entries in if memcmp_eq j k then some p else rest

pub record RteHash : Type 1 where
  pub Table : Type 0
  pub create : Option Table
  -- the return value, and the data pointer that is written on a hit
  pub lookup_data : Table → Bytes → ℤ × Option Ptr
  pub add_key_data : Table → Bytes → Ptr → ℤ × Table
  pub del_key : Table → Bytes → ℤ × Table
  pub reset : Table → Table
  -- what `rte_hash_iterate` goes through, in its order
  pub entries : Table → List (Bytes × Ptr)

abbrev pub found_at : (h : RteHash) → h.Table → Bytes → Option Ptr
found_at h t k = find k (h.entries t)

-- No key twice.
abbrev pub DistinctKeys : List (Bytes × Ptr) → Type 0
DistinctKeys [] = Unit
DistinctKeys ((k, p) ∷ entries) = (find k entries ≡ none) × DistinctKeys entries

-- What the documentation of rte_hash.h says.
pub record IsHash (h : RteHash) : Type 1 where
  pub lookup_hit :
      (t : h.Table) (k : Bytes) (p : Ptr)
      → found_at h t k ≡ some p
      → (i : ℕ) × (h.lookup_data t k ≡ (pos i, some p))
  pub lookup_miss :
      (t : h.Table) (k : Bytes) → found_at h t k ≡ none → h.lookup_data t k ≡ (enoent, none)
  pub add_ok :
      (t : h.Table) (k : Bytes) (p : Ptr) (j : Bytes)
      → (h.add_key_data t k p).0 ≡ pos 0
      → found_at h (h.add_key_data t k p).1 j ≡ (if memcmp_eq k j then some p else found_at h t j)
  pub add_failed :
      (t : h.Table) (k : Bytes) (p : Ptr)
      → (h.add_key_data t k p).0 ≢ pos 0
      → (h.add_key_data t k p).1 ≡ t
  pub del_hit :
      (t : h.Table) (k : Bytes) (p : Ptr)
      → found_at h t k ≡ some p
      → (i : ℕ) × ((h.del_key t k).0 ≡ pos i)
  pub del_entries :
      (t : h.Table) (k j : Bytes)
      → found_at h (h.del_key t k).1 j ≡ (if memcmp_eq k j then none else found_at h t j)
  pub reset_entries : (t : h.Table) → h.entries (h.reset t) ≡ []
  pub distinct : (t : h.Table) → DistinctKeys (h.entries t)
