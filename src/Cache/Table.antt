-- ===== src/Cache/Table.antt =====
-- A hash table that keeps what RteHash.antt says of `rte_hash`: a list of at most two entries.
use grpc_server.Base.{
  ◌≡◌, ◌≢◌, ◌∙◌, refl, ap, Bool, true, false, Option, none, some, List, [], ◌∷◌, Bytes, memcmp_eq,
  memcmp_eq_iff, ℤ, pos, negsuc, Bool-cases, inl, inr, if◌then◌else◌, arith,
}
use grpc_server.RteHash.{RteHash, Ptr, IsHash, DistinctKeys, find, enoent}

unfoldable pub remove : Bytes → List (Bytes × Ptr) → List (Bytes × Ptr)
remove k [] = []
remove k ((j, p) ∷ entries) =
    let rest = remove k entries in if memcmp_eq k j then rest else (j, p) ∷ rest

pub find-remove :
    (k j : Bytes) (entries : List (Bytes × Ptr))
    → find j (remove k entries) ≡ (if memcmp_eq k j then none else find j entries)
unfolding find remove
find-remove k j [] = elim (Bool-cases (memcmp_eq k j)) [ inl e ↦ rw e refl | inr e ↦ rw e refl ]
find-remove k j ((i, p) ∷ entries) =
    ground (arith, memcmp_eq_iff k i, memcmp_eq_iff k j, memcmp_eq_iff i j, find-remove k j entries)

pub DistinctKeys-remove :
    (k : Bytes) (entries : List (Bytes × Ptr))
    → DistinctKeys entries
    → DistinctKeys (remove k entries)
unfolding remove
DistinctKeys-remove k [] d = tt
DistinctKeys-remove k ((j, p) ∷ entries) d = elim (Bool-cases (memcmp_eq k j)) [
  | inl e ↦ rw e (DistinctKeys-remove k entries d.1)
  | inr e ↦ rw e ((find-remove k j entries ∙ rw e d.0, DistinctKeys-remove k entries d.1))
]

abbrev pub Table : Type 0
Table = (entries : List (Bytes × Ptr)) × DistinctKeys entries

unfoldable pub is_full : List (Bytes × Ptr) → Bool
is_full [] = false
is_full (e ∷ []) = false
is_full (e ∷ e' ∷ entries) = true

unfoldable pub add_first : Bytes → Ptr → Table → Table
add_first k p (entries, d) = (
  (k, p) ∷ remove k entries,
  (find-remove k k entries ∙ rw ((memcmp_eq_iff k k).1 refl) refl, DistinctKeys-remove k entries d),
)

-- -ENOSPC
abbrev pub enospc : ℤ
enospc = negsuc 27

abbrev pub found_result : Option Ptr → ℤ × Option Ptr
found_result none = (enoent, none)
found_result (some p) = (pos 0, some p)

abbrev pub deleted_result : Option Ptr → ℤ
deleted_result none = enoent
deleted_result (some p) = pos 0

abbrev pub sample_hash : RteHash
sample_hash = record {
  Table = Table;
  create = some ([], tt);
  lookup_data = λ t k. found_result (find k t.0);
  add_key_data = λ t k p. if is_full t.0 then (enospc, t) else (pos 0, add_first k p t);
  del_key = λ t k. (deleted_result (find k t.0), (remove k t.0, DistinctKeys-remove k t.0 t.1));
  reset = λ t. ([], tt);
  entries = λ t. t.0;
}

sample_hash-add :
    (t : Table) (k : Bytes) (p : Ptr) (j : Bytes)
    → (sample_hash.add_key_data t k p).0 ≡ pos 0
    → find j (sample_hash.add_key_data t k p).1.0 ≡ (if memcmp_eq k j then some p else find j t.0)
unfolding find add_first
sample_hash-add t k p j ok = elim (Bool-cases (is_full t.0)) [
  | inl e ↦ absurd (ground arith)
  | inr e ↦ rw e (ground (arith, find-remove k j t.0))
]

sample_hash-refused :
    (t : Table) (k : Bytes) (p : Ptr)
    → (sample_hash.add_key_data t k p).0 ≢ pos 0
    → (sample_hash.add_key_data t k p).1 ≡ t
sample_hash-refused t k p ne = elim (Bool-cases (is_full t.0)) [
  | inl e ↦ rw e refl
  | inr e ↦ absurd (ne (rw e refl))
]

pub sample_hash-IsHash : IsHash sample_hash
sample_hash-IsHash = record {
  lookup_hit = λ t k p e. (0, ap found_result e);
  lookup_miss = λ t k e. ap found_result e;
  add_ok = sample_hash-add;
  add_failed = sample_hash-refused;
  del_hit = λ t k p e. (0, ap deleted_result e);
  del_entries = λ t k j. find-remove k j t.0;
  reset_entries = λ t. refl;
  distinct = λ t. t.1;
}
