-- ===== src/Cache/Release.antt =====
-- `free_dns_cache`, `free_ip_cache`, `clear_dns_cache` and `clear_ip_cache`: what becomes of the
-- nodes.
use grpc_server.Base.{
  ◌≡◌, ◌≢◌, refl, ◌∙◌, ◌⊎◌, true, false, none, some, List, [], ◌∷◌, Bytes, memcmp_eq, memcmp_eq_iff,
  ◌==◌, arith, Bool-cases, inl, inr,
}
use grpc_server.Base.Run.{done}
use grpc_server.RteHash.{RteHash, Ptr, IsHash, found_at, find, DistinctKeys}
use grpc_server.Cache.{Node, Heap, update, free_node, free_key, free_entries, clear_cache}
use grpc_server.Cache.Invariant.{Holds, update_ne}

-- Every entry of a list holds live objects.
abbrev pub EntriesHold : List (Bytes × Ptr) → Heap → Type 0
EntriesHold entries heap = (k : Bytes) (p : Ptr) → find k entries ≡ some p → Holds heap k p

-- `heap'` is `heap` without the objects of the entries: the nodes and keys that they point to are
-- freed, what was free stays free, and no other node is touched.
pub record Freed (entries : List (Bytes × Ptr)) (heap heap' : Heap) : Type 0 where
  pub nodes : (k : Bytes) (p : Ptr) → find k entries ≡ some p → heap'.nodes p ≡ none
  pub keys :
      (k : Bytes) (p kp : Ptr) (node : Node)
      → find k entries ≡ some p
      → heap.nodes p ≡ some node
      → node.key ≡ some kp
      → heap'.keys kp ≡ none
  pub nodes_mono : (p : Ptr) → heap.nodes p ≡ none → heap'.nodes p ≡ none
  pub keys_mono : (p : Ptr) → heap.keys p ≡ none → heap'.keys p ≡ none
  pub others : (p : Ptr) → ((k : Bytes) → find k entries ≢ some p) → heap'.nodes p ≡ heap.nodes p

module _ (h : RteHash) where
  -- one round of the loop
  free_entries-cons :
      (k : Bytes) (p kp : Ptr) (node : Node) (entries : List (Bytes × Ptr)) (heap : Heap)
      → heap.nodes p ≡ some node
      → node.key ≡ some kp
      → heap.keys kp ≡ some k
      → free_entries h ((k, p) ∷ entries) heap
        ≡ free_entries h entries
            (record heap { nodes = update heap.nodes p none; keys = update heap.keys kp none })
  unfolding free_entries free_key free_node
  free_entries-cons k p kp node entries heap at_p key_p bytes_p =
      rw (at_p, key_p, bytes_p, free_node, at_p) refl

-- the other keys of a list with no key twice
pub find_rest :
    (k j : Bytes) (p q : Ptr) (entries : List (Bytes × Ptr))
    → find k entries ≡ none
    → find j entries ≡ some q
    → (memcmp_eq k j ≡ false) × (find j ((k, p) ∷ entries) ≡ some q)
unfolding find
find_rest k j p q entries none_k found_j = elim (Bool-cases (memcmp_eq k j)) [
  | inl same ↦ absurd (ground (arith, memcmp_eq_iff k j))
  | inr ne ↦ (ne, rw ne found_j)
]

find_cases :
    (k j : Bytes) (p q : Ptr) (entries : List (Bytes × Ptr))
    → find j ((k, p) ∷ entries) ≡ some q
    → ((p == q) ≡ true) ⊎ (((memcmp_eq k j) ≡ false) × (find j entries ≡ some q))
unfolding find
find_cases k j p q entries e = elim (Bool-cases (memcmp_eq k j)) [
  | inl same ↦ inl (ground arith)
  | inr ne ↦ inr (ne, rw ne at e)
]

pub find_first :
    (k : Bytes) (p : Ptr) (entries : List (Bytes × Ptr)) → find k ((k, p) ∷ entries) ≡ some p
unfolding find
find_first k p entries = rw ((memcmp_eq_iff k k).1 refl) refl

module _ (k : Bytes) (p kp : Ptr) (node : Node) (entries : List (Bytes × Ptr)) (heap : Heap)
    (none_k : find k entries ≡ none) (hold : EntriesHold ((k, p) ∷ entries) heap)
    (at_p : heap.nodes p ≡ some node) (key_p : node.key ≡ some kp)
    (bytes_p : heap.keys kp ≡ some k) where
  abbrev without_first : Heap
  without_first = record heap { nodes = update heap.nodes p none; keys = update heap.keys kp none }

  EntriesHold-rest : EntriesHold entries without_first
  EntriesHold-rest j q fj =
      let (ne, fj') = find_rest k j p q entries none_k fj in
      let (n, kn, at_n, key_n, bytes_n) = hold j q fj' in
      let kk : (kp == kn) ≡ false = ground (arith, memcmp_eq_iff k j) in
      let pq : (p == q) ≡ false = ground (arith, memcmp_eq_iff k j) in
      (
        n,
        kn,
        update_ne heap.nodes p q none pq ∙ at_n,
        key_n,
        update_ne heap.keys kp kn none kk ∙ bytes_n,
      )

  rest_ne :
      (j : Bytes) (q : Ptr) → memcmp_eq k j ≡ false → find j entries ≡ some q → (p == q) ≡ false
  rest_ne j q ne fj =
      let (n, kn, at_n, key_n, bytes_n) = hold j q (find_rest k j p q entries none_k fj).1 in
      ground (arith, memcmp_eq_iff k j)

  Freed-cons :
      (heap' : Heap) → Freed entries without_first heap' → Freed ((k, p) ∷ entries) heap heap'
  Freed-cons heap' f = record {
    nodes = λ j q fj. elim (find_cases k j p q entries fj) [
      | inl same ↦ f.nodes_mono q (rw same refl)
      | inr (ne, fj') ↦ f.nodes j q fj'
    ];
    keys = λ j q kq n fj at_q key_q. elim (find_cases k j p q entries fj) [
      | inl same ↦ let e : (kp == kq) ≡ true = ground arith in f.keys_mono kq (rw e refl)
      | inr (ne, fj') ↦
          f.keys j q kq n fj' (update_ne heap.nodes p q none (rest_ne j q ne fj') ∙ at_q) key_q
    ];
    nodes_mono = λ q e. f.nodes_mono q (ground arith);
    keys_mono = λ q e. f.keys_mono q (ground arith);
    others = λ q un.
        let pq : (p == q) ≡ false = ground (arith, un k, find_first k p entries) in
        f.others q (λ j e. un j (find_rest k j p q entries none_k e).1)
        ∙ update_ne heap.nodes p q none pq;
  }

Freed-nil : (heap : Heap) → Freed [] heap heap
unfolding find
Freed-nil heap = record {
  nodes = λ k p e. cc;
  keys = λ k p kp node e at_p key_p. cc;
  nodes_mono = λ p e. e;
  keys_mono = λ p e. e;
  others = λ p un. refl;
}

module _ (h : RteHash) where
  pub free_entries-Freed :
      (entries : List (Bytes × Ptr)) (heap : Heap)
      → DistinctKeys entries
      → EntriesHold entries heap
      → (heap' : Heap) × (free_entries h entries heap ≡ done heap') × Freed entries heap heap'
  unfolding free_entries
  free_entries-Freed [] heap distinct hold = (heap, refl, Freed-nil heap)
  free_entries-Freed ((k, p) ∷ entries) heap distinct hold =
      let (node, kp, at_p, key_p, bytes_p) = hold k p (find_first k p entries) in
      let heap1 = without_first k p kp node entries heap distinct.0 hold at_p key_p bytes_p in
      let (heap', run, f) =
        free_entries-Freed entries heap1 distinct.1
          (EntriesHold-rest k p kp node entries heap distinct.0 hold at_p key_p bytes_p) in
      (
        heap',
        free_entries-cons h k p kp node entries heap at_p key_p bytes_p ∙ run,
        Freed-cons k p kp node entries heap distinct.0 hold at_p key_p bytes_p heap' f,
      )

  -- Clearing a cache empties the map and frees nothing: the nodes that the table held stay
  -- allocated, and no entry points to them any more.
  pub clear_cache_leaks :
      IsHash h
      → (t : h.Table) (heap : Heap)
      → (t' : h.Table) × (clear_cache h (record { hash = some t; heap = heap })
          ≡ record { hash = some t'; heap = heap })
        × ((k : Bytes) → found_at h t' k ≡ none)
  unfolding clear_cache
  clear_cache_leaks laws t heap =
      (h.reset t, refl, λ k. rw (laws.reset_entries t) (unfold find in refl))
