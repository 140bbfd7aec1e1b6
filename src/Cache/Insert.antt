-- ===== src/Cache/Insert.antt =====
-- `add_to_dns_cache` and `add_to_ip_cache` against the map with expiry.
use grpc_server.Base.{
  ℕ, zero, suc, ap, ◌∙◌, ◌+◌, ◌≡◌, ◌≢◌, refl, ◌⊎◌, true, false, Option, none, some, Bytes,
  memcmp_eq, memcmp_eq_iff, ℤ, pos, negsuc, ◌==◌, if◌then◌else◌, arith, Option-cases, Bool-cases,
  inl, inr,
}
use grpc_server.Base.Run.{Run, done}
use grpc_server.RteHash.{RteHash, Ptr, IsHash, found_at}
use grpc_server.Cache.{
  Node, Heap, Cache, update, to_u32, alloc_key, free_node, free_key, insert_key, add_to_cache,
}
use grpc_server.Cache.Invariant.{IsFresh, AllHold, live, view, update_self, update_ne}

-- the node as the table holds it
abbrev pub stored : Node → ℕ → ℤ → Ptr → Node
stored node now ttl kp = record node { timestamp = now; ttl_seconds = to_u32 ttl; key = some kp }

-- the values that the table's insertion may return
ret_cases : (r : ℤ) → r ≢ pos 0 → ((i : ℕ) × (r ≡ pos (suc i))) ⊎ ((n : ℕ) × (r ≡ negsuc n))
ret_cases (pos zero) ne = absurd (ne refl)
ret_cases (pos (suc i)) ne = inl (i, refl)
ret_cases (negsuc n) ne = inr (n, refl)

module _ (h : RteHash) (laws : IsHash h) (now : ℕ) (ttl : ℤ) (key : Bytes) (p : Ptr) (t : h.Table)
    (heap : Heap) (node : Node) (all : AllHold h t heap) (fresh : IsFresh heap)
    (at_p : heap.nodes p ≡ some node) (unlinked : (k : Bytes) → found_at h t k ≢ some p) where
  abbrev pub new_node : Node
  new_node = stored node now ttl heap.next

  abbrev pub new_heap : Heap
  new_heap = record {
    next = heap.next + 1;
    nodes = update heap.nodes p (some new_node);
    keys = update heap.keys heap.next (some key);
  }

  -- the heap after both objects are freed again
  abbrev pub back_heap : Heap
  back_heap = record new_heap {
    nodes = update new_heap.nodes p none;
    keys = update new_heap.keys heap.next none;
  }

  abbrev pub with_table : h.Table → Run (Cache h)
  with_table t' = done (record { hash = some t'; heap = back_heap })

  abbrev pub start : Cache h
  start = record { hash = some t; heap = heap }

  pub add_run :
      (h.add_key_data t key p).0 ≡ pos 0
      → add_to_cache h true now key p ttl start
        ≡ done (record { hash = some (h.add_key_data t key p).1; heap = new_heap })
  unfolding add_to_cache alloc_key
  add_run ok = rw (at_p, insert_key, ok) refl

  pub refused_run :
      (h.add_key_data t key p).0 ≢ pos 0
      → add_to_cache h true now key p ttl start
        ≡ done (record { hash = some (h.add_key_data t key p).1; heap = back_heap })
  unfolding add_to_cache alloc_key free_key free_node
  refused_run no_room =
      let key_back = update_self heap.keys heap.next (some key) in
      let node_back = update_self heap.nodes p (some new_node) in
      elim (ret_cases (h.add_key_data t key p).0 no_room) [
        | inl (i, e) ↦
            let nonzero : (suc i == 0) ≡ false = ground arith in
            rw (at_p, insert_key, e, nonzero, key_back, node_back) refl
        | inr (n, e) ↦ rw (at_p, insert_key, e, key_back, node_back) refl
      ]

  pub AllHold-add :
      (h.add_key_data t key p).0 ≡ pos 0 → AllHold h (h.add_key_data t key p).1 new_heap
  AllHold-add ok j q fj = elim (Bool-cases (memcmp_eq key j)) [
    | inl same ↦
        let e : p ≡ q = ground (arith, laws.add_ok t key p j ok) in
        (new_node, heap.next, ground arith, refl, ground (arith, memcmp_eq_iff key j))
    | inr ne ↦
        let fj' : found_at h t j ≡ some q = ground (arith, laws.add_ok t key p j ok) in
        let (n, kn, at_n, key_n, bytes_n) = all j q fj' in
        let pq : (p == q) ≡ false = ground (arith, unlinked j) in
        let old : (heap.next == kn) ≡ false = ground (arith, fresh.keys heap.next) in
        (n, kn, ground arith, key_n, ground arith)
  ]

  pub IsFresh-add : IsFresh new_heap
  IsFresh-add = record {
    nodes = λ q le. ground (arith, fresh.nodes q, fresh.nodes p);
    keys = λ q le. ground (arith, fresh.keys q);
  }

  pub view-add :
      (now' hz : ℕ) (j : Bytes)
      → (h.add_key_data t key p).0 ≡ pos 0
      → view h now' hz (h.add_key_data t key p).1 new_heap j
        ≡ (if memcmp_eq key j then live now' hz (some new_node) else view h now' hz t heap j)
  unfolding view
  view-add now' hz j ok = elim (Bool-cases (memcmp_eq key j)) [
    | inl same ↦
        let e : found_at h (h.add_key_data t key p).1 j ≡ some p =
          ground (arith, laws.add_ok t key p j ok) in
        rw (same, e) (ap (live now' hz) (update_self heap.nodes p (some new_node)))
    | inr ne ↦
        let e : found_at h (h.add_key_data t key p).1 j ≡ found_at h t j =
          ground (arith, laws.add_ok t key p j ok) in
        rw (ne, e)
          (elim (Option-cases (found_at h t j)) [
            | inl miss ↦ rw miss refl
            | inr (q, hit) ↦ rw hit (
                ap (live now' hz)
                  (update_ne heap.nodes p q (some new_node) (ground (arith, unlinked j))))
          ])
  ]

  -- A table keeps its entries when a heap changes at `p` and above `next` alone.
  pub AllHold-keep :
      (nodes : Ptr → Option Node) (keys : Ptr → Option Bytes)
      → ((q : Ptr) → (p == q) ≡ false → nodes q ≡ heap.nodes q)
      → ((q : Ptr) → (heap.next == q) ≡ false → keys q ≡ heap.keys q)
      → AllHold h t (record { next = heap.next + 1; nodes = nodes; keys = keys })
  AllHold-keep nodes keys same_n same_k j q fj =
      let (n, kn, at_n, key_n, bytes_n) = all j q fj in
      let pq : (p == q) ≡ false = ground (arith, unlinked j) in
      let old : (heap.next == kn) ≡ false = ground (arith, fresh.keys heap.next) in
      (n, kn, same_n q pq ∙ at_n, key_n, same_k kn old ∙ bytes_n)

  view-keep :
      (now' hz : ℕ) (next : Ptr) (nodes : Ptr → Option Node) (keys : Ptr → Option Bytes)
      → ((q : Ptr) → (p == q) ≡ false → nodes q ≡ heap.nodes q)
      → (j : Bytes)
      → view h now' hz t (record { next = next; nodes = nodes; keys = keys }) j
        ≡ view h now' hz t heap j
  unfolding view
  view-keep now' hz next nodes keys same_n j = elim (Option-cases (found_at h t j)) [
    | inl miss ↦ rw miss refl
    | inr (q, hit) ↦ rw hit (ap (live now' hz) (same_n q (ground (arith, unlinked j))))
  ]

  -- Where the key is copied and the table takes it, an insertion of a live node that no entry
  -- points to touches live objects alone and keeps the invariant. From then on the map holds the
  -- node under the key, with the time and the ttl of the insertion and until it expires, and under
  -- every other key what it held.
  pub add_to_cache_refines :
      (h.add_key_data t key p).0 ≡ pos 0
      → (t' : h.Table) × (heap' : Heap) × (add_to_cache h true now key p ttl start
          ≡ done (record { hash = some t'; heap = heap' }))
        × AllHold h t' heap'
        × IsFresh heap'
        × ((now' hz : ℕ) (j : Bytes)
            → view h now' hz t' heap' j
              ≡ (if memcmp_eq key j then live now' hz (some new_node) else view h now' hz t heap j))
  add_to_cache_refines ok = (
    (h.add_key_data t key p).1,
    new_heap,
    add_run ok,
    AllHold-add ok,
    IsFresh-add,
    λ now' hz j. view-add now' hz j ok,
  )

  -- Where the table refuses the key, the node and the copy of the key are freed, the invariant is
  -- kept, and the map is what it was.
  pub add_to_cache_refused :
      (h.add_key_data t key p).0 ≢ pos 0
      → (heap' : Heap) × (add_to_cache h true now key p ttl start
          ≡ done (record { hash = some t; heap = heap' }))
        × (heap'.nodes p ≡ none)
        × (heap'.keys heap.next ≡ none)
        × AllHold h t heap'
        × ((now' hz : ℕ) (j : Bytes) → view h now' hz t heap' j ≡ view h now' hz t heap j)
  add_to_cache_refused no_room =
      let same_nodes : (q : Ptr) → (p == q) ≡ false → back_heap.nodes q ≡ heap.nodes q =
        λ q ne. rw ne refl in
      let same_keys : (q : Ptr) → (heap.next == q) ≡ false → back_heap.keys q ≡ heap.keys q =
        λ q ne. rw ne refl in
      (
        back_heap,
        refused_run no_room ∙ ap with_table (laws.add_failed t key p no_room),
        update_self new_heap.nodes p none,
        update_self new_heap.keys heap.next none,
        AllHold-keep back_heap.nodes back_heap.keys same_nodes same_keys,
        λ now' hz j. view-keep now' hz back_heap.next back_heap.nodes back_heap.keys same_nodes j,
      )

  -- Where the key cannot be copied, the node is freed and the map is what it was.
  pub add_to_cache_no_memory :
      (heap' : Heap) × (add_to_cache h false now key p ttl start
        ≡ done (record { hash = some t; heap = heap' }))
      × (heap'.nodes p ≡ none)
      × ((now' hz : ℕ) (j : Bytes) → view h now' hz t heap' j ≡ view h now' hz t heap j)
  unfolding add_to_cache free_node
  add_to_cache_no_memory =
      let same_nodes : (q : Ptr) → (p == q) ≡ false → update heap.nodes p none q ≡ heap.nodes q =
        λ q ne. rw ne refl in
      (
        record heap { nodes = update heap.nodes p none },
        rw at_p refl,
        update_self heap.nodes p none,
        λ now' hz j. view-keep now' hz heap.next (update heap.nodes p none) heap.keys same_nodes j,
      )
