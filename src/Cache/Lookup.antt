-- ===== src/Cache/Lookup.antt =====
-- `lookup_dns_cache` and `lookup_ip_cache` against the map with expiry.
use grpc_server.Base.{
  ℕ, ◌<◌, ◌≡◌, ◌⊎◌, memcmp_eq_iff, refl, true, false, Option, none, some, Bytes, ℤ, pos, leb, ◌==◌,
  arith, Option-cases, Bool-cases, inl, inr,
}
use grpc_server.Base.Run.{Run, done}
use grpc_server.RteHash.{RteHash, Ptr, IsHash, found_at, enoent}
use grpc_server.Cache.{
  Node, Heap, Cache, update, age_seconds, free_node, free_key, drop_expired, check_found,
  lookup_cache,
}
use grpc_server.Cache.Invariant.{IsFresh, AllHold, view, AllHold-del, view-del, IsFresh-del}

-- What a lookup returns, when the map holds `found` under the key.
abbrev pub Answers : Option Node → ℤ × Option Ptr → Heap → Type 0
Answers none r heap = r ≡ (enoent, none)
Answers (some node) r heap =
    (i : ℕ) × (p : Ptr) × (r ≡ (pos i, some p)) × (heap.nodes p ≡ some node)

module _ (h : RteHash) (laws : IsHash h) (now hz : ℕ) (hz_pos : 0 < hz) (key : Bytes) (t : h.Table)
    (heap : Heap) (all : AllHold h t heap) (fresh : IsFresh heap) where
  -- What becomes of the entry under the key. Where there is none or it has not expired, the table and
  -- the heap are as before; an expired one is deleted, its node and its copy of the key are freed, and
  -- every other object stays.
  abbrev pub DropsExpired : h.Table → Heap → Type 0
  DropsExpired t' heap' =
      ((found_at h t key ≡ none) × (t' ≡ t) × (heap' ≡ heap))
      ⊎ ((p : Ptr) × (node : Node) × (kp : Ptr) × (found_at h t key ≡ some p)
          × (heap.nodes p ≡ some node)
          × (node.key ≡ some kp)
          × (heap.keys kp ≡ some key)
          × (((leb node.ttl_seconds (age_seconds now node.timestamp hz) ≡ false)
                × (t' ≡ t)
                × (heap' ≡ heap))
              ⊎ ((leb node.ttl_seconds (age_seconds now node.timestamp hz) ≡ true)
                  × (t' ≡ (h.del_key t key).1)
                  × (found_at h t' key ≡ none)
                  × (heap' ≡ record heap {
                    nodes = update heap.nodes p none;
                    keys = update heap.keys kp none;
                  }))))

  -- The outcome of a lookup: an answer that fits the map, the expired entry gone, the invariant, and
  -- the same map.
  abbrev pub LookupOk : Run ((ℤ × Option Ptr) × Cache h) → Type 0
  LookupOk run =
      (r : ℤ × Option Ptr) × (t' : h.Table) × (heap' : Heap) × (run
        ≡ done (r, record { hash = some t'; heap = heap' }))
      × Answers (view h now hz t heap key) r heap'
      × DropsExpired t' heap'
      × AllHold h t' heap'
      × IsFresh heap'
      × ((j : Bytes) → view h now hz t' heap' j ≡ view h now hz t heap j)

  view_miss : found_at h t key ≡ none → view h now hz t heap key ≡ none
  unfolding view
  view_miss e = rw e refl

  module _ (p : Ptr) (node : Node) (hit : found_at h t key ≡ some p)
      (at_p : heap.nodes p ≡ some node) where
    view_young :
        leb node.ttl_seconds (age_seconds now node.timestamp hz) ≡ false
        → view h now hz t heap key ≡ some node
    unfolding view
    view_young young = rw (hit, at_p, young) refl

    view_old :
        leb node.ttl_seconds (age_seconds now node.timestamp hz) ≡ true
        → view h now hz t heap key ≡ none
    unfolding view
    view_old old = rw (hit, at_p, old) refl

    check_found-young :
        (i : ℕ)
        → leb node.ttl_seconds (age_seconds now node.timestamp hz) ≡ false
        → check_found h now hz key t (pos i, some p) heap
          ≡ done ((pos i, some p), record { hash = some t; heap = heap })
    unfolding check_found
    check_found-young i young =
        let nz : (hz == 0) ≡ false = ground arith in rw (at_p, nz, young) refl

    check_found-old :
        (i q : ℕ) (kp : Ptr)
        → leb node.ttl_seconds (age_seconds now node.timestamp hz) ≡ true
        → (h.del_key t key).0 ≡ pos q
        → node.key ≡ some kp
        → heap.keys kp ≡ some key
        → check_found h now hz key t (pos i, some p) heap
          ≡ done (
            (enoent, none),
            record {
              hash = some (h.del_key t key).1;
              heap = record heap {
                nodes = update heap.nodes p none;
                keys = update heap.keys kp none;
              };
            },
          )
    unfolding check_found free_key free_node
    check_found-old i q kp old del key_p bytes_p =
        let nz : (hz == 0) ≡ false = ground arith in
        rw (at_p, nz, old, drop_expired, del, key_p, free_key, bytes_p, free_node, at_p) refl

  -- On a table that keeps the invariant, a lookup at time `now` never touches an object that is not
  -- live. It returns the node that the table holds under the key if that has not expired, and
  -- -ENOENT with no node otherwise. An expired entry is deleted from the table, and its node and its
  -- copy of the key are freed; otherwise the table and the heap are as before. The invariant is kept,
  -- and so is the map of what has not expired.
  pub lookup_cache_refines :
      LookupOk (lookup_cache h now hz key (record { hash = some t; heap = heap }))
  unfolding lookup_cache
  lookup_cache_refines = elim (Option-cases (found_at h t key)) [
    | inl miss ↦ (
      (enoent, none),
      t,
      heap,
      rw (laws.lookup_miss t key miss) refl,
      rw (view_miss miss) refl,
      inl (miss, refl, refl),
      all,
      fresh,
      λ j. refl,
    )
    | inr (p, hit) ↦
        let (node, kp, at_p, key_p, bytes_p) = all key p hit in
        let (i, e) = laws.lookup_hit t key p hit in
        elim (Bool-cases (leb node.ttl_seconds (age_seconds now node.timestamp hz))) [
          | inl old ↦
              let (q, del) = laws.del_hit t key p hit in
              (
                (enoent, none),
                (h.del_key t key).1,
                record heap { nodes = update heap.nodes p none; keys = update heap.keys kp none },
                rw e (check_found-old p node hit at_p i q kp old del key_p bytes_p),
                rw (view_old p node hit at_p old) refl,
                inr (
                  p,
                  node,
                  kp,
                  hit,
                  at_p,
                  key_p,
                  bytes_p,
                  inr (
                    old,
                    refl,
                    rw (laws.del_entries t key key, (memcmp_eq_iff key key).1 refl) refl,
                    refl,
                  ),
                ),
                AllHold-del h laws t heap all key p kp node hit at_p key_p,
                IsFresh-del heap p kp fresh,
                view-del h laws t heap all now hz key p kp node hit at_p old,
              )
          | inr young ↦ (
            (pos i, some p),
            t,
            heap,
            rw e (check_found-young p node hit at_p i young),
            rw (view_young p node hit at_p young) (i, p, refl, at_p),
            inr (p, node, kp, hit, at_p, key_p, bytes_p, inl (young, refl, refl)),
            all,
            fresh,
            λ j. refl,
          )
        ]
  ]
