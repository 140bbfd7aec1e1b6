-- ===== src/Cache/Roundtrip.antt =====
-- A lookup after an insertion.
use grpc_server.Base.{
  ℕ, ◌<◌, ◌≡◌, ◌≢◌, ◌∙◌, refl, true, false, none, some, Bytes, memcmp_eq_iff, ℤ, pos, leb,
}
use grpc_server.Base.Run.{done, ◌>>=◌}
use grpc_server.RteHash.{RteHash, Ptr, IsHash, found_at, enoent}
use grpc_server.Cache.{Node, Heap, Cache, age_seconds, add_to_cache, lookup_cache}
use grpc_server.Cache.Invariant.{IsFresh, AllHold, view}
use grpc_server.Cache.Lookup.{Answers, lookup_cache_refines}
use grpc_server.Cache.Insert.{new_node, start, add_to_cache_refines}

module _ (h : RteHash) (laws : IsHash h) (now : ℕ) (ttl : ℤ) (key : Bytes) (p : Ptr) (t : h.Table)
    (heap : Heap) (node : Node) (all : AllHold h t heap) (fresh : IsFresh heap)
    (at_p : heap.nodes p ≡ some node) (unlinked : (k : Bytes) → found_at h t k ≢ some p)
    (ok : (h.add_key_data t key p).0 ≡ pos 0) (later hz : ℕ) (hz_pos : 0 < hz) where
  abbrev inserted : Node
  inserted = new_node h laws now ttl key p t heap node all fresh at_p unlinked

  abbrev begin : Cache h
  begin = start h laws now ttl key p t heap node all fresh at_p unlinked

  -- After an insertion that the table takes, a lookup of the key at a time when the node has not
  -- expired returns a pointer to the node that was inserted, with its decision.
  pub lookup-add :
      leb inserted.ttl_seconds (age_seconds later now hz) ≡ false
      → (c : Cache h) × (i : ℕ) × (q : Ptr) × (((add_to_cache h true now key p ttl begin)
            >>= lookup_cache h later hz key)
          ≡ done ((pos i, some q), c))
        × (c.heap.nodes q ≡ some inserted)
  lookup-add young =
      let (t1, heap1, run1, all1, fresh1, view1) =
        add_to_cache_refines h laws now ttl key p t heap node all fresh at_p unlinked ok in
      let (r, t2, heap2, run2, answer, dropped, all2, fresh2, view2) =
        lookup_cache_refines h laws later hz hz_pos key t1 heap1 all1 fresh1 in
      let e : view h later hz t1 heap1 key ≡ some inserted =
        view1 later hz key ∙ rw ((memcmp_eq_iff key key).1 refl, young) refl in
      let answer' : Answers (some inserted) r heap2 = rw e at answer in
      let (i, q, r_eq, at_q) = answer' in
      (record { hash = some t2; heap = heap2 }, i, q, rw (run1, run2, r_eq) refl, at_q)

  -- After an insertion that the table takes, a lookup of the key at a time when the node has expired
  -- returns -ENOENT with no node.
  pub lookup-add_expired :
      leb inserted.ttl_seconds (age_seconds later now hz) ≡ true
      → (c : Cache h) × (((add_to_cache h true now key p ttl begin) >>= lookup_cache h later hz key)
          ≡ done ((enoent, none), c))
  lookup-add_expired old =
      let (t1, heap1, run1, all1, fresh1, view1) =
        add_to_cache_refines h laws now ttl key p t heap node all fresh at_p unlinked ok in
      let (r, t2, heap2, run2, answer, dropped, all2, fresh2, view2) =
        lookup_cache_refines h laws later hz hz_pos key t1 heap1 all1 fresh1 in
      let e : view h later hz t1 heap1 key ≡ none =
        view1 later hz key ∙ rw ((memcmp_eq_iff key key).1 refl, old) refl in
      let answer' : Answers none r heap2 = rw e at answer in
      (record { hash = some t2; heap = heap2 }, rw (run1, run2, answer') refl)
