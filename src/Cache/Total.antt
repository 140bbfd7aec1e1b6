-- ===== src/Cache/Total.antt =====
-- An insertion of a new node always comes to its end and keeps the invariant, whatever the allocator
-- and the table answer.
use grpc_server.Base.{
  ◌≡◌, ◌≢◌, ◌⊎◌, ◌∙◌, ◌+◌, zero, suc, refl, Bool, true, false, none, some, Bytes, ℤ, ℕ, pos, negsuc,
  arith, inl, inr,
}
use grpc_server.Base.Run.{done}
use grpc_server.RteHash.{RteHash, Ptr, IsHash, found_at}
use grpc_server.Cache.{Node, Heap, Cache, update, alloc_node, free_node, add_to_cache}
use grpc_server.Cache.Invariant.{IsFresh, AllHold, update_self}
use grpc_server.Cache.Insert.{back_heap, refused_run, AllHold-keep, add_to_cache_refines}

-- a cache with a table that keeps the invariant
abbrev pub IsSound : (h : RteHash) → Cache h → Type 0
IsSound h c =
    (t : h.Table) × (heap : Heap) × (c ≡ record { hash = some t; heap = heap })
    × AllHold h t heap
    × IsFresh heap

is_zero : (r : ℤ) → (r ≡ pos 0) ⊎ (r ≢ pos 0)
is_zero (pos zero) = inl refl
is_zero (pos (suc i)) = inr (λ e. ground arith)
is_zero (negsuc n) = inr (λ e. ground arith)

module _ (h : RteHash) (laws : IsHash h) (now : ℕ) (ttl : ℤ) (key : Bytes) (t : h.Table) where
  module _ (p : Ptr) (heap : Heap) (node : Node) (all : AllHold h t heap) (fresh : IsFresh heap)
      (at_p : heap.nodes p ≡ some node) (unlinked : (k : Bytes) → found_at h t k ≢ some p) where
    add_to_cache-IsSound :
        (malloc_ok : Bool)
        → (c : Cache h) × (add_to_cache h malloc_ok now key p ttl
              (record { hash = some t; heap = heap })
            ≡ done c)
          × IsSound h c
    unfolding add_to_cache free_node
    add_to_cache-IsSound true = elim (is_zero (h.add_key_data t key p).0) [
      | inl ok ↦
          let (t', heap', run, all', fresh', same) =
            add_to_cache_refines h laws now ttl key p t heap node all fresh at_p unlinked ok in
          (record { hash = some t'; heap = heap' }, run, (t', heap', refl, all', fresh'))
      | inr full ↦
          let back = back_heap h laws now ttl key p t heap node all fresh at_p unlinked in
          (
            record { hash = some t; heap = back },
            refused_run h laws now ttl key p t heap node all fresh at_p unlinked full
                ∙ rw (laws.add_failed t key p full) refl,
            (
              t,
              back,
              refl,
              AllHold-keep h laws now ttl key p t heap node all fresh at_p unlinked back.nodes
                  back.keys (λ q ne. rw ne refl) (λ q ne. rw ne refl),
              record {
                nodes = λ q le. ground (arith, fresh.nodes q, fresh.nodes p);
                keys = λ q le. ground (arith, fresh.keys q);
              },
            ),
          )
    ]
    add_to_cache-IsSound false =
        let nodes = update heap.nodes p none in
        let back : Heap = record heap { nodes = nodes } in
        (
          record { hash = some t; heap = back },
          rw at_p refl,
          (
            t,
            back,
            refl,
            AllHold-keep h laws now ttl key p t heap node all fresh at_p unlinked nodes heap.keys
                (λ q ne. rw ne refl) (λ q ne. refl),
            record { nodes = λ q le. ground (arith, fresh.nodes q); keys = fresh.keys },
          ),
        )

  -- a node that was just allocated
  pub add_new-IsSound :
      (heap : Heap) (node : Node)
      → AllHold h t heap
      → IsFresh heap
      → (malloc_ok : Bool)
      → (c : Cache h) × (add_to_cache h malloc_ok now key
            (alloc_node node heap).0
            ttl
            (record { hash = some t; heap = (alloc_node node heap).1 })
          ≡ done c)
        × IsSound h c
  unfolding alloc_node
  add_new-IsSound heap node all fresh malloc_ok =
      let heap1 : Heap = record heap {
        next = heap.next + 1;
        nodes = update heap.nodes heap.next (some node);
      } in
      let free : heap.nodes heap.next ≡ none = fresh.nodes heap.next (omega arith) in
      let all1 : AllHold h t heap1 = λ j q fj.
        let (n, kn, at_n, key_n, bytes_n) = all j q fj in (n, kn, ground arith, key_n, bytes_n) in
      let fresh1 : IsFresh heap1 = record {
        nodes = λ q le. ground (arith, fresh.nodes q);
        keys = λ q le. ground (arith, fresh.keys q);
      } in
      let unlinked : (k : Bytes) → found_at h t k ≢ some heap.next =
        λ k found. let (n, kn, at_n, key_n, bytes_n) = all k heap.next found in ground arith in
      add_to_cache-IsSound heap.next heap1 node all1 fresh1
        (update_self heap.nodes heap.next (some node)) unlinked malloc_ok
