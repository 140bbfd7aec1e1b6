-- ===== src/Load/Rows.antt =====
-- What the loading of rows keeps of a cache.
use grpc_server.Base.{
  ℕ, zero, suc, ◌+◌, ◌<◌, ◌≡◌, ◌∙◌, refl, Bool, true, false, Option, none, some, List, [], ◌∷◌,
  Bytes, pos, memcmp_eq, memcmp_eq_iff, ℤ-cases, Bool-cases, inl, inr, leb, ◌==◌, length, arith,
}
use grpc_server.Base.Run.{Run, done}
use grpc_server.RteHash.{RteHash, Ptr, IsHash, found_at}
use grpc_server.Cache.{
  Node, Heap, update, alloc_node, alloc_key, free_node, free_key, age_seconds, to_u32,
}
use grpc_server.Cache.Invariant.{IsFresh, AllHold, update_self}
use grpc_server.Load.{
  Row, LoadResult, load_ok, load_expired, load_error, Counts, count_result, to_u64, inserted,
  insert_loaded_node, finish, add_loaded, create_node_from_db_row, load_rows,
}

-- No object below `next` differs.
record SameBelow (heap heap' : Heap) : Type 0 where
  nodes : (q : Ptr) → q < heap.next → heap'.nodes q ≡ heap.nodes q
  keys : (q : Ptr) → q < heap.next → heap'.keys q ≡ heap.keys q

module _ (h : RteHash) (laws : IsHash h) (t : h.Table) (heap : Heap) (all : AllHold h t heap)
    (fresh : IsFresh heap) where
  -- the outcome of one row: it ends, and leaves a cache that keeps the invariant
  abbrev pub RowOk : Run (LoadResult × h.Table × Heap) → Type 0
  RowOk run =
      (res : LoadResult) × (t' : h.Table) × (heap' : Heap) × (run ≡ done (res, t', heap'))
      × AllHold h t' heap'
      × IsFresh heap'

  AllHold-below : (heap' : Heap) → SameBelow heap heap' → AllHold h t heap'
  AllHold-below heap' same j q fj =
      let (n, kn, at_n, key_n, bytes_n) = all j q fj in
      let q_old : q < heap.next = ground (arith, fresh.nodes q) in
      let k_old : kn < heap.next = ground (arith, fresh.keys kn) in
      (n, kn, same.nodes q q_old ∙ at_n, key_n, same.keys kn k_old ∙ bytes_n)

  module _ (node : Node) (key : Bytes) where
    abbrev p : Ptr
    p = heap.next

    abbrev kp : Ptr
    kp = heap.next + 1

    abbrev linked : Node
    linked = record node { key = some kp }

    -- the heap with the node and the copy of its key
    abbrev full : Heap
    full = record {
      next = heap.next + 1 + 1;
      nodes = update (update heap.nodes p (some node)) p (some linked);
      keys = update heap.keys kp (some key);
    }

    full-SameBelow : SameBelow heap full
    full-SameBelow = record { nodes = λ q lt. ground arith; keys = λ q lt. ground arith }

    full-IsFresh : IsFresh full
    full-IsFresh = record {
      nodes = λ q le. ground (arith, fresh.nodes q);
      keys = λ q le. ground (arith, fresh.keys q);
    }

    AllHold-full : (h.add_key_data t key p).0 ≡ pos 0 → AllHold h (h.add_key_data t key p).1 full
    AllHold-full ok j q fj = elim (Bool-cases (memcmp_eq key j)) [
      | inl same ↦
          let e : p ≡ q = ground (arith, laws.add_ok t key p j ok) in
          (linked, kp, ground arith, refl, ground (arith, memcmp_eq_iff key j))
      | inr ne ↦
          let fj' : found_at h t j ≡ some q = ground (arith, laws.add_ok t key p j ok) in
          AllHold-below full full-SameBelow j q fj'
    ]

    -- the heap after the node is freed
    abbrev dropped : Heap
    dropped = record heap {
      next = heap.next + 1;
      nodes = update (update heap.nodes p (some node)) p none;
    }

    -- ... and after both objects are freed
    abbrev emptied : Heap
    emptied = record full { nodes = update full.nodes p none; keys = update full.keys kp none }

    dropped-AllHold : AllHold h t dropped
    dropped-AllHold =
        AllHold-below dropped (record { nodes = λ q lt. ground arith; keys = λ q lt. refl })

    dropped-IsFresh : IsFresh dropped
    dropped-IsFresh = record {
      nodes = λ q le. ground (arith, fresh.nodes q);
      keys = λ q le. ground (arith, fresh.keys q);
    }

    emptied-AllHold : AllHold h t emptied
    emptied-AllHold =
        AllHold-below emptied (record { nodes = λ q lt. ground arith; keys = λ q lt. ground arith })

    emptied-IsFresh : IsFresh emptied
    emptied-IsFresh = record {
      nodes = λ q le. ground (arith, fresh.nodes q);
      keys = λ q le. ground (arith, fresh.keys q);
    }

    at_new : update heap.nodes p (some node) p ≡ some node
    at_new = update_self heap.nodes p (some node)

    at_full : full.nodes p ≡ some linked
    at_full = update_self (update heap.nodes p (some node)) p (some linked)

    key_full : full.keys kp ≡ some key
    key_full = update_self heap.keys kp (some key)

    -- a row whose categories and key are there
    insert-RowOk :
        (key_ok : Bool) (cats : List (Option Bytes))
        → RowOk (add_loaded h key_ok node (some cats) (some key) t heap)
    unfolding add_loaded insert_loaded_node finish inserted alloc_node alloc_key free_node free_key
    insert-RowOk false cats =
        (load_error, t, dropped, rw at_new refl, dropped-AllHold, dropped-IsFresh)
    insert-RowOk true cats = elim (ℤ-cases (h.add_key_data t key p).0) [
      | inl (zero, e) ↦ (
        load_ok,
        (h.add_key_data t key p).1,
        full,
        rw (at_new, inserted, e) refl,
        AllHold-full e,
        full-IsFresh,
      )
      | inl (suc i, e) ↦
          let same : (h.add_key_data t key p).1 ≡ t = laws.add_failed t key p (λ z. ground arith) in
          (
            load_ok,
            (h.add_key_data t key p).1,
            full,
            rw (at_new, inserted, e) refl,
            rw same (AllHold-below full full-SameBelow),
            full-IsFresh,
          )
      | inr (n, e) ↦
          let same : (h.add_key_data t key p).1 ≡ t = laws.add_failed t key p (λ z. ground arith) in
          (
            load_error,
            (h.add_key_data t key p).1,
            emptied,
            rw (at_new, inserted, e, key_full, at_full) refl,
            rw same emptied-AllHold,
            emptied-IsFresh,
          )
    ]

  add_loaded-RowOk :
      (key_ok : Bool) (node : Node) (cats : Option (List (Option Bytes))) (key : Option Bytes)
      → RowOk (add_loaded h key_ok node cats key t heap)
  unfolding add_loaded alloc_node free_node
  add_loaded-RowOk key_ok node none key = (
    load_error,
    t,
    dropped node [],
    rw (at_new node []) refl,
    dropped-AllHold node [],
    dropped-IsFresh node [],
  )
  add_loaded-RowOk key_ok node (some cats) none = (
    load_error,
    t,
    dropped node [],
    rw (at_new node []) refl,
    dropped-AllHold node [],
    dropped-IsFresh node [],
  )
  add_loaded-RowOk key_ok node (some cats) (some key) = insert-RowOk node key key_ok cats

  create-RowOk :
      (on_null : Bytes → Bytes) (key_of : Bytes → Option Bytes) (garbage : Node) (ok : Bool × Bool)
      (now hz : ℕ) (row : Row)
      → 0 < hz
      → RowOk (create_node_from_db_row h on_null key_of garbage ok now hz row t heap)
  unfolding create_node_from_db_row
  create-RowOk on_null key_of garbage (node_ok, key_ok) now hz row pos_hz =
      let nz : (hz == 0) ≡ false = ground arith in
      elim (Bool-cases (leb (to_u32 row.ttl_seconds) (age_seconds now (to_u64 row.timestamp) hz))) [
        | inl old ↦ (load_expired, t, heap, rw (nz, old) refl, all, fresh)
        | inr young ↦ elim (Bool-cases node_ok) [
          | inr fails ↦ (load_error, t, heap, rw (nz, young, fails) refl, all, fresh)
          | inl given ↦
              rw (nz, young, given) (add_loaded-RowOk key_ok _ row.categories (key_of row.text))
        ]
      ]

abbrev total : Counts → ℕ
total c = c.loaded + c.expired + c.errors

total-count_result : (res : LoadResult) (c : Counts) → total (count_result res c) ≡ total c + 1
unfolding count_result
total-count_result load_ok c = omega arith
total-count_result load_expired c = omega arith
total-count_result load_error c = omega arith

-- What loading may do: it ends, every row is counted once, and the cache keeps the invariant.
abbrev pub LoadOk : (h : RteHash) → ℕ → Counts → Run (Counts × h.Table × Heap) → Type 0
LoadOk h n before run =
    (counts : Counts) × (t' : h.Table) × (heap' : Heap) × (run ≡ done (counts, t', heap'))
    × (counts.loaded + counts.expired + counts.errors
        ≡ before.loaded + before.expired + before.errors + n)
    × AllHold h t' heap'
    × IsFresh heap'

module _ (h : RteHash) (laws : IsHash h) (on_null : Bytes → Bytes) (key_of : Bytes → Option Bytes)
    (garbage : ℕ → Node) (malloc_ok : ℕ → Bool × Bool) (now hz : ℕ) (hz_pos : 0 < hz) where
  -- On a cache that keeps the invariant, over a hash table with the documented behaviour and with a
  -- running clock: whatever the database holds and the allocator answers, loading any rows touches
  -- live objects alone, counts each row once as loaded, expired or failed, and leaves a cache that
  -- keeps the invariant.
  pub load_rows-LoadOk :
      (i : ℕ) (rows : List Row) (counts : Counts) (t : h.Table) (heap : Heap)
      → AllHold h t heap
      → IsFresh heap
      → LoadOk h
          (length rows)
          counts
          (load_rows h on_null key_of garbage malloc_ok now hz i rows counts t heap)
  unfolding load_rows
  load_rows-LoadOk i [] counts t heap all fresh = (counts, t, heap, refl, omega arith, all, fresh)
  load_rows-LoadOk i (row ∷ rows) counts t heap all fresh =
      let (res, t1, heap1, run1, all1, fresh1) =
        create-RowOk h laws t heap all fresh on_null key_of (garbage i) (malloc_ok i) now hz row
          hz_pos in
      let (counts2, t2, heap2, run2, sum, all2, fresh2) =
        load_rows-LoadOk (suc i) rows (count_result res counts) t1 heap1 all1 fresh1 in
      (
        counts2,
        t2,
        heap2,
        rw run1 run2,
        omega (arith, sum, total-count_result res counts),
        all2,
        fresh2,
      )
