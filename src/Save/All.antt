-- ===== src/Save/All.antt =====
-- What the saving of a whole cache leaves in the database.
use grpc_server.Base.{
  ℕ, suc, ◌+◌, ◌<◌, ◌≡◌, ◌⊎◌, ◌∙◌, refl, sym, ap, false, Option, some, List, [], ◌∷◌, Bytes, c_str,
  memcmp_eq, length, Bool-cases, inl, inr, arith,
}
use grpc_server.Base.Run.{Run, done, fault}
use grpc_server.RteHash.{RteHash, IsHash, Ptr, DistinctKeys}
use grpc_server.Cache.{Node, Heap}
use grpc_server.Cache.Invariant.{AllHold}
use grpc_server.Cache.Release.{EntriesHold, find_first, find_rest}
use grpc_server.Save.{
  Tables, begin_transaction, commit, Snapshot, View, Sqlite, is_ok, save_single_node, save_rows,
  copy_data_from_hash_to_snapshot, SaveEnd, not_begun, not_committed, saved, save_snapshot,
  save_all_cache,
}
use grpc_server.Save.Database.{IsSqlite, set_at, same_tables_refl}
use grpc_server.Save.Single.{entry_of, save_single_node-Saved}

-- The nodes of all entries are live.
abbrev pub NodesHeld : List (Bytes × Ptr) → Heap → Type 0
NodesHeld [] heap = Unit
NodesHeld ((key, p) ∷ entries) heap =
    ((node : Node) × (heap.nodes p ≡ some node)) × NodesHeld entries heap

-- the copies of the entries
abbrev pub copies :
    (Bytes → Bytes)
    → (entries : List (Bytes × Ptr)) (heap : Heap) → NodesHeld entries heap
    → List Snapshot
copies copy_key [] heap held = []
copies copy_key ((key, p) ∷ entries) heap held =
    record { key = copy_key key; node = held.0.0 } ∷ copies copy_key entries heap held.1

length-copies :
    (copy_key : Bytes → Bytes) (entries : List (Bytes × Ptr)) (heap : Heap)
    (held : NodesHeld entries heap)
    → length (copies copy_key entries heap held) ≡ length entries
length-copies copy_key [] heap held = refl
length-copies copy_key ((key, p) ∷ entries) heap held =
    ap suc (length-copies copy_key entries heap held.1)

suc_inj : (a b : ℕ) → suc a ≡ suc b → a ≡ b
suc_inj a b h = omega arith

copy_data-copies :
    (copy_key : Bytes → Bytes) (entries : List (Bytes × Ptr)) (heap : Heap)
    (held : NodesHeld entries heap) (counted : List Snapshot)
    → length counted ≡ length entries
    → copy_data_from_hash_to_snapshot copy_key entries heap counted
      ≡ done (copies copy_key entries heap held)
unfolding copy_data_from_hash_to_snapshot
copy_data-copies copy_key [] heap held [] h = refl
copy_data-copies copy_key [] heap held (row ∷ counted) h = absurd (ground arith)
copy_data-copies copy_key (entry ∷ entries) heap held [] h = absurd (ground arith)
copy_data-copies copy_key ((key, p) ∷ entries) heap ((node, at_p), held) (row ∷ counted) h =
    rw (at_p, copy_data-copies copy_key entries heap held counted (suc_inj _ _ h)) refl

-- more entries than rows
copy_data_overflow :
    (copy_key : Bytes → Bytes) (entries : List (Bytes × Ptr)) (heap : Heap)
    (counted : List Snapshot)
    → NodesHeld entries heap
    → length counted < length entries
    → copy_data_from_hash_to_snapshot copy_key entries heap counted ≡ fault
unfolding copy_data_from_hash_to_snapshot
copy_data_overflow copy_key [] heap counted held h = absurd (ground arith)
copy_data_overflow copy_key (entry ∷ entries) heap [] held h = refl
copy_data_overflow copy_key ((key, p) ∷ entries) heap (row ∷ counted) ((node, at_p), held) h =
    rw (at_p, copy_data_overflow copy_key entries heap counted held (omega arith)) refl

-- the tables after all rows of a snapshot
abbrev pub view_after : Tables → List Snapshot → View → View
view_after ts [] v = v
view_after ts (r ∷ rows) v = view_after ts rows (set_at ts (c_str r.key) (entry_of r.node) v)

module _ (s : Sqlite) (laws : IsSqlite s) (tables : Tables) where
  -- Every row is counted once, and without an error the tables hold all of them.
  abbrev RowsSaved : List Snapshot → ℕ → ℕ → s.Db → ℕ × ℕ × s.Db → Type 0
  RowsSaved rows records errors db (records', errors', db') =
      (records' + errors' ≡ records + errors + length rows)
      × ((errors < errors')
          ⊎ ((errors' ≡ errors) × (s.view db' ≡ view_after tables rows (s.view db))))

  save_rows-Saved :
      (rows : List Snapshot) (records errors : ℕ) (db : s.Db)
      → RowsSaved rows records errors db (save_rows s tables rows records errors db)
  unfolding save_rows
  save_rows-Saved [] records errors db = (omega arith, inr (refl, refl))
  save_rows-Saved (r ∷ rows) records errors db =
      let db' = (save_single_node s tables r.key r.node db).1 in
      elim (Bool-cases (is_ok (save_single_node s tables r.key r.node db).0)) [
        | inl e ↦
            let (total, rest) = save_rows-Saved rows (records + 1) errors db' in
            rw (e, save_rows)
              (
                omega arith,
                elim rest [
                  | inl more ↦ inl more
                  | inr (same, v) ↦ inr (
                    same,
                    v
                        ∙ ap (view_after tables rows)
                            (save_single_node-Saved s laws tables r.key r.node db e),
                  )
                ],
              )
        | inr e ↦
            let (total, rest) = save_rows-Saved rows records (errors + 1) db' in
            rw (e, save_rows)
              (
                omega arith,
                elim rest [ inl more ↦ inl (omega arith) | inr (same, v) ↦ inl (omega arith) ],
              )
      ]

-- The end of a saving that reaches the transaction: every entry is counted once, and without an error
-- the tables hold all of them and the rest as before.
abbrev pub Ended : (s : Sqlite) → Tables → List Snapshot → s.Db → SaveEnd × Option s.Db → Type 0
Ended s ts rows db (saved records errors, some db') =
    (records + errors ≡ length rows)
    × ((0 < errors) ⊎ ((errors ≡ 0) × (s.view db' ≡ view_after ts rows (s.view db))))
Ended s ts rows db (not_begun ret, db') = is_ok ret ≡ false
Ended s ts rows db (not_committed ret, db') = is_ok ret ≡ false
Ended s ts rows db (_, _) = ⊥

module _ (s : Sqlite) (laws : IsSqlite s) (tables : Tables) (h : RteHash)
    (copy_key : Bytes → Bytes) where
  save_snapshot-Ended :
      (rows : List Snapshot) (db : s.Db)
      → let (end_, db') = save_snapshot s tables h copy_key rows db in
        Ended s tables rows db (end_, some db')
  unfolding save_snapshot
  save_snapshot-Ended rows db =
      let db1 = (s.exec db begin_transaction).1 in
      let (records, errors, db2) = save_rows s tables rows 0 0 db1 in
      elim (Bool-cases (is_ok (s.exec db begin_transaction).0)) [
        | inr e ↦ rw e e
        | inl e ↦ elim (Bool-cases (is_ok (s.exec db2 commit).0)) [
          | inr f ↦ rw (e, f) f
          | inl f ↦
              let (total, rest) = save_rows-Saved s laws tables rows 0 0 db1 in
              rw (e, f)
                (
                  omega arith,
                  elim rest [
                    | inl more ↦ inl more
                    | inr (same, v) ↦ inr (
                      same,
                      laws.commit_ok db2 f ∙ v ∙ ap (view_after tables rows) (laws.begin_ok db e),
                    )
                  ],
                )
        ]
      ]

done_inj {ℓ} : {A : Type ℓ} {a b : A} → ◌≡◌ {A = Run A} (done a) (done b) → a ≡ b
done_inj e = cc

-- No row of a snapshot has the text.
abbrev pub NotAmong : Bytes → List Snapshot → Type 0
NotAmong key [] = Unit
NotAmong key (r ∷ rows) = (memcmp_eq (c_str r.key) key ≡ false) × NotAmong key rows

view_after_other :
    (ts : Tables) (key : Bytes) (rows : List Snapshot) (v : View)
    → NotAmong key rows
    → view_after ts rows v ts key ≡ v ts key
view_after_other ts key [] v h = refl
view_after_other ts key (r ∷ rows) v (ne, h) =
    view_after_other ts key rows (set_at ts (c_str r.key) (entry_of r.node) v) h
    ∙ rw (same_tables_refl ts, ne) refl

-- the entries of a cache that keeps its invariant
pub AllHold-NodesHeld :
    (entries : List (Bytes × Ptr)) (heap : Heap)
    → DistinctKeys entries
    → EntriesHold entries heap
    → NodesHeld entries heap
AllHold-NodesHeld [] heap distinct hold = tt
AllHold-NodesHeld ((key, p) ∷ entries) heap distinct hold =
    let (node, kp, at_p, key_p, bytes_p) = hold key p (find_first key p entries) in
    (
      (node, at_p),
      AllHold-NodesHeld entries heap distinct.1
          (λ j q fj. hold j q (find_rest key j p q entries distinct.0 fj).1),
    )

module _ (s : Sqlite) (laws : IsSqlite s) (tables : Tables) (h : RteHash) (hash_laws : IsHash h)
    (copy_key : Bytes → Bytes) where
  abbrev pub table_copies : (t : h.Table) (heap : Heap) → AllHold h t heap → List Snapshot
  table_copies t heap all =
      copies copy_key (h.entries t) heap
        (AllHold-NodesHeld (h.entries t) heap (hash_laws.distinct t) all)

  -- Of an open cache that keeps its invariant and whose entries are as many as were counted, a saving
  -- comes to its end: a transaction that does not begin or is not committed, or one in which every entry
  -- is a record or an error; with no error, each entry's text has its row and its categories in the
  -- tables, where texts are equal those of the later entry, and all else in the tables is as it was.
  pub save_all_cache-Ended :
      (t : h.Table) (db : s.Db) (counted : List Snapshot) (heap : Heap) (all : AllHold h t heap)
      → length counted ≡ length (h.entries t)
      → (out : SaveEnd × Option s.Db) × (save_all_cache s tables h copy_key
            (some t)
            (some db)
            counted
            heap
          ≡ done out)
        × Ended s tables (table_copies t heap all) db out
  unfolding save_all_cache
  save_all_cache-Ended t db counted heap all same =
      let held = AllHold-NodesHeld (h.entries t) heap (hash_laws.distinct t) all in
      let rows = copies copy_key (h.entries t) heap held in
      let (end_, db') = save_snapshot s tables h copy_key rows db in
      (
        (end_, some db'),
        rw (copy_data-copies copy_key (h.entries t) heap held counted same) refl,
        save_snapshot-Ended s laws tables h copy_key rows db,
      )

  -- If a cache that keeps its invariant has more entries once the lock is taken than were counted
  -- before, the snapshot is written outside its memory.
  pub save_all_cache_overflow :
      (t : h.Table) (db : s.Db) (counted : List Snapshot) (heap : Heap)
      → AllHold h t heap
      → length counted < length (h.entries t)
      → save_all_cache s tables h copy_key (some t) (some db) counted heap ≡ fault
  unfolding save_all_cache
  save_all_cache_overflow t db counted heap all more =
      rw
        (copy_data_overflow copy_key (h.entries t) heap counted
          (AllHold-NodesHeld (h.entries t) heap (hash_laws.distinct t) all) more)
        refl

  -- A saving without errors of a cache that keeps its invariant leaves the rows of texts that the cache
  -- does not have: what was removed from the cache or cleared stays in the tables.
  save_all_cache_keeps_stale :
      (t : h.Table) (db db' : s.Db) (counted : List Snapshot) (heap : Heap) (all : AllHold h t heap)
      (records : ℕ) (key : Bytes)
      → length counted ≡ length (h.entries t)
      → save_all_cache s tables h copy_key (some t) (some db) counted heap
        ≡ done (saved records 0, some db')
      → NotAmong key (table_copies t heap all)
      → s.view db' tables key ≡ s.view db tables key
  save_all_cache_keeps_stale t db db' counted heap all records key same run other =
      let (out, run', end_) = save_all_cache-Ended t db counted heap all same in
      let e : out ≡ (saved records 0, some db') = done_inj (sym run' ∙ run) in
      elim (rw e at end_).1 [
        | inl some_errors ↦ absurd (omega arith)
        | inr (none_failed, v) ↦
            ap (λ (w : View). w tables key) v
            ∙ view_after_other tables key (table_copies t heap all) (s.view db) other
      ]
