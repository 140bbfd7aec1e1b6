-- ===== src/Save/Caches/Released.antt =====
-- `free_dns_cache` and `free_ip_cache`: the end of a cache.
use grpc_server.Base.{◌⊎◌, List, [], ◌∷◌, Bytes, ◌≡◌, refl, Option, none, some, inl, inr}
use grpc_server.Base.Run.{
  Run, or_fault, Gives-or_fault, done, ◌>>=◌, Gives, Gives-then, Gives-weaken, Ends,
}
use grpc_server.RteHash.{RteHash, IsHash, Ptr}
use grpc_server.Cache.{Heap, free_entries}
use grpc_server.Cache.Ends.{Ends-bind, Ends-free_entries}
use grpc_server.Cache.Invariant.{AllHold}
use grpc_server.Cache.Release.{Freed, free_entries-Freed}
use grpc_server.Save.{Sqlite, Tables, Snapshot, copy_data_from_hash_to_snapshot, save_all_cache}
use grpc_server.Save.Caches.{Store, close_sqlite}

module _ (s : Sqlite) (h : RteHash) where
  -- The nodes and keys are freed, the table is freed, the connection closed and the timer stopped;
  -- whatever rte_timer_stop returns is only logged.
  unfoldable pub free_store : Store s h → Run (Store s h)
  free_store store = elim store.hash [
    | none ↦ done store
    | some t ↦ do
      heap ← free_entries h (h.entries t) store.heap
      done (record (close_sqlite s h store) { hash = none; heap = heap; timer = none })
  ]

  abbrev pub free_dns_cache : Store s h → Run (Store s h)
  free_dns_cache store = free_store store

  abbrev pub free_ip_cache : Store s h → Run (Store s h)
  free_ip_cache store = free_store store

  -- no table, no connection and no timer
  pub record IsShut (store : Store s h) : Type 0 where
    pub hash : store.hash ≡ none
    pub db : store.db ≡ none
    pub timer : store.timer ≡ none

  -- Freeing a cache that keeps the invariant, over a hash table that behaves as documented, frees
  -- every node and every key that its table points to, each of them once, touches no other node,
  -- and leaves no table, no connection and no timer.
  pub free_store-Freed :
      IsHash h
      → (store : Store s h) (t : h.Table) → store.hash ≡ some t
      → AllHold h t store.heap
      → (store' : Store s h) × (free_store store ≡ done store')
        × IsShut store'
        × Freed (h.entries t) store.heap store'.heap
  unfolding free_store close_sqlite
  free_store-Freed laws store t at_t all =
      let (heap, run, f) = free_entries-Freed h (h.entries t) store.heap (laws.distinct t) all in
      (
        record store { hash = none; heap = heap; db = none; timer = none },
        rw (at_t, run) refl,
        record { hash = refl; db = refl; timer = refl },
        f,
      )

  -- A cache that has a table, or has nothing, has nothing after it is freed.
  pub free_store-IsShut :
      (store : Store s h)
      → ((t : h.Table) × (store.hash ≡ some t)) ⊎ IsShut store
      → Gives IsShut (free_store store)
  unfolding free_store close_sqlite
  free_store-IsShut store (inl (t, at_t)) = rw at_t (
      Gives-then (λ _. Unit) IsShut (free_entries h (h.entries t) store.heap) _
        (Ends-free_entries h (h.entries t) store.heap)
        (λ heap u. record { hash = refl; db = refl; timer = refl }))
  free_store-IsShut store (inr shut) =
      let same : free_store store ≡ done store = simp (shut.hash, free_store) refl in rw same shut

some-ne-none {ℓ} : {A : Type ℓ} {a : A} → some a ≡ none → ⊥
some-ne-none e = cc

Ends-copy_data :
    (copy_key : Bytes → Bytes) (entries : List (Bytes × Ptr)) (heap : Heap) (snapt : List Snapshot)
    → Ends (copy_data_from_hash_to_snapshot copy_key entries heap snapt)
unfolding copy_data_from_hash_to_snapshot
Ends-copy_data copy_key [] heap snapt = tt
Ends-copy_data copy_key (entry ∷ entries) heap [] = tt
Ends-copy_data copy_key ((key, p) ∷ entries) heap (row ∷ snapt) =
    Ends-bind (or_fault (heap.nodes p)) _ (Gives-or_fault _ (heap.nodes p) (λ _. tt)) (λ node.
      Ends-bind (copy_data_from_hash_to_snapshot copy_key entries heap snapt) _
        (Ends-copy_data copy_key entries heap snapt) (λ rest. tt))

Ends-save_all_cache :
    (s : Sqlite) (ts : Tables) (h : RteHash) (copy_key : Bytes → Bytes) (t : Option h.Table)
    (db : Option s.Db) (counted : List Snapshot) (heap : Heap)
    → Ends (save_all_cache s ts h copy_key t db counted heap)
unfolding save_all_cache
Ends-save_all_cache s ts h copy_key none db counted heap = tt
Ends-save_all_cache s ts h copy_key (some t) none counted heap = tt
Ends-save_all_cache s ts h copy_key (some t) (some db) counted heap =
    Ends-bind (copy_data_from_hash_to_snapshot copy_key (h.entries t) heap counted) _
      (Ends-copy_data copy_key (h.entries t) heap counted) (λ snapt. tt)

-- A saving ends, and leaves the connection of a cache without a table alone.
pub Gives-save_all_cache :
    (s : Sqlite) (ts : Tables) (h : RteHash) (copy_key : Bytes → Bytes) (t : Option h.Table)
    (db : Option s.Db) (counted : List Snapshot) (heap : Heap)
    → Gives (λ out. t ≡ none → out.1 ≡ db) (save_all_cache s ts h copy_key t db counted heap)
unfolding save_all_cache
Gives-save_all_cache s ts h copy_key none db counted heap = λ e. refl
Gives-save_all_cache s ts h copy_key (some t) db counted heap =
    Gives-weaken (λ _. Unit) _ (save_all_cache s ts h copy_key (some t) db counted heap)
      (Ends-save_all_cache s ts h copy_key (some t) db counted heap)
      (λ out u e. absurd (some-ne-none e))
