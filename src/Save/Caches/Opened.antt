-- ===== src/Save/Caches/Opened.antt =====
-- What the initialisation of a cache leaves.
use grpc_server.Base.{
  ◌*◌, ◌%◌, ◌^◌, ◌<◌, ◌≡◌, ◌⊎◌, refl, Option, none, some, [], Bytes, Option-cases, inl, inr,
}
use grpc_server.Base.Run.{Run, done}
use grpc_server.RteHash.{RteHash, IsHash, Ptr, find}
use grpc_server.Cache.{Heap}
use grpc_server.Cache.Invariant.{AllHold, IsFresh}
use grpc_server.DomainCache.{copy_domain}
use grpc_server.IpCache.{Pton}
use grpc_server.Load.{Counts}
use grpc_server.Load.Rows.{load_rows-LoadOk}
use grpc_server.Save.{Tables, domain_tables, ip_tables, Sqlite}
use grpc_server.Save.Caches.{
  LoadEnv, Store, no_counts, init_tables, load_cache, init_cache, cut_row, ip_key_of_text,
  init_dns_cache, init_ip_cache,
}

-- The cache was there or cannot be created, and nothing is done; or it is there with live entries
-- alone, its database and its timer.
abbrev pub Opened :
    (s : Sqlite) (h : RteHash) → Tables → LoadEnv → Store s h → Run (Store s h) → Type 0
Opened s h ts env store run =
    ((t : h.Table) × (store.hash ≡ some t) × (run ≡ done store))
    ⊎ ((store.hash ≡ none) × (h.create ≡ none) × (run ≡ done store))
    ⊎ ((t : h.Table) × (heap : Heap) × (store.hash ≡ none)
        × (run
            ≡ done (record {
              hash = some t;
              heap = heap;
              db = init_tables s h ts;
              timer = some (env.hz * 3600 % 2 ^ 64);
            }))
        × AllHold h t heap
        × IsFresh heap)

module _ (s : Sqlite) (h : RteHash) (laws : IsHash h) (env : LoadEnv) (hz_pos : 0 < env.hz)
    (on_null : Bytes → Bytes) (key_of : Bytes → Option Bytes) (ts : Tables) where
  load_cache-AllHold :
      (db : Option s.Db) (t : h.Table) (heap : Heap)
      → AllHold h t heap
      → IsFresh heap
      → (counts : Counts) × (t' : h.Table) × (heap' : Heap) × (load_cache s h on_null key_of ts env
            db t heap
          ≡ done (counts, t', heap'))
        × AllHold h t' heap'
        × IsFresh heap'
  unfolding load_cache
  load_cache-AllHold none t heap all fresh = (no_counts, t, heap, refl, all, fresh)
  load_cache-AllHold (some db) t heap all fresh = elim (Option-cases (s.select db ts)) [
    | inl e ↦ (no_counts, t, heap, rw (e, load_cache) refl, all, fresh)
    | inr (rows, e) ↦
        let (counts, t', heap', run, total, all', fresh') =
          load_rows-LoadOk h laws on_null key_of env.garbage env.malloc_ok env.now env.hz hz_pos 0
            rows no_counts t heap all fresh in
        (counts, t', heap', rw (e, load_cache) run, all', fresh')
  ]

  init_cache-Opened :
      (store : Store s h)
      → ((t : h.Table) → h.create ≡ some t → h.entries t ≡ [])
      → IsFresh store.heap
      → Opened s h ts env store (init_cache s h on_null key_of ts env store)
  unfolding init_cache
  init_cache-Opened store empty fresh = elim (Option-cases store.hash) [
    | inr (t, e) ↦ inl (t, e, simp (e, init_cache) refl)
    | inl e ↦ elim (Option-cases h.create) [
      | inl f ↦ inr (inl (e, f, simp (e, f, init_cache) refl))
      | inr (t, f) ↦
          let all : AllHold h t store.heap = λ k p at_k.
            let at_nil : ◌≡◌ {A = Option Ptr} none (some p) =
              unfold find in (rw (empty t f) at at_k) in
            absurd (cc at_nil) in
          let (counts, t', heap, run, all', fresh') =
            load_cache-AllHold (init_tables s h ts) t store.heap all fresh in
          inr (inr (t', heap, e, rw (e, f, init_cache, run) refl, all', fresh'))
    ]
  ]

-- If `rte_hash_create` gives an empty table and the clock runs, `init_dns_cache` and `init_ip_cache`
-- do nothing where the cache is there or no table can be created. Else, whatever the database holds and
-- the allocator answers, they end with a cache all of whose entries are live, whose connection is what
-- the opening of the database left, and whose timer has the period of an hour.
pub init_caches-Opened :
    (s : Sqlite) (h : RteHash) (env : LoadEnv) (store : Store s h) (pton : Pton)
    (garbage_key : Bytes)
    → IsHash h
    → 0 < env.hz
    → ((t : h.Table) → h.create ≡ some t → h.entries t ≡ [])
    → IsFresh store.heap
    → Opened s h domain_tables env store (init_dns_cache s h env store)
      × Opened s h ip_tables env store (init_ip_cache s h pton garbage_key env store)
unfolding init_dns_cache init_ip_cache
init_caches-Opened s h env store pton garbage_key laws hz_pos empty fresh = (
  init_cache-Opened s h laws env hz_pos (λ row. row) (λ text. some (copy_domain text)) domain_tables
      store empty fresh,
  init_cache-Opened s h laws env hz_pos cut_row (ip_key_of_text pton garbage_key) ip_tables store
      empty fresh,
)
