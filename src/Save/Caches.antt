-- ===== src/Save/Caches.antt =====
-- The functions on the two databases by the names of domain_cache.c and ip_cache.c: the opening, the
-- loading, the saving of one node and of all, and the closing.
pub mod Opened
pub mod Released
use grpc_server.Base.{
  ℕ, ◌+◌, ◌*◌, ◌%◌, ◌^◌, ◌<◌, ◌≡◌, ◌⊎◌, refl, Bool, Option, none, some, List, [], ◌∷◌, ◌++◌, Bytes,
  ℤ, c_str, take, drop, get_elem?, ◌==◌, Option-cases, inl, inr, if◌then◌else◌, arith,
}
use grpc_server.Base.Run.{Run, done, ◌>>=◌}
use grpc_server.RteHash.{RteHash, IsHash, Ptr, found_at, find}
use grpc_server.Cache.{Node, Heap}
use grpc_server.Cache.Invariant.{AllHold, IsFresh}
use grpc_server.DomainCache.{strncpy, copy_domain}
use grpc_server.IpCache.{Pton, IpKey, key_bytes, ip_str_to_key}
use grpc_server.Load.{
  Row, Counts, LoadResult, insert_loaded_node, put_categories, create_node_from_db_row, load_rows,
}
use grpc_server.Load.Rows.{load_rows-LoadOk}
use grpc_server.Save.{
  Tables, domain_tables, ip_tables, Sql, foreign_keys, create_main, create_categories, Sqlite,
  is_ok, and_then, insert_main_record, delete_old_categories, insert_categories, save_single_node,
  save_all_cache, copy_data_from_hash_to_snapshot, Snapshot, SaveEnd,
}

-- What the loading takes from outside: the memory of each round and whether there is any, the clock.
pub record LoadEnv : Type 0 where
  pub garbage : ℕ → Node
  pub malloc_ok : ℕ → Bool × Bool
  pub now : ℕ
  pub hz : ℕ

-- the static variables of a cache; `timer` is the period of the timer that saves it
pub record Store (s : Sqlite) (h : RteHash) : Type 0 where
  pub hash : Option h.Table
  pub heap : Heap
  pub db : Option s.Db
  pub timer : Option ℕ

abbrev pub no_counts : Counts
no_counts = record { loaded = 0; expired = 0; errors = 0 }

module _ (s : Sqlite) (h : RteHash) where
  -- the statements of `init_tables_sqlite_dns_cache` and `init_tables_sqlite_ip_cache`
  unfoldable pub create_tables : Tables → s.Db → s.Db
  create_tables tables db =
      (and_then
        (and_then (s.exec db (create_main tables)) (λ db1. s.exec db1 (create_categories tables)))
        (λ db2. s.exec db2 foreign_keys)).1

  unfoldable pub init_tables : Tables → Option s.Db
  unfolding create_tables
  init_tables tables =
      let (ret, db) = s.open_db tables in
      if is_ok ret then elim db [ none ↦ none | some db1 ↦ some (create_tables tables db1) ] else db

  -- the loading of a cache: the counts, where the query can be prepared, and the table
  unfoldable pub load_cache :
      (Bytes → Bytes)
      → (Bytes → Option Bytes)
      → Tables
      → LoadEnv
      → Option s.Db
      → h.Table
      → Heap
      → Run (Counts × h.Table × Heap)
  load_cache on_null key_of ts env none t heap = done (no_counts, t, heap)
  load_cache on_null key_of ts env (some db) t heap = elim (s.select db ts) [
    | none ↦ done (no_counts, t, heap)
    | some rows ↦
        load_rows h on_null key_of env.garbage env.malloc_ok env.now env.hz 0 rows no_counts t heap
  ]

  unfoldable pub init_cache :
      (Bytes → Bytes) → (Bytes → Option Bytes) → Tables → LoadEnv → Store s h → Run (Store s h)
  unfolding load_cache init_tables
  init_cache on_null key_of tables env store = elim store.hash [
    | some t ↦ done store
    | none ↦ elim h.create [
      | none ↦ done store
      | some t ↦ do
        let db = init_tables tables
        (counts, t', heap) ← load_cache on_null key_of tables env db t store.heap
        done
            (record { hash = some t'; heap = heap; db = db; timer = some (env.hz * 3600 % 2 ^ 64) })
    ]
  ]

  -- The connection is given up even where it is not closed.
  unfoldable pub close_sqlite : Store s h → Store s h
  close_sqlite store = record store { db = none }

-- the text of a key of the domain cache in a snapshot
abbrev pub domain_text : Bytes → Bytes
domain_text key = strncpy 259 (c_str key) ++ 0 ∷ []

-- inet_ntop
pub record Ntop : Type 0 where
  pub inet : Bytes → Bytes
  pub inet6 : Bytes → Bytes

-- the text of a key of the IP cache: byte 0 is the version, and the address starts at byte 4
unfoldable pub ip_text : Ntop → Bytes → Bytes
ip_text ntop key = elim (get_elem? key 0) [
  | none ↦ ntop.inet6 (drop 4 key)
  | some version ↦ if version == 4 then ntop.inet (take 4 (drop 4 key)) else ntop.inet6 (drop 4 key)
]

-- `node_ip->categories[cat_idx][0] = '\0'` for a NULL
abbrev pub cut_row : Bytes → Bytes
cut_row row = 0 ∷ drop 1 row

-- the key of a text, in a variable that holds `garbage`
unfoldable pub ip_key_of_text : Pton → Bytes → Bytes → Option Bytes
ip_key_of_text pton garbage text = elim (ip_str_to_key pton garbage text) [
  | none ↦ none
  | some key ↦ some (key_bytes key)
]

module _ (s : Sqlite) (h : RteHash) where
  -- domain_cache.c
  unfoldable pub save_single_node_to_sqlite : Bytes → Node → s.Db → ℤ × s.Db
  save_single_node_to_sqlite domain node db = save_single_node s domain_tables domain node db

  unfoldable pub save_all_cache_to_sqlite :
      Option h.Table → Option s.Db → List Snapshot → Heap → Run (SaveEnd × Option s.Db)
  save_all_cache_to_sqlite t db counted heap =
      save_all_cache s domain_tables h domain_text t db counted heap

  unfoldable pub init_tables_sqlite_dns_cache : Option s.Db
  init_tables_sqlite_dns_cache = init_tables s h domain_tables

  unfoldable pub load_cache_from_sqlite :
      LoadEnv → Option s.Db → h.Table → Heap → Run (Counts × h.Table × Heap)
  load_cache_from_sqlite env db t heap =
      load_cache s h (λ row. row) (λ text. some (copy_domain text)) domain_tables env db t heap

  unfoldable pub init_dns_cache : LoadEnv → Store s h → Run (Store s h)
  init_dns_cache env store =
      init_cache s h (λ row. row) (λ text. some (copy_domain text)) domain_tables env store

  unfoldable pub close_sqlite_cache : Store s h → Store s h
  close_sqlite_cache store = close_sqlite s h store

  -- ip_cache.c
  unfoldable pub insert_ip_main_record : Bytes → Node → s.Db → ℤ × s.Db
  insert_ip_main_record ip_str node db = insert_main_record s ip_tables ip_str node db

  unfoldable pub delete_ip_categories : Bytes → s.Db → ℤ × s.Db
  delete_ip_categories ip_str db = delete_old_categories s ip_tables ip_str db

  unfoldable pub insert_ip_categories : Bytes → Node → s.Db → ℤ × s.Db
  insert_ip_categories ip_str node db = insert_categories s ip_tables ip_str node db

  unfoldable pub save_single_node_ip_to_sqlite : Ntop → Bytes → Node → s.Db → ℤ × s.Db
  save_single_node_ip_to_sqlite ntop key node db =
      save_single_node s ip_tables (ip_text ntop key) node db

  unfoldable pub copy_data_from_hash_to_snapshot_ip :
      Ntop → List (Bytes × Ptr) → Heap → List Snapshot → Run (List Snapshot)
  copy_data_from_hash_to_snapshot_ip ntop entries heap snapt =
      copy_data_from_hash_to_snapshot (ip_text ntop) entries heap snapt

  unfoldable pub save_all_cache_ip_to_sqlite :
      Ntop → Option h.Table → Option s.Db → List Snapshot → Heap → Run (SaveEnd × Option s.Db)
  save_all_cache_ip_to_sqlite ntop t db counted heap =
      save_all_cache s ip_tables h (ip_text ntop) t db counted heap

  unfoldable pub init_tables_sqlite_ip_cache : Option s.Db
  init_tables_sqlite_ip_cache = init_tables s h ip_tables

  unfoldable pub insert_loaded_node_ip :
      Bool → IpKey → Ptr → h.Table → Heap → Run (ℤ × h.Table × Heap)
  insert_loaded_node_ip malloc_ok ip p t heap =
      insert_loaded_node h malloc_ok (key_bytes ip) p t heap

  -- the loop of `load_ip_categories` on the rows of the node
  unfoldable pub load_ip_categories : List Bytes → List (Option Bytes) → List Bytes
  load_ip_categories rows categories = put_categories cut_row rows categories

  unfoldable pub create_ip_node_from_db_row :
      Pton
      → Bytes
      → Node
      → Bool × Bool
      → ℕ
      → ℕ
      → Row
      → h.Table
      → Heap
      → Run (LoadResult × h.Table × Heap)
  create_ip_node_from_db_row pton garbage_key garbage malloc_ok now hz row t heap =
      create_node_from_db_row h cut_row (ip_key_of_text pton garbage_key) garbage malloc_ok now hz
        row t heap

  unfoldable pub load_cache_ip_from_sqlite :
      Pton → Bytes → LoadEnv → Option s.Db → h.Table → Heap → Run (Counts × h.Table × Heap)
  load_cache_ip_from_sqlite pton garbage_key env db t heap =
      load_cache s h cut_row (ip_key_of_text pton garbage_key) ip_tables env db t heap

  unfoldable pub init_ip_cache : Pton → Bytes → LoadEnv → Store s h → Run (Store s h)
  init_ip_cache pton garbage_key env store =
      init_cache s h cut_row (ip_key_of_text pton garbage_key) ip_tables env store

  unfoldable pub close_sqlite_cache_ip : Store s h → Store s h
  close_sqlite_cache_ip store = close_sqlite s h store
