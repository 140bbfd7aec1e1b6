-- ===== src/Save.antt =====
-- The saving of the caches to their databases: worker/src/dpdk_filter/domain_cache.c and ip_cache.c,
-- which differ in their tables and in the text of a key. SQLite is a parameter: a state of the
-- connection, and what its calls return and leave.
pub mod Database
pub mod Single
pub mod All
pub mod Reload
pub mod Caches
pub mod Sample
mod Tests
use grpc_server.Base.{
  ℕ, zero, suc, ◌+◌, ◌-◌, ◌^◌, Bool, true, false, not, Option, none, some, List, [], ◌∷◌, ◌++◌,
  Bytes, ℤ, pos, negsuc, c_str, starts_nul, ltb, ◌==◌, take, if◌then◌else◌,
}
use grpc_server.Base.Run.{Run, done, fault, ◌>>=◌, or_fault}
use grpc_server.RteHash.{RteHash, Ptr}
use grpc_server.Cache.{Node, Heap}
use grpc_server.DomainCache.{strncpy, domain_max_len}
use grpc_server.IpCache.{IpKey}
use grpc_server.Filter.{max_categories}
use grpc_server.Load.{Row}

-- the pair of tables of a cache: main_table and categories_table, or ip_main_table and
-- ip_categories_table
pub data Tables : Type 0 where
  domain_tables ip_tables : Tables

-- the texts that are given to SQLite
pub data Sql : Type 0 where
  begin_transaction commit foreign_keys : Sql
  insert_main delete_categories insert_category create_main create_categories : Tables → Sql

-- what is bound to the marks of a statement
pub data Value : Type 0 where
  text : Bytes → Value
  int : ℤ → Value

abbrev pub sqlite_ok : ℤ
sqlite_ok = pos 0

abbrev pub sqlite_done : ℤ
sqlite_done = pos 101

-- `ret == SQLITE_OK` and `ret == SQLITE_DONE`
abbrev pub is_ok : ℤ → Bool
is_ok (pos zero) = true
is_ok (pos (suc n)) = false
is_ok (negsuc n) = false

abbrev pub is_done : ℤ → Bool
is_done (pos n) = n == 101
is_done (negsuc n) = false

-- a row of the main table, without its key
pub record Stored : Type 0 where
  pub solution_is_send : ℤ
  pub trust_lvl : ℤ
  pub timestamp : ℤ
  pub ttl_seconds : ℤ

-- For each text: the row of the main table, and the texts of the categories table.
abbrev pub View : Type 0
View = Tables → Bytes → Option Stored × List Bytes

pub record Sqlite : Type 1 where
  pub Db : Type 0
  pub prepare : Db → Sql → ℤ
  -- a step of a prepared statement with its values
  pub step : Db → Sql → List Value → ℤ × Db
  pub exec : Db → Sql → ℤ × Db
  -- the file of a pair of tables: the return value, and the connection that is written
  pub open_db : Tables → ℤ × Option Db
  pub close : Db → ℤ
  -- the rows of a query of all of the main table, where it can be prepared
  pub select : Db → Tables → Option (List Row)
  -- what the tables hold
  pub view : Db → View

-- a `uint64_t` and a `uint32_t` as signed numbers of their width
unfoldable pub to_i64 : ℕ → ℤ
to_i64 n = if ltb n (2 ^ 63) then pos n else negsuc (2 ^ 64 - 1 - n)

unfoldable pub to_i32 : ℕ → ℤ
to_i32 n = if ltb n (2 ^ 31) then pos n else negsuc (2 ^ 32 - 1 - n)

-- the values of an insertion into the main table
abbrev pub stored_of : Node → Stored
stored_of node = record {
  solution_is_send = if node.solution_is_send then pos 1 else pos 0;
  trust_lvl = node.trust_lvl;
  timestamp = to_i64 node.timestamp;
  ttl_seconds = to_i32 node.ttl_seconds;
}

abbrev pub main_values : Bytes → Stored → List Value
main_values key s =
    text key ∷ int s.solution_is_send ∷ int s.trust_lvl ∷ int s.timestamp ∷ int s.ttl_seconds ∷ []

-- one entry of a snapshot: the text of its key, and the copy of the node
pub record Snapshot : Type 0 where
  pub key : Bytes
  pub node : Node

-- `if (ret != SQLITE_OK) return ret;`
abbrev pub and_then : {A : Type 0} → ℤ × A → (A → ℤ × A) → ℤ × A
and_then (ret, db) f = if is_ok ret then f db else (ret, db)

module _ (s : Sqlite) (tables : Tables) where
  -- the preparation and the step of a statement that returns no rows
  unfoldable pub run_statement : Sql → List Value → s.Db → ℤ × s.Db
  run_statement sql values db =
      let (ret, db') = s.step db sql values in
      if is_ok (s.prepare db sql)
      then (if is_done ret then sqlite_ok else ret, db')
      else (s.prepare db sql, db)

  unfoldable pub insert_main_record : Bytes → Node → s.Db → ℤ × s.Db
  unfolding run_statement
  insert_main_record key node db =
      run_statement (insert_main tables) (main_values (c_str key) (stored_of node)) db

  unfoldable pub delete_old_categories : Bytes → s.Db → ℤ × s.Db
  unfolding run_statement
  delete_old_categories key db = run_statement (delete_categories tables) (text (c_str key) ∷ []) db

  -- the loop over the categories
  unfoldable pub step_categories : Bytes → List Bytes → s.Db → ℤ × s.Db
  step_categories key [] db = (sqlite_ok, db)
  step_categories key (category ∷ categories) db =
      let (ret, db') =
        s.step db (insert_category tables) (text (c_str key) ∷ text (c_str category) ∷ []) in
      let rest = step_categories key categories db' in
      if starts_nul category then (sqlite_ok, db) else if is_done ret then rest else (ret, db')

  unfoldable pub insert_categories : Bytes → Node → s.Db → ℤ × s.Db
  unfolding step_categories
  insert_categories key node db =
      if is_ok (s.prepare db (insert_category tables))
      then step_categories key (take max_categories node.categories) db
      else (s.prepare db (insert_category tables), db)

  -- `save_single_node_to_sqlite` and `save_single_node_ip_to_sqlite`, on the text of the key
  unfoldable pub save_single_node : Bytes → Node → s.Db → ℤ × s.Db
  unfolding insert_main_record delete_old_categories insert_categories
  save_single_node key node db =
      and_then (and_then (insert_main_record key node db) (delete_old_categories key))
        (insert_categories key node)

  -- the loop over the snapshot: the records, the errors and the connection
  unfoldable pub save_rows : List Snapshot → ℕ → ℕ → s.Db → ℕ × ℕ × s.Db
  unfolding save_single_node
  save_rows [] records errors db = (records, errors, db)
  save_rows (r ∷ rows) records errors db =
      let (ret, db') = save_single_node r.key r.node db in
      let (records', errors') =
        if is_ok ret then (records + 1, errors) else (records, errors + 1) in
      save_rows rows records' errors' db'

-- The loop over the table under its lock, into the rows of `snapt` from the first on; `copy_key` is
-- the copy of a key and its text. The table is what `rte_hash_iterate` goes through.
unfoldable pub copy_data_from_hash_to_snapshot :
    (Bytes → Bytes) → List (Bytes × Ptr) → Heap → List Snapshot → Run (List Snapshot)
copy_data_from_hash_to_snapshot copy_key [] heap snapt = done snapt
copy_data_from_hash_to_snapshot copy_key (entry ∷ entries) heap [] = fault
copy_data_from_hash_to_snapshot copy_key ((key, p) ∷ entries) heap (row ∷ snapt) = do
  node ← or_fault (heap.nodes p)
  rest ← copy_data_from_hash_to_snapshot copy_key entries heap snapt
  done (record { key = copy_key key; node = node } ∷ rest)

-- How a saving ends: no table or no connection, a transaction that does not begin, one that is not
-- committed, or the numbers of records and of errors. The snapshot is freed in the last case alone.
pub data SaveEnd : Type 0 where
  not_open : SaveEnd
  not_begun not_committed : ℤ → SaveEnd
  saved : ℕ → ℕ → SaveEnd

module _ (s : Sqlite) (tables : Tables) (h : RteHash) (copy_key : Bytes → Bytes) where
  -- the transaction
  unfoldable pub save_snapshot : List Snapshot → s.Db → SaveEnd × s.Db
  unfolding save_rows
  save_snapshot snapt db =
      let (ret1, db1) = s.exec db begin_transaction in
      let (records, errors, db2) = save_rows s tables snapt 0 0 db1 in
      let (ret2, db3) = s.exec db2 commit in
      if not (is_ok ret1)
      then (not_begun ret1, db1)
      else if not (is_ok ret2)
      then (not_committed ret2, db3)
      else (saved records errors, db3)

  -- `save_all_cache_to_sqlite`. `counted` is the memory from `malloc` with one row for each entry that
  -- `rte_hash_count` has counted, and none if it is NULL; `t` is the table once the lock is taken.
  unfoldable pub save_all_cache :
      Option h.Table → Option s.Db → List Snapshot → Heap → Run (SaveEnd × Option s.Db)
  unfolding save_snapshot
  save_all_cache none db counted heap = done (not_open, db)
  save_all_cache (some t) none counted heap = done (not_open, none)
  save_all_cache (some t) (some db) counted heap = do
    snapt ← copy_data_from_hash_to_snapshot copy_key (h.entries t) heap counted
    let (end_, db') = save_snapshot snapt db
    done (end_, some db')
