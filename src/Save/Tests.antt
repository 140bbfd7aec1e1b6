-- ===== src/Save/Tests.antt =====
-- The theorems on saving at a database that is its own view, and a cache with one entry.
use grpc_server.Base.{
  ◌≡◌, refl, true, false, none, some, Option, List, [], ◌∷◌, ◌++◌, memcmp_eq, Bytes, replicate, pos,
  c_str, arith, leb,
}
use grpc_server.Base.Run.{done}
use grpc_server.Cache.{Node, age_seconds}
use grpc_server.Cache.Table.{is_full, sample_hash, sample_hash-IsHash}
use grpc_server.Cache.Sample.{
  node_with, sample_heap, one_entry, sample_heap-IsFresh, one_entry-AllHold,
}
use grpc_server.DomainCache.{strncpy, copy_domain}
use grpc_server.DomainCache.Keys.{copy_domain-clean}
use grpc_server.Load.{Row, create_node_from_db_row}
use grpc_server.Save.{
  domain_tables, ip_tables, View, stored_of, is_ok, Snapshot, SaveEnd, save_single_node,
  save_all_cache,
}
use grpc_server.Save.Database.{IsSqlite, set_at}
use grpc_server.Save.Single.{entry_of, save_single_node-Saved}
use grpc_server.Save.All.{Ended, table_copies, save_all_cache-Ended}
use grpc_server.Save.Sample.{sqlite, empty_db, load_env, no_address, created_empty}
use grpc_server.Cache.Release.{Freed}
use grpc_server.Save.Caches.Released.{free_store, IsShut, free_store-Freed}
use grpc_server.Save.Reload.{columns, FoundAgain, save-load}
use grpc_server.Save.Caches.{Store, init_dns_cache, init_ip_cache, domain_text}
use grpc_server.Save.Caches.Opened.{Opened, init_caches-Opened}

sqlite-IsSqlite : IsSqlite sqlite
sqlite-IsSqlite = record {
  step_result = λ db sql values. refl;
  main_done = λ db ts key row e. refl;
  delete_done = λ db ts key e. refl;
  category_done = λ db ts key category e. refl;
  begin_ok = λ db e. refl;
  commit_ok = λ db e. refl;
}

saved_ok : is_ok (save_single_node sqlite domain_tables (5 ∷ []) (node_with none) empty_db).0 ≡ true
unfolding save_single_node
saved_ok = refl

save_single_node-Saved_example :
    (save_single_node sqlite domain_tables (5 ∷ []) (node_with none) empty_db).1
    ≡ set_at domain_tables (c_str (5 ∷ [])) (entry_of (node_with none)) empty_db
save_single_node-Saved_example =
    save_single_node-Saved sqlite sqlite-IsSqlite domain_tables (5 ∷ []) (node_with none) empty_db
      saved_ok

abbrev row : Snapshot
row = record { key = []; node = node_with none }

abbrev one_copy : List Snapshot
one_copy =
    table_copies sqlite sqlite-IsSqlite domain_tables sample_hash sample_hash-IsHash domain_text
      one_entry sample_heap one_entry-AllHold

save_all_cache-Ended_example :
    (out : SaveEnd × Option View) × (save_all_cache sqlite domain_tables sample_hash domain_text
        (some one_entry)
        (some empty_db)
        (row ∷ [])
        sample_heap
      ≡ done out)
    × Ended sqlite domain_tables one_copy empty_db out
save_all_cache-Ended_example =
    save_all_cache-Ended sqlite sqlite-IsSqlite domain_tables sample_hash sample_hash-IsHash
      domain_text one_entry empty_db (row ∷ []) sample_heap one_entry-AllHold refl

abbrev young : Node
young = record (node_with none) { timestamp = 1000; ttl_seconds = 60 }

young_row : leb 60 (age_seconds 1010 1000 1) ≡ false
unfolding age_seconds
young_row = refl

-- the key of a.b
abbrev name : Bytes
name = b'a' ∷ b'.' ∷ b'b' ∷ []

abbrev key : Bytes
key = name ++ replicate 257 0

key_stored : copy_domain key ≡ key
key_stored =
    copy_domain-clean name 256
      ((λ z. omega (arith, z)), ((λ z. omega (arith, z)), ((λ z. omega (arith, z)), tt))) refl

room : (sample_hash.add_key_data one_entry key sample_heap.next).0 ≡ pos 0
unfolding is_full
room = refl

abbrev young_db : View
young_db = (save_single_node sqlite domain_tables (domain_text key) young empty_db).1

abbrev young_stored : Row
young_stored = record {
  text = c_str key;
  solution_is_send = (stored_of young).solution_is_send;
  trust_lvl = (stored_of young).trust_lvl;
  timestamp = (stored_of young).timestamp;
  ttl_seconds = (stored_of young).ttl_seconds;
  categories = some [];
}

young_saved :
    is_ok (save_single_node sqlite domain_tables (domain_text key) young empty_db).0 ≡ true
unfolding save_single_node
young_saved = refl

young_read : (young_db domain_tables (c_str key)).0 ≡ some (columns young_stored)
unfolding save_single_node c_str strncpy memcmp_eq
young_read = refl

save-load_example : FoundAgain sample_hash 1010 1 key young (
    create_node_from_db_row sample_hash
      (λ old. old)
      (λ text. some (copy_domain text))
      (node_with none)
      (true, true)
      1010
      1
      young_stored
      one_entry
      sample_heap)
save-load_example =
    save-load sample_hash sample_hash-IsHash sqlite sqlite-IsSqlite 1010 1 (omega arith) key young
      empty_db key_stored young_saved young_stored refl young_read (node_with none) [] one_entry
      sample_heap refl refl (omega arith) (omega arith) young_row room

abbrev store : Store sqlite sample_hash
store = record { hash = none; heap = sample_heap; db = none; timer = none }

init_caches-Opened_example :
    Opened sqlite sample_hash domain_tables load_env store
      (init_dns_cache sqlite sample_hash load_env store)
    × Opened sqlite sample_hash ip_tables load_env store
        (init_ip_cache sqlite sample_hash no_address [] load_env store)
init_caches-Opened_example =
    init_caches-Opened sqlite sample_hash load_env store no_address [] sample_hash-IsHash
      (omega arith) created_empty sample_heap-IsFresh

abbrev open_store : Store sqlite sample_hash
open_store = record {
  hash = some one_entry;
  heap = sample_heap;
  db = some empty_db;
  timer = some 3600;
}

free_store-Freed_example :
    (store' : Store sqlite sample_hash) × (free_store sqlite sample_hash open_store ≡ done store')
    × IsShut sqlite sample_hash store'
    × Freed (sample_hash.entries one_entry) sample_heap store'.heap
free_store-Freed_example =
    free_store-Freed sqlite sample_hash sample_hash-IsHash open_store one_entry refl
      one_entry-AllHold
