-- ===== src/Save/Sample.antt =====
-- A database that is its own view, and what the opening of a cache meets.
use grpc_server.Base.{◌≡◌, true, none, some, Option, List, [], ◌∷◌, ◌++◌, ap, sym}
use grpc_server.Cache.Table.{sample_hash}
use grpc_server.Cache.Sample.{node_with}
use grpc_server.IpCache.{Pton}
use grpc_server.Save.{
  Sql, insert_main, delete_categories, insert_category, Value, text, int, Stored, View, Sqlite,
  sqlite_done, sqlite_ok,
}
use grpc_server.Save.Database.{set_at}
use grpc_server.Save.Caches.{LoadEnv}

abbrev pub empty_db : View
empty_db ts key = (none, [])

-- the effect of a statement on a view
abbrev pub effect : View → Sql → List Value → View
effect v (insert_main ts) (text key ∷ int a ∷ int b ∷ int c ∷ int d ∷ []) =
    let row : Stored = record {
      solution_is_send = a;
      trust_lvl = b;
      timestamp = c;
      ttl_seconds = d;
    } in
    set_at ts key (some row, (v ts key).1) v
effect v (delete_categories ts) (text key ∷ []) = set_at ts key ((v ts key).0, []) v
effect v (insert_category ts) (text key ∷ text category ∷ []) =
    set_at ts key ((v ts key).0, (v ts key).1 ++ category ∷ []) v
effect v sql values = v

abbrev pub sqlite : Sqlite
sqlite = record {
  Db = View;
  prepare = λ v sql. sqlite_ok;
  step = λ v sql values. (sqlite_done, effect v sql values);
  exec = λ v sql. (sqlite_ok, v);
  open_db = λ ts. (sqlite_ok, some empty_db);
  close = λ v. sqlite_ok;
  select = λ v ts. some [];
  view = λ v. v;
}

abbrev pub load_env : LoadEnv
load_env = record {
  garbage = λ i. node_with none;
  malloc_ok = λ i. (true, true);
  now = 1010;
  hz = 1;
}

abbrev pub no_address : Pton
no_address = record { inet = λ ip. none; inet6 = λ ip. none }

pub created_empty :
    (t : sample_hash.Table) → sample_hash.create ≡ some t → sample_hash.entries t ≡ []
created_empty t e =
    ap (λ (o : Option sample_hash.Table). elim o [ none ↦ [] | some t' ↦ sample_hash.entries t' ])
      (sym e)
