-- ===== src/Save/Database.antt =====
-- What the theorems rely on of SQLite: the documented effect of the statements that succeed.
use grpc_server.Base.{
  ◌≡◌, refl, Bool, true, false, ◌&&◌, Option, some, List, [], ◌∷◌, ◌++◌, Bytes, memcmp_eq,
  memcmp_eq_iff, Bool-cases, inl, inr, if◌then◌else◌,
}
use std.Path.{fun_ext}
use grpc_server.Save.{
  Tables, domain_tables, ip_tables, Sql, begin_transaction, commit, insert_main, delete_categories,
  insert_category, Value, text, main_values, Stored, View, Sqlite, is_ok, is_done,
}

abbrev pub same_tables : Tables → Tables → Bool
same_tables domain_tables domain_tables = true
same_tables ip_tables ip_tables = true
same_tables _ _ = false

abbrev pub Entry : Type 0
Entry = Option Stored × List Bytes

-- the tables with one entry replaced
abbrev pub set_at : Tables → Bytes → Entry → View → View
set_at tables key entry v tables' key' =
    if same_tables tables tables' && memcmp_eq key key' then entry else v tables' key'

-- A step that returns SQLITE_DONE has done what the statement says. A step never returns SQLITE_OK.
-- Beginning and committing a transaction change no table.
pub record IsSqlite (s : Sqlite) : Type 0 where
  pub step_result :
      (db : s.Db) (sql : Sql) (values : List Value) → is_ok (s.step db sql values).0 ≡ false
  pub main_done :
      (db : s.Db) (tables : Tables) (key : Bytes) (row : Stored)
      → is_done (s.step db (insert_main tables) (main_values key row)).0 ≡ true
      → s.view (s.step db (insert_main tables) (main_values key row)).1
        ≡ set_at tables key (some row, (s.view db tables key).1) (s.view db)
  pub delete_done :
      (db : s.Db) (tables : Tables) (key : Bytes)
      → is_done (s.step db (delete_categories tables) (text key ∷ [])).0 ≡ true
      → s.view (s.step db (delete_categories tables) (text key ∷ [])).1
        ≡ set_at tables key ((s.view db tables key).0, []) (s.view db)
  pub category_done :
      (db : s.Db) (tables : Tables) (key category : Bytes)
      → is_done (s.step db (insert_category tables) (text key ∷ text category ∷ [])).0 ≡ true
      → s.view (s.step db (insert_category tables) (text key ∷ text category ∷ [])).1
        ≡ set_at tables key
            ((s.view db tables key).0, (s.view db tables key).1 ++ category ∷ [])
            (s.view db)
  pub begin_ok :
      (db : s.Db)
      → is_ok (s.exec db begin_transaction).0 ≡ true
      → s.view (s.exec db begin_transaction).1 ≡ s.view db
  pub commit_ok :
      (db : s.Db) → is_ok (s.exec db commit).0 ≡ true → s.view (s.exec db commit).1 ≡ s.view db

pub same_tables_refl : (tables : Tables) → same_tables tables tables ≡ true
same_tables_refl domain_tables = refl
same_tables_refl ip_tables = refl

pub set_at_here :
    (tables : Tables) (key : Bytes) (entry : Entry) (v : View)
    → set_at tables key entry v tables key ≡ entry
set_at_here tables key entry v = rw (same_tables_refl tables, (memcmp_eq_iff key key).1 refl) refl

pub set_at-set_at :
    (tables : Tables) (key : Bytes) (e1 e2 : Entry) (v : View)
    → set_at tables key e2 (set_at tables key e1 v) ≡ set_at tables key e2 v
set_at-set_at tables key e1 e2 v = fun_ext (λ tables'. fun_ext (λ key'.
    elim (Bool-cases (same_tables tables tables' && memcmp_eq key key')) [
      | inl same ↦ rw same refl
      | inr other ↦ rw other refl
    ]))
