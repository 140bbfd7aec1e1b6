-- ===== src/Save/Single.antt =====
-- What the saving of one node leaves in the database.
use grpc_server.Base.{
  ◌≡◌, ◌∙◌, refl, ap, true, Option, some, List, [], ◌∷◌, ◌++◌, Bytes, ℤ, c_str, starts_nul, take,
  Bool-cases, inl, inr, if◌then◌else◌, arith,
}
use grpc_server.Cache.{Node}
use grpc_server.Filter.{max_categories}
use grpc_server.Save.{
  Tables, Sql, insert_main, delete_categories, insert_category, Value, text, main_values, Stored,
  View, Sqlite, is_ok, is_done, stored_of, and_then, run_statement, insert_main_record,
  delete_old_categories, step_categories, insert_categories, save_single_node,
}
use grpc_server.Save.Database.{IsSqlite, Entry, set_at, set_at_here, set_at-set_at}

-- the texts up to the first that is empty
abbrev pub texts_before_empty : List Bytes → List Bytes
texts_before_empty [] = []
texts_before_empty (category ∷ categories) =
    let rest = texts_before_empty categories in
    if starts_nul category then [] else c_str category ∷ rest

-- the entry that stands for a node
abbrev pub entry_of : Node → Entry
entry_of node = (some (stored_of node), texts_before_empty (take max_categories node.categories))

-- the second step of a chain that succeeds
pub and_then-ok :
    {A : Type 0} (m : ℤ × A) (f : A → ℤ × A)
    → is_ok (and_then m f).0 ≡ true
    → (is_ok m.0 ≡ true) × (and_then m f ≡ f m.1)
and_then-ok (ret, a) f h = elim (Bool-cases (is_ok ret)) [
  | inl e ↦ (e, rw e refl)
  | inr e ↦ let k : is_ok ret ≡ true = rw e at h in absurd (ground arith)
]

append_nil {ℓ} : {A : Type ℓ} (xs : List A) → xs ++ [] ≡ xs
append_nil [] = refl
append_nil (x ∷ xs) = ap (◌∷◌ x) (append_nil xs)

append_assoc {ℓ} : {A : Type ℓ} (xs ys zs : List A) → (xs ++ ys) ++ zs ≡ xs ++ (ys ++ zs)
append_assoc [] ys zs = refl
append_assoc (x ∷ xs) ys zs = ap (◌∷◌ x) (append_assoc xs ys zs)

module _ (s : Sqlite) (laws : IsSqlite s) (tables : Tables) where
  run_statement-ok :
      (sql : Sql) (values : List Value) (db : s.Db)
      → is_ok (run_statement s tables sql values db).0 ≡ true
      → (is_done (s.step db sql values).0 ≡ true)
        × ((run_statement s tables sql values db).1 ≡ (s.step db sql values).1)
  unfolding run_statement
  run_statement-ok sql values db h = elim (Bool-cases (is_ok (s.prepare db sql))) [
    | inr e ↦ let k : is_ok (s.prepare db sql) ≡ true = rw e at h in absurd (ground arith)
    | inl e ↦ elim (Bool-cases (is_done (s.step db sql values).0)) [
      | inl d ↦ (d, rw e refl)
      | inr d ↦
          let k : is_ok (s.step db sql values).0 ≡ true = rw (e, d) at h in
          absurd (ground (arith, laws.step_result db sql values))
    ]
  ]

  -- one more category
  add_category :
      (key category : Bytes) (row : Option Stored) (acc : List Bytes) (v : View) (db : s.Db)
      → s.view db ≡ set_at tables key (row, acc) v
      → is_done (s.step db (insert_category tables) (text key ∷ text category ∷ [])).0 ≡ true
      → s.view (s.step db (insert_category tables) (text key ∷ text category ∷ [])).1
        ≡ set_at tables key (row, acc ++ category ∷ []) v
  add_category key category row acc v db at_key d =
      let here : s.view db tables key ≡ (row, acc) =
        ap (λ (w : View). w tables key) at_key ∙ set_at_here tables key (row, acc) v in
      laws.category_done db tables key category d
      ∙ rw (here, at_key) (set_at-set_at tables key (row, acc) (row, acc ++ category ∷ []) v)

  step_categories-ok :
      (key : Bytes) (categories : List Bytes) (row : Option Stored) (acc : List Bytes) (v : View)
      (db : s.Db)
      → s.view db ≡ set_at tables (c_str key) (row, acc) v
      → is_ok (step_categories s tables key categories db).0 ≡ true
      → s.view (step_categories s tables key categories db).1
        ≡ set_at tables (c_str key) (row, acc ++ texts_before_empty categories) v
  unfolding step_categories
  step_categories-ok key [] row acc v db at_key h = rw (append_nil acc) at_key
  step_categories-ok key (category ∷ categories) row acc v db at_key h =
      let values = text (c_str key) ∷ text (c_str category) ∷ [] in
      elim (Bool-cases (starts_nul category)) [
        | inl e ↦ rw (e, append_nil acc) at_key
        | inr e ↦ elim (Bool-cases (is_done (s.step db (insert_category tables) values).0)) [
          | inl d ↦
              rw (e, d, ← append_assoc acc (c_str category ∷ []) (texts_before_empty categories))
                (step_categories-ok key categories row (acc ++ c_str category ∷ []) v _
                  (add_category (c_str key) (c_str category) row acc v db at_key d)
                  (rw (e, d) at h))
          | inr d ↦
              let k : is_ok (s.step db (insert_category tables) values).0 ≡ true = rw (e, d) at h in
              absurd (ground (arith, laws.step_result db (insert_category tables) values))
        ]
      ]

  insert_categories-ok :
      (key : Bytes) (node : Node) (row : Option Stored) (v : View) (db : s.Db)
      → s.view db ≡ set_at tables (c_str key) (row, []) v
      → is_ok (insert_categories s tables key node db).0 ≡ true
      → s.view (insert_categories s tables key node db).1
        ≡ set_at tables
            (c_str key)
            (row, texts_before_empty (take max_categories node.categories))
            v
  unfolding insert_categories
  insert_categories-ok key node row v db at_key h =
      elim (Bool-cases (is_ok (s.prepare db (insert_category tables)))) [
        | inl e ↦ rw e (
            step_categories-ok key (take max_categories node.categories) row [] v db at_key
              (rw e at h))
        | inr e ↦
            let k : is_ok (s.prepare db (insert_category tables)) ≡ true = rw e at h in
            absurd (ground arith)
      ]

  insert_main_record-ok :
      (key : Bytes) (node : Node) (db : s.Db)
      → is_ok (insert_main_record s tables key node db).0 ≡ true
      → s.view (insert_main_record s tables key node db).1
        ≡ set_at tables
            (c_str key)
            (some (stored_of node), (s.view db tables (c_str key)).1)
            (s.view db)
  unfolding insert_main_record
  insert_main_record-ok key node db h =
      let values = main_values (c_str key) (stored_of node) in
      let (d, r) = run_statement-ok (insert_main tables) values db h in
      ap s.view r ∙ laws.main_done db tables (c_str key) (stored_of node) d

  delete_old_categories-ok :
      (key : Bytes) (row : Option Stored) (categories : List Bytes) (v : View) (db : s.Db)
      → s.view db ≡ set_at tables (c_str key) (row, categories) v
      → is_ok (delete_old_categories s tables key db).0 ≡ true
      → s.view (delete_old_categories s tables key db).1 ≡ set_at tables (c_str key) (row, []) v
  unfolding delete_old_categories
  delete_old_categories-ok key row categories v db at_key h =
      let k = c_str key in
      let (d, r) = run_statement-ok (delete_categories tables) (text k ∷ []) db h in
      let here : s.view db tables k ≡ (row, categories) =
        ap (λ (w : View). w tables k) at_key ∙ set_at_here tables k (row, categories) v in
      ap s.view r
      ∙ laws.delete_done db tables k d
      ∙ rw (here, at_key) (set_at-set_at tables k (row, categories) (row, []) v)

  -- If the saving of a node returns SQLITE_OK, the entry of its text holds the node's row and its
  -- categories, whatever it held before, and no other entry has changed.
  pub save_single_node-Saved :
      (key : Bytes) (node : Node) (db : s.Db)
      → is_ok (save_single_node s tables key node db).0 ≡ true
      → s.view (save_single_node s tables key node db).1
        ≡ set_at tables (c_str key) (entry_of node) (s.view db)
  unfolding save_single_node
  save_single_node-Saved key node db h =
      let m1 = insert_main_record s tables key node db in
      let m2 = and_then m1 (delete_old_categories s tables key) in
      let (ok2, e3) = and_then-ok m2 (insert_categories s tables key node) h in
      let (ok1, e2) = and_then-ok m1 (delete_old_categories s tables key) ok2 in
      let v1 = insert_main_record-ok key node db ok1 in
      let v2 = delete_old_categories-ok key _ _ (s.view db) m1.1 v1 (rw e2 at ok2) in
      let v2' = ap (λ (m : ℤ × s.Db). s.view m.1) e2 ∙ v2 in
      let ok3 : is_ok (insert_categories s tables key node m2.1).0 ≡ true = rw e3 at h in
      ap (λ (m : ℤ × s.Db). s.view m.1) e3
      ∙ insert_categories-ok key node (some (stored_of node)) (s.view db) m2.1 v2' ok3
