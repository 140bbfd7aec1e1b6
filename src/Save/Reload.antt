-- ===== src/Save/Reload.antt =====
-- What the loading makes of a row that was saved.
use grpc_server.Base.{
  ℕ, zero, suc, ◌^◌, ◌<◌, ◌≡◌, ◌∙◌, refl, sym, ap, Bool, true, false, Option, some, List, [], ◌∷◌,
  ◌++◌, Bytes, ℤ, pos, negsuc, length, take, c_str, ltb, leb, ◌==◌, memcmp_eq_iff, Bool-cases, inl,
  inr, if◌then◌else◌, arith,
}
use grpc_server.Base.Run.{Run, done}
use grpc_server.RteHash.{RteHash, IsHash, Ptr, found_at}
use grpc_server.Cache.{
  Node, Heap, update, alloc_node, alloc_key, age_seconds, to_u32, check_found, lookup_cache,
}
use grpc_server.Cache.Invariant.{update_self}
use grpc_server.DomainCache.{domain_max_len, strncpy, copy_domain, lookup_dns_cache}
use grpc_server.Load.{
  Row, put_categories, LoadResult, load_ok, to_u64, to_bool, inserted, insert_loaded_node, finish,
  add_loaded, create_node_from_db_row,
}
use grpc_server.Save.{
  Stored, View, Sqlite, domain_tables, is_ok, stored_of, to_i64, to_i32, save_single_node,
}
use grpc_server.Save.Database.{IsSqlite, Entry, set_at, set_at_here}
use grpc_server.Save.Single.{entry_of, save_single_node-Saved}
use grpc_server.Save.Caches.{domain_text}

to_u64-to_i64 : (n : ℕ) → n < 2 ^ 64 → to_u64 (to_i64 n) ≡ n
unfolding to_u64 to_i64
to_u64-to_i64 n h = elim (Bool-cases (ltb n (2 ^ 63))) [
  | inl low ↦ rw low (ground arith)
  | inr high ↦ rw high (ground arith)
]

to_u32-to_i32 : (n : ℕ) → n < 2 ^ 32 → to_u32 (to_i32 n) ≡ n
unfolding to_u32 to_i32
to_u32-to_i32 n h = elim (Bool-cases (ltb n (2 ^ 31))) [
  | inl low ↦ rw low (ground arith)
  | inr high ↦ rw high (ground arith)
]

to_bool_bit : (b : Bool) → to_bool (if b then pos 1 else pos 0) ≡ b
to_bool_bit true = refl
to_bool_bit false = refl

-- the columns of a row of the main table, without its text
abbrev pub columns : Row → Stored
columns row = record {
  solution_is_send = row.solution_is_send;
  trust_lvl = row.trust_lvl;
  timestamp = row.timestamp;
  ttl_seconds = row.ttl_seconds;
}

c_str-c_str : (bytes : Bytes) → c_str (c_str bytes) ≡ c_str bytes
unfolding c_str
c_str-c_str [] = refl
c_str-c_str (b ∷ bytes) = elim (Bool-cases (b == 0)) [
  | inl e ↦ rw e refl
  | inr e ↦ rw (e, c_str, e) (ap (◌∷◌ b) (c_str-c_str bytes))
]

take-strncpy : (n : ℕ) (text : Bytes) → take n (strncpy (suc n) text) ≡ strncpy n text
unfolding strncpy
take-strncpy zero [] = refl
take-strncpy zero (b ∷ text) = refl
take-strncpy (suc n) [] = ap (◌∷◌ 0) (take-strncpy n [])
take-strncpy (suc n) (b ∷ text) = ap (◌∷◌ b) (take-strncpy n text)

-- the text of a key in a snapshot is the copy that the cache stores
domain_text_lem : (key : Bytes) → domain_text key ≡ copy_domain key
unfolding copy_domain
domain_text_lem key = ap (λ (text : Bytes). text ++ 0 ∷ []) (sym (take-strncpy 259 (c_str key)))

copy_domain-c_str : (key : Bytes) → copy_domain (c_str key) ≡ copy_domain key
unfolding copy_domain
copy_domain-c_str key =
    ap (λ (text : Bytes). take 259 (strncpy domain_max_len text) ++ 0 ∷ []) (c_str-c_str key)

some-inj {ℓ} : {A : Type ℓ} {a b : A} → ◌≡◌ {A = Option A} (some a) (some b) → a ≡ b
some-inj e = cc

take-all : (n : ℕ) (bytes : Bytes) → length bytes ≡ n → take n bytes ≡ bytes
take-all zero [] e = refl
take-all zero (b ∷ bytes) e = absurd (omega (arith, e))
take-all (suc n) [] e = refl
take-all (suc n) (b ∷ bytes) e = ap (◌∷◌ b) (take-all n bytes (omega (arith, e)))

-- The same decision, made at the same time and for as long.
pub record SameDecision (node node' : Node) : Type 0 where
  pub solution_is_send : node'.solution_is_send ≡ node.solution_is_send
  pub trust_lvl : node'.trust_lvl ≡ node.trust_lvl
  pub timestamp : node'.timestamp ≡ node.timestamp
  pub ttl_seconds : node'.ttl_seconds ≡ node.ttl_seconds

-- The table has the key, at a node with the decision of another.
abbrev pub Restored : (h : RteHash) → Bytes → Node → Run (LoadResult × h.Table × Heap) → Type 0
Restored h key node run =
    (t' : h.Table) × (heap' : Heap) × (p : Ptr) × (node' : Node) × (run ≡ done (load_ok, t', heap'))
    × (found_at h t' key ≡ some p)
    × (heap'.nodes p ≡ some node')
    × SameDecision node node'

inserted-ok :
    (h : RteHash) (r : ℤ × h.Table) (kp : Ptr) (heap : Heap)
    → r.0 ≡ pos 0
    → inserted h r kp heap ≡ done (pos 0, r.1, heap)
unfolding inserted
inserted-ok h (pos i, t') kp heap e = refl
inserted-ok h (negsuc n, t') kp heap e = absurd (ground arith)

module _ (h : RteHash) (laws : IsHash h) where
  add_loaded-done :
      (node : Node) (cats : List (Option Bytes)) (key : Bytes) (t : h.Table) (heap : Heap)
      → (h.add_key_data t key heap.next).0 ≡ pos 0
      → Restored h key node (add_loaded h true node (some cats) (some key) t heap)
  unfolding add_loaded insert_loaded_node inserted finish alloc_node alloc_key
  add_loaded-done node cats key t heap ok =
      let heap1 = (alloc_node node heap).1 in
      let (kp, heap2) = alloc_key key heap1 in
      let node' : Node = record node { key = some kp } in
      let nodes' = update heap2.nodes heap.next (some node') in
      let r = h.add_key_data t key heap.next in
      (
        r.1,
        record heap2 { nodes = nodes' },
        heap.next,
        node',
        rw
            (
              update_self heap.nodes heap.next (some node),
              inserted-ok h r kp (record heap2 { nodes = nodes' }) ok,
            )
            refl,
        laws.add_ok t key heap.next key ok ∙ rw ((memcmp_eq_iff key key).1 refl) refl,
        update_self heap2.nodes heap.next (some node'),
        record { solution_is_send = refl; trust_lvl = refl; timestamp = refl; ttl_seconds = refl },
      )

SameDecision-trans : {a b c : Node} → SameDecision a b → SameDecision b c → SameDecision a c
SameDecision-trans p q = record {
  solution_is_send = q.solution_is_send ∙ p.solution_is_send;
  trust_lvl = q.trust_lvl ∙ p.trust_lvl;
  timestamp = q.timestamp ∙ p.timestamp;
  ttl_seconds = q.ttl_seconds ∙ p.ttl_seconds;
}

-- The row is loaded, and a lookup of the key then returns a node with the decision of another, and
-- changes nothing.
abbrev pub FoundAgain :
    (h : RteHash) → ℕ → ℕ → Bytes → Node → Run (LoadResult × h.Table × Heap) → Type 0
FoundAgain h now hz key node run =
    (t' : h.Table) × (heap' : Heap) × (i : ℕ) × (p : Ptr) × (node' : Node) × (run
      ≡ done (load_ok, t', heap'))
    × (lookup_dns_cache h now hz key (record { hash = some t'; heap = heap' })
        ≡ done ((pos i, some p), record { hash = some t'; heap = heap' }))
    × (heap'.nodes p ≡ some node')
    × SameDecision node node'

lookup-Restored :
    (h : RteHash) (laws : IsHash h) (now hz : ℕ) (key : Bytes) (node : Node)
    (run : Run (LoadResult × h.Table × Heap))
    → (hz == 0) ≡ false
    → length key ≡ domain_max_len
    → leb node.ttl_seconds (age_seconds now node.timestamp hz) ≡ false
    → Restored h key node run
    → FoundAgain h now hz key node run
unfolding lookup_dns_cache lookup_cache check_found
lookup-Restored h laws now hz key node run hz_ne len young
      (t', heap', p, node', e, found, at_p, same) =
    let (i, hit) = laws.lookup_hit t' key p found in
    let young' : leb node'.ttl_seconds (age_seconds now node'.timestamp hz) ≡ false =
      rw (same.timestamp, same.ttl_seconds) young in
    (
      t',
      heap',
      i,
      p,
      node',
      e,
      rw (take-all domain_max_len key len, hit, check_found, at_p, hz_ne, young') refl,
      at_p,
      same,
    )

module _ (h : RteHash) (laws : IsHash h) (s : Sqlite) (sql : IsSqlite s) (now hz : ℕ)
    (running : 0 < hz) (key : Bytes) (node : Node) (db : s.Db) (stored_key : copy_domain key ≡ key)
    (saved : is_ok (save_single_node s domain_tables (domain_text key) node db).0 ≡ true)
    (row : Row) (at_text : row.text ≡ c_str key)
    (read : (s.view
        (save_single_node s domain_tables (domain_text key) node db).1
        domain_tables
        row.text).0
      ≡ some (columns row)) where
  -- what is read is what was stored
  stored_columns : stored_of node ≡ columns row
  stored_columns =
      let db' = (save_single_node s domain_tables (domain_text key) node db).1 in
      let text : c_str (domain_text key) ≡ row.text =
        rw (domain_text_lem key, stored_key, at_text) refl in
      let view : s.view db' ≡ set_at domain_tables row.text (entry_of node) (s.view db) =
        rw (← text) (save_single_node-Saved s sql domain_tables (domain_text key) node db saved) in
      let entry : s.view db' domain_tables row.text ≡ entry_of node =
        ap (λ (v : View). v domain_tables row.text) view
        ∙ set_at_here domain_tables row.text (entry_of node) (s.view db) in
      some-inj (sym (ap (λ (e : Entry). e.0) entry) ∙ read)

  -- A node of the domain cache was saved under its key, a stored copy of a domain, and the saving
  -- returned SQLITE_OK; a row with the text of the key holds what the main table then holds under it.
  -- If the row is not yet as old as its time to live, its categories can be queried, memory is there
  -- and the table takes the key: the row is loaded, and a lookup of the key at that time returns a
  -- node with the same verdict, trust level, time and time to live.
  pub save-load :
      (garbage : Node) (cats : List (Option Bytes)) (t : h.Table) (heap : Heap)
      → length key ≡ domain_max_len
      → row.categories ≡ some cats
      → node.timestamp < 2 ^ 64
      → node.ttl_seconds < 2 ^ 32
      → leb node.ttl_seconds (age_seconds now node.timestamp hz) ≡ false
      → (h.add_key_data t key heap.next).0 ≡ pos 0
      → FoundAgain h now hz key node (
          create_node_from_db_row h
            (λ old. old)
            (λ text. some (copy_domain text))
            garbage
            (true, true)
            now
            hz
            row
            t
            heap)
  unfolding create_node_from_db_row
  save-load garbage cats t heap len at_cats low_t low_ttl young ok =
      let hz_ne : (hz == 0) ≡ false = ground arith in
      let e = sym stored_columns in
      let loaded : Node = record garbage {
        categories = put_categories (λ old. old) garbage.categories cats;
        solution_is_send = to_bool row.solution_is_send;
        trust_lvl = row.trust_lvl;
        timestamp = to_u64 row.timestamp;
        ttl_seconds = to_u32 row.ttl_seconds;
      } in
      let same : SameDecision node loaded = record {
        solution_is_send =
            ap (λ (c : Stored). to_bool c.solution_is_send) e ∙ to_bool_bit node.solution_is_send;
        trust_lvl = ap (λ (c : Stored). c.trust_lvl) e;
        timestamp = ap (λ (c : Stored). to_u64 c.timestamp) e ∙ to_u64-to_i64 node.timestamp low_t;
        ttl_seconds =
            ap (λ (c : Stored). to_u32 c.ttl_seconds) e ∙ to_u32-to_i32 node.ttl_seconds low_ttl;
      } in
      let young' : leb (to_u32 row.ttl_seconds) (age_seconds now (to_u64 row.timestamp) hz)
          ≡ false =
        rw (same.timestamp, same.ttl_seconds) young in
      let at_key : copy_domain row.text ≡ key = rw at_text (copy_domain-c_str key ∙ stored_key) in
      let (t', heap', p, node', run, found, at_p, restored) =
        add_loaded-done h laws loaded cats key t heap ok in
      lookup-Restored h laws now hz key node _ hz_ne len young (
        t',
        heap',
        p,
        node',
        rw (hz_ne, young', at_cats, at_key) run,
        found,
        at_p,
        SameDecision-trans same restored,
      )
