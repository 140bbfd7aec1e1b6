-- ===== src/Load.antt =====
-- The loading of the caches from their databases: worker/src/dpdk_filter/domain_cache.c and
-- ip_cache.c, which differ in the key of a row and in what a NULL category leaves. What SQLite
-- answers is a parameter.
pub mod Rows
mod Tests
use grpc_server.Base.{
  ℕ, zero, suc, ◌+◌, ◌-◌, ◌%◌, ◌^◌, Bool, true, false, not, Option, none, some, List, [], ◌∷◌, ◌++◌,
  Bytes, ℤ, pos, negsuc, c_str, leb, ◌==◌, if◌then◌else◌,
}
use grpc_server.Base.Run.{Run, done, fault, ◌>>=◌, or_fault}
use grpc_server.RteHash.{RteHash, Ptr}
use grpc_server.Cache.{
  Node, Heap, Cache, update, alloc_node, alloc_key, free_node, free_key, age_seconds, to_u32,
}
use grpc_server.DomainCache.{strncpy}

-- A row of the main table, and the categories that the second query gives for it: `none` where the
-- query cannot be prepared.
pub record Row : Type 0 where
  pub text : Bytes
  pub solution_is_send : ℤ
  pub trust_lvl : ℤ
  pub timestamp : ℤ
  pub ttl_seconds : ℤ
  pub categories : Option (List (Option Bytes))

pub data LoadResult : Type 0 where
  load_ok load_expired load_error : LoadResult

-- an `int64_t` stored in a `uint64_t`
unfoldable pub to_u64 : ℤ → ℕ
to_u64 (pos n) = n % 2 ^ 64
to_u64 (negsuc n) = 2 ^ 64 - 1 - n % 2 ^ 64

-- an `int` stored in a `bool`
abbrev pub to_bool : ℤ → Bool
to_bool (pos zero) = false
to_bool (pos (suc n)) = true
to_bool (negsuc n) = true

-- The loop over the categories; `on_null` is what a NULL makes of the old row.
unfoldable pub put_categories : (Bytes → Bytes) → List Bytes → List (Option Bytes) → List Bytes
put_categories on_null [] cats = []
put_categories on_null (old ∷ rows) [] = old ∷ rows
put_categories on_null (old ∷ rows) (none ∷ cats) = on_null old ∷ put_categories on_null rows cats
put_categories on_null (old ∷ rows) (some cat ∷ cats) =
    (strncpy 63 (c_str cat) ++ 0 ∷ []) ∷ put_categories on_null rows cats

-- -ENOMEM
abbrev pub enomem : ℤ
enomem = negsuc 11

module _ (h : RteHash) where
  -- the table's answer to an insertion
  unfoldable pub inserted : ℤ × h.Table → Ptr → Heap → Run (ℤ × h.Table × Heap)
  inserted (pos i, t') kp heap = done (pos 0, t', heap)
  inserted (negsuc n, t') kp heap = do heap' ← free_key (some kp) heap; done (negsuc n, t', heap')

  -- `insert_loaded_node_domain` and `insert_loaded_node_ip`
  unfoldable pub insert_loaded_node : Bool → Bytes → Ptr → h.Table → Heap → Run (ℤ × h.Table × Heap)
  unfolding inserted
  insert_loaded_node malloc_ok key p t heap =
      if malloc_ok
      then (do
        node ← or_fault (heap.nodes p)
        let (kp, heap') = alloc_key key heap
        inserted (h.add_key_data t key p) kp
            (record heap' { nodes = update heap'.nodes p (some (record node { key = some kp })) }))
      else done (enomem, t, heap)

  -- the end of `create_domain_node_from_db_row`: the node is freed on an error
  unfoldable pub finish : Ptr → ℤ × h.Table × Heap → Run (LoadResult × h.Table × Heap)
  finish p (pos zero, t, heap) = done (load_ok, t, heap)
  finish p (pos (suc i), t, heap) = do heap' ← free_node p heap; done (load_error, t, heap')
  finish p (negsuc n, t, heap) = do heap' ← free_node p heap; done (load_error, t, heap')

  -- the node and its insertion; `key` is `none` where `ip_str_to_key` fails
  unfoldable pub add_loaded :
      Bool
      → Node
      → Option (List (Option Bytes))
      → Option Bytes
      → h.Table
      → Heap
      → Run (LoadResult × h.Table × Heap)
  unfolding finish
  add_loaded key_ok node none key t heap = do
    let (p, heap') = alloc_node node heap
    heap'' ← free_node p heap'
    done (load_error, t, heap'')
  add_loaded key_ok node (some cats) none t heap = do
    let (p, heap') = alloc_node node heap
    heap'' ← free_node p heap'
    done (load_error, t, heap'')
  add_loaded key_ok node (some cats) (some key) t heap = do
    let (p, heap') = alloc_node node heap
    r ← insert_loaded_node key_ok key p t heap'
    finish p r

  -- `create_domain_node_from_db_row` and `create_node_from_db_row`. `garbage` is what `rte_malloc`
  -- leaves in the categories and the key pointer of the node.
  unfoldable pub create_node_from_db_row :
      (Bytes → Bytes)
      → (Bytes → Option Bytes)
      → Node
      → Bool × Bool
      → ℕ
      → ℕ
      → Row
      → h.Table
      → Heap
      → Run (LoadResult × h.Table × Heap)
  create_node_from_db_row on_null key_of garbage (node_ok, key_ok) now hz row t heap =
      if hz == 0
      then fault
      else if leb (to_u32 row.ttl_seconds) (age_seconds now (to_u64 row.timestamp) hz)
      then done (load_expired, t, heap)
      else if not node_ok
      then done (load_error, t, heap)
      else add_loaded key_ok
          (record garbage {
            categories = elim row.categories [
              | none ↦ garbage.categories
              | some cats ↦ put_categories on_null garbage.categories cats
            ];
            solution_is_send = to_bool row.solution_is_send;
            trust_lvl = row.trust_lvl;
            timestamp = to_u64 row.timestamp;
            ttl_seconds = to_u32 row.ttl_seconds;
          })
          row.categories (key_of row.text) t heap

-- the three counters
pub record Counts : Type 0 where
  pub loaded : ℕ
  pub expired : ℕ
  pub errors : ℕ

unfoldable pub count_result : LoadResult → Counts → Counts
count_result load_ok c = record c { loaded = c.loaded + 1 }
count_result load_expired c = record c { expired = c.expired + 1 }
count_result load_error c = record c { errors = c.errors + 1 }

module _ (h : RteHash) (on_null : Bytes → Bytes) (key_of : Bytes → Option Bytes)
    (garbage : ℕ → Node) (malloc_ok : ℕ → Bool × Bool) (now hz : ℕ) where
  -- the loop of `load_cache_from_sqlite` and `load_cache_ip_from_sqlite`; `i` numbers its rounds
  unfoldable pub load_rows : ℕ → List Row → Counts → h.Table → Heap → Run (Counts × h.Table × Heap)
  load_rows i [] counts t heap = done (counts, t, heap)
  load_rows i (row ∷ rows) counts t heap = do
    (res, t', heap') ←
        create_node_from_db_row h on_null key_of (garbage i) (malloc_ok i) now hz row t heap
    load_rows (suc i) rows (count_result res counts) t' heap'
