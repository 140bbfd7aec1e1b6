-- ===== src/Cache.antt =====
-- What worker/src/dpdk_filter/domain_cache.c and ip_cache.c have in common: a hash table of pointers
-- to nodes, each with a pointer to the copy of its key, and the heap that both are allocated on.
-- A spinlock is held around each access to the table, so each function is one step.
pub mod Invariant
pub mod Ends
pub mod Lookup
pub mod Insert
pub mod Total
pub mod Roundtrip
pub mod Release
pub mod Table
pub mod Sample
mod Tests
use grpc_server.Base.{
  ℕ, ◌+◌, ◌-◌, ◌/◌, ◌%◌, ◌^◌, Bool, true, false, Option, none, some, List, [], ◌∷◌, Bytes, ℤ, pos,
  negsuc, leb, ◌==◌, if◌then◌else◌,
}
use grpc_server.Base.Run.{Run, done, fault, no_fuel, ◌>>=◌, or_fault}
use grpc_server.RteHash.{RteHash, Ptr, enoent, einval}

-- struct node_cache_domain and struct node_cache_ip: the fields that the program uses
pub record Node : Type 0 where
  pub categories : List Bytes
  pub solution_is_send : Bool
  pub trust_lvl : ℤ
  pub timestamp : ℕ
  pub ttl_seconds : ℕ
  pub key : Option Ptr

-- The live objects. `next` is an address above all of them.
pub record Heap : Type 0 where
  pub next : Ptr
  pub nodes : Ptr → Option Node
  pub keys : Ptr → Option Bytes

abbrev pub update {ℓ} : {A : Type ℓ} → (Ptr → A) → Ptr → A → Ptr → A
update f p v q = if p == q then v else f q

-- the table or NULL, and the heap
pub record Cache (h : RteHash) : Type 0 where
  pub hash : Option h.Table
  pub heap : Heap

abbrev pub is_open : {h : RteHash} → Cache h → Bool
is_open c = elim c.hash [ none ↦ false | some t ↦ true ]

-- rte_calloc of a node
unfoldable pub alloc_node : Node → Heap → Ptr × Heap
alloc_node node heap = (
  heap.next,
  record heap { next = heap.next + 1; nodes = update heap.nodes heap.next (some node) },
)

-- rte_malloc of a key, and the copy into it
unfoldable pub alloc_key : Bytes → Heap → Ptr × Heap
alloc_key key heap =
    (heap.next, record heap { next = heap.next + 1; keys = update heap.keys heap.next (some key) })

-- rte_free; NULL is ignored, and an object that is not live is a fault
unfoldable pub free_node : Ptr → Heap → Run Heap
free_node p heap = do
  node ← or_fault (heap.nodes p)
  done (record heap { nodes = update heap.nodes p none })

unfoldable pub free_key : Option Ptr → Heap → Run Heap
free_key none heap = done heap
free_key (some p) heap = do
  key ← or_fault (heap.keys p)
  done (record heap { keys = update heap.keys p none })

-- an `int` stored in a `uint32_t`
unfoldable pub to_u32 : ℤ → ℕ
to_u32 (pos n) = n % 2 ^ 32
to_u32 (negsuc n) = 2 ^ 32 - 1 - n % 2 ^ 32

-- (now - timestamp) / hz, over uint64_t
unfoldable pub age_seconds : ℕ → ℕ → ℕ → ℕ
age_seconds now timestamp hz = (now + 2 ^ 64 - timestamp) % 2 ^ 64 / hz

module _ (h : RteHash) where
  -- the removal of an expired node
  unfoldable pub drop_expired :
      Bytes → h.Table → Ptr → Node → Heap → Run ((ℤ × Option Ptr) × Cache h)
  drop_expired key t p node heap =
      let (ret_del, t') = h.del_key t key in
      elim ret_del [
        | negsuc _ ↦ done ((enoent, some p), record { hash = some t'; heap = heap })
        | pos _ ↦ do
          heap' ← free_key node.key heap
          heap'' ← free_node p heap'
          done ((enoent, none), record { hash = some t'; heap = heap'' })
      ]

  -- what follows `rte_hash_lookup_data`
  unfoldable pub check_found :
      ℕ → ℕ → Bytes → h.Table → ℤ × Option Ptr → Heap → Run ((ℤ × Option Ptr) × Cache h)
  unfolding drop_expired
  check_found now hz key t (pos i, some p) heap = do
    node ← or_fault (heap.nodes p)
    if hz == 0
        then fault
        else if leb node.ttl_seconds (age_seconds now node.timestamp hz)
        then drop_expired key t p node heap
        else done ((pos i, some p), record { hash = some t; heap = heap })
  check_found now hz key t r heap = done (r, record { hash = some t; heap = heap })

  -- the return value, and `*return_node`
  unfoldable pub lookup_cache : ℕ → ℕ → Bytes → Cache h → Run ((ℤ × Option Ptr) × Cache h)
  unfolding check_found
  lookup_cache now hz key c = elim c.hash [
    | none ↦ done ((einval, none), c)
    | some t ↦ check_found now hz key t (h.lookup_data t key) c.heap
  ]

  -- the end of an insertion: both objects are freed where the table refuses the key
  unfoldable pub insert_key : Ptr → Bytes → Ptr → Option h.Table → Heap → Run (Cache h)
  insert_key kp key p none heap = do
    heap' ← free_key (some kp) heap
    heap'' ← free_node p heap'
    done (record { hash = none; heap = heap'' })
  insert_key kp key p (some t) heap =
      let (ret, t') = h.add_key_data t key p in
      elim ret [
        | negsuc _ ↦ do
          heap' ← free_key (some kp) heap
          heap'' ← free_node p heap'
          done (record { hash = some t'; heap = heap'' })
        | pos i ↦ if i == 0 then done (record { hash = some t'; heap = heap }) else do
          heap' ← free_key (some kp) heap
          heap'' ← free_node p heap'
          done (record { hash = some t'; heap = heap'' })
      ]

  -- `malloc_ok` is whether `rte_malloc` of the key succeeds, and `key` the bytes of its copy.
  unfoldable pub add_to_cache : Bool → ℕ → Bytes → Ptr → ℤ → Cache h → Run (Cache h)
  unfolding insert_key
  add_to_cache malloc_ok now key p ttl c =
      if malloc_ok
      then (do
        node ← or_fault (c.heap.nodes p)
        let (kp, heap) = alloc_key key c.heap
        let node' = record node { timestamp = now; ttl_seconds = to_u32 ttl; key = some kp }
        insert_key kp key p c.hash (record heap { nodes = update heap.nodes p (some node') }))
      else do heap ← free_node p c.heap; done (record c { heap = heap })

  -- the loop of `free_dns_cache` and `free_ip_cache`
  unfoldable pub free_entries : List (Bytes × Ptr) → Heap → Run Heap
  free_entries [] heap = done heap
  free_entries ((k, p) ∷ entries) heap = do
    node ← or_fault (heap.nodes p)
    heap' ← free_key node.key heap
    heap'' ← free_node p heap'
    free_entries entries heap''

  unfoldable pub clear_cache : Cache h → Cache h
  clear_cache c = elim c.hash [ none ↦ c | some t ↦ record c { hash = some (h.reset t) } ]
