-- ===== src/Cache/Invariant.antt =====
-- The invariant of a cache, its view as a map with expiry, and what single steps on the heap do to
-- both.
use grpc_server.Base.{
  ℕ, ◌≤◌, ◌≡◌, refl, true, false, Option, none, some, Bytes, memcmp_eq, memcmp_eq_iff, leb, ◌==◌,
  if◌then◌else◌, arith, Option-cases, Bool-cases, ==_iff, inl, inr,
}
use grpc_server.RteHash.{RteHash, Ptr, IsHash, found_at}
use grpc_server.Cache.{Node, Heap, update, age_seconds}

-- Pointer `p` is a live node whose key pointer is a live copy of `k`.
abbrev pub Holds : Heap → Bytes → Ptr → Type 0
Holds heap k p =
    (node : Node) × (kp : Ptr) × (heap.nodes p ≡ some node)
    × (node.key ≡ some kp)
    × (heap.keys kp ≡ some k)

-- No object lives at or above `next`.
pub record IsFresh (heap : Heap) : Type 0 where
  pub nodes : (p : Ptr) → heap.next ≤ p → heap.nodes p ≡ none
  pub keys : (p : Ptr) → heap.next ≤ p → heap.keys p ≡ none

-- Every entry of a table holds live objects.
abbrev pub AllHold : (h : RteHash) → h.Table → Heap → Type 0
AllHold h t heap = (k : Bytes) (p : Ptr) → found_at h t k ≡ some p → Holds heap k p

-- The node, unless it has expired.
abbrev pub live : ℕ → ℕ → Option Node → Option Node
live now hz none = none
live now hz (some node) =
    if leb node.ttl_seconds (age_seconds now node.timestamp hz) then none else some node

abbrev pub deref : Heap → Option Ptr → Option Node
deref heap none = none
deref heap (some p) = heap.nodes p

-- The map that a table stands for at time `now`.
unfoldable pub view : (h : RteHash) → ℕ → ℕ → h.Table → Heap → Bytes → Option Node
view h now hz t heap j = live now hz (deref heap (found_at h t j))

module _ (h : RteHash) (laws : IsHash h) (t : h.Table) (heap : Heap) (all : AllHold h t heap) where
  -- Two keys never share a node or a copy of the key.
  pub found_ne :
      (k j : Bytes) (p q : Ptr)
      → found_at h t k ≡ some p
      → found_at h t j ≡ some q
      → memcmp_eq k j ≡ false
      → (p == q) ≡ false
  found_ne k j p q fk fj ne =
      let (m, km, at_m, key_m, bytes_m) = all k p fk in
      let (n, kn, at_n, key_n, bytes_n) = all j q fj in ground (arith, memcmp_eq_iff k j)

  -- Without the entry, its node and its copy of the key, every other entry holds.
  pub AllHold-del :
      (k : Bytes) (p kp : Ptr) (node : Node)
      → found_at h t k ≡ some p
      → heap.nodes p ≡ some node
      → node.key ≡ some kp
      → AllHold h
          (h.del_key t k).1
          (record heap { nodes = update heap.nodes p none; keys = update heap.keys kp none })
  AllHold-del k p kp node fk at_p key_p j q fj = elim (Bool-cases (memcmp_eq k j)) [
    | inl same ↦ absurd (ground (arith, laws.del_entries t k j))
    | inr ne ↦
        let fj' : found_at h t j ≡ some q = ground (arith, laws.del_entries t k j) in
        let (m, km, at_m, key_m, bytes_m) = all k p fk in
        let (n, kn, at_n, key_n, bytes_n) = all j q fj' in
        let pq = found_ne k j p q fk fj' ne in
        let kk : (kp == kn) ≡ false = ground (arith, memcmp_eq_iff k j) in
        (n, kn, ground arith, key_n, ground arith)
  ]

  -- At the time when an entry has expired, the map is the same without it.
  pub view-del :
      (now hz : ℕ) (k : Bytes) (p kp : Ptr) (node : Node)
      → found_at h t k ≡ some p
      → heap.nodes p ≡ some node
      → leb node.ttl_seconds (age_seconds now node.timestamp hz) ≡ true
      → (j : Bytes)
      → view h now hz
          (h.del_key t k).1
          (record heap { nodes = update heap.nodes p none; keys = update heap.keys kp none })
          j
        ≡ view h now hz t heap j
  unfolding view
  view-del now hz k p kp node fk at_p old j = elim (Bool-cases (memcmp_eq k j)) [
    | inl same ↦
        let e : found_at h (h.del_key t k).1 j ≡ none = ground (arith, laws.del_entries t k j) in
        let e' : found_at h t j ≡ some p = ground (arith, memcmp_eq_iff k j) in
        rw (e, e') (ground arith)
    | inr ne ↦
        let e : found_at h (h.del_key t k).1 j ≡ found_at h t j =
          ground (arith, laws.del_entries t k j) in
        rw e (elim (Option-cases (found_at h t j)) [
          | inl miss ↦ rw miss refl
          | inr (q, hit) ↦ rw hit (ground (arith, found_ne k j p q fk hit ne))
        ])
  ]

pub IsFresh-del :
    (heap : Heap) (p kp : Ptr)
    → IsFresh heap
    → IsFresh (record heap { nodes = update heap.nodes p none; keys = update heap.keys kp none })
IsFresh-del heap p kp f = record {
  nodes = λ q le. ground (arith, f.nodes q);
  keys = λ q le. ground (arith, f.keys q);
}

pub update_self {ℓ} : {A : Type ℓ} (f : Ptr → A) (p : Ptr) (v : A) → update f p v p ≡ v
update_self f p v = rw ((==_iff p p).1 refl) refl

pub update_ne {ℓ} :
    {A : Type ℓ} (f : Ptr → A) (p q : Ptr) (v : A) → (p == q) ≡ false → update f p v q ≡ f q
update_ne f p q v e = rw e refl
