-- ===== src/Cache/Sample.antt =====
-- A heap with two entries' objects and a node that no entry points to, and tables over it.
use grpc_server.Base.{
  ◌≡◌, ◌≢◌, refl, true, Option, none, some, [], ◌∷◌, Bytes, memcmp_eq, memcmp_eq_iff, ◌⊎◌, List,
  pos, ◌==◌, inl, inr, if◌then◌else◌, arith,
}
use grpc_server.RteHash.{Ptr, find, found_at}
use grpc_server.Cache.{Node, Heap}
use grpc_server.Cache.Invariant.{Holds, IsFresh, AllHold}
use grpc_server.Cache.Table.{Table, sample_hash}

abbrev pub node_with : Option Ptr → Node
node_with key = record {
  categories = [];
  solution_is_send = true;
  trust_lvl = pos 0;
  timestamp = 1000;
  ttl_seconds = 10;
  key = key;
}

abbrev pub key_1 : Bytes
key_1 = 1 ∷ []

abbrev pub key_2 : Bytes
key_2 = 2 ∷ []

-- nodes 0 and 1 with their keys, and node 2 without one
abbrev pub sample_heap : Heap
sample_heap = record {
  next = 3;
  nodes = λ p.
      if p == 0
      then some (node_with (some 0))
      else if p == 1
      then some (node_with (some 1))
      else if p == 2
      then some (node_with none)
      else none;
  keys = λ p. if p == 0 then some key_1 else if p == 1 then some key_2 else none;
}

pub key_1_alone : find key_1 [] ≡ none
unfolding find
key_1_alone = refl

pub key_2_alone : find key_2 [] ≡ none
unfolding find
key_2_alone = refl

pub keys_apart : find key_1 ((key_2, 1) ∷ []) ≡ none
unfolding find memcmp_eq
keys_apart = refl

abbrev pub one_entry : Table
one_entry = ((key_1, 0) ∷ [], (key_1_alone, tt))

abbrev pub two_entries : Table
two_entries = ((key_1, 0) ∷ (key_2, 1) ∷ [], (keys_apart, (key_2_alone, tt)))

find-cons :
    (k j : Bytes) (p q : Ptr) (entries : List (Bytes × Ptr))
    → find k ((j, q) ∷ entries) ≡ some p
    → ((j ≡ k) × (q ≡ p)) ⊎ (find k entries ≡ some p)
unfolding find
find-cons k j p q entries e = ground (arith, memcmp_eq_iff j k)

at_key_1 : (k : Bytes) (p : Ptr) → (key_1 ≡ k) × (0 ≡ p) → Holds sample_heap k p
at_key_1 k p (e, z) = rw (← e, ← z) (node_with (some 0), 0, refl, refl, refl)

at_key_2 : (k : Bytes) (p : Ptr) → (key_2 ≡ k) × (1 ≡ p) → Holds sample_heap k p
at_key_2 k p (e, z) = rw (← e, ← z) (node_with (some 1), 1, refl, refl, refl)

absent : (k : Bytes) (p : Ptr) → find k [] ≡ some p → Holds sample_heap k p
unfolding find
absent k p e = absurd (ground arith)

pub sample_heap-IsFresh : IsFresh sample_heap
sample_heap-IsFresh = record { nodes = λ p le. ground arith; keys = λ p le. ground arith }

pub two_entries-AllHold : AllHold sample_hash two_entries sample_heap
two_entries-AllHold k p e = elim (find-cons k key_1 p 0 _ e) [
  | inl at ↦ at_key_1 k p at
  | inr rest ↦ elim (find-cons k key_2 p 1 _ rest) [
    | inl at ↦ at_key_2 k p at
    | inr rest' ↦ absent k p rest'
  ]
]

pub one_entry-AllHold : AllHold sample_hash one_entry sample_heap
one_entry-AllHold k p e = elim (find-cons k key_1 p 0 _ e) [
  | inl at ↦ at_key_1 k p at
  | inr rest ↦ absent k p rest
]

pub one_entry-unlinked : (k : Bytes) → found_at sample_hash one_entry k ≢ some 2
unfolding find
one_entry-unlinked k e = ground arith

pub two_entries-unlinked : (k : Bytes) → found_at sample_hash two_entries k ≢ some 2
unfolding find
two_entries-unlinked k e = ground arith
