-- ===== src/Cache/Ends.antt =====
-- No operation of a cache has a loop that could run out of fuel, and none opens it or closes it.
use grpc_server.Base.{
  ℕ, ◌≡◌, refl, Bool, true, false, Option, none, some, List, [], ◌∷◌, Bytes, ℤ, ℤ-cases, pos,
  negsuc, Option-cases, inl, inr, leb, ◌==◌,
}
use grpc_server.Base.Run.{
  Run, done, fault, no_fuel, ◌>>=◌, or_fault, Gives, Ends, Gives-bind-Ends, Gives-if,
  Gives-or_fault,
}
use grpc_server.RteHash.{RteHash, Ptr}
use grpc_server.Cache.{
  Node, Heap, Cache, is_open, age_seconds, free_node, free_key, drop_expired, check_found,
  lookup_cache, insert_key, add_to_cache, free_entries,
}

pub Ends-bind {ℓ} :
    {A B : Type ℓ} (m : Run A) (f : A → Run B) → Ends m → ((a : A) → Ends (f a)) → Ends (m >>= f)
Ends-bind (done a) f h k = k a
Ends-bind fault f h k = tt
Ends-bind no_fuel f h k = h

Ends-free_node : (p : Ptr) (heap : Heap) → Ends (free_node p heap)
unfolding free_node
Ends-free_node p heap =
    Ends-bind (or_fault (heap.nodes p)) _ (Gives-or_fault _ (heap.nodes p) (λ _. tt)) (λ _. tt)

Ends-free_key : (k : Option Ptr) (heap : Heap) → Ends (free_key k heap)
unfolding free_key
Ends-free_key none heap = tt
Ends-free_key (some p) heap =
    Ends-bind (or_fault (heap.keys p)) _ (Gives-or_fault _ (heap.keys p) (λ _. tt)) (λ _. tt)

-- both objects of an entry
pub Ends-free_entries :
    (h : RteHash) (entries : List (Bytes × Ptr)) (heap : Heap) → Ends (free_entries h entries heap)
unfolding free_entries
Ends-free_entries h [] heap = tt
Ends-free_entries h ((k, p) ∷ entries) heap =
    Ends-bind (or_fault (heap.nodes p)) _ (Gives-or_fault _ (heap.nodes p) (λ _. tt)) (λ node.
      Ends-bind (free_key node.key heap) _ (Ends-free_key node.key heap) (λ heap'.
        Ends-bind (free_node p heap') _ (Ends-free_node p heap')
          (λ heap''. Ends-free_entries h entries heap'')))

-- both objects of an entry are freed, and what is left is the same for every heap
Gives-free_both :
    {A : Type 0} (P : A → Type 0) (k : Option Ptr) (p : Ptr) (heap : Heap) (f : Heap → A)
    → ((heap' : Heap) → P (f heap'))
    → Gives P (free_key k heap >>= (λ heap'. free_node p heap' >>= (λ heap''. done (f heap''))))
Gives-free_both P k p heap f each =
    Gives-bind-Ends P (free_key k heap) _ (Ends-free_key k heap)
      (λ heap'. Gives-bind-Ends P (free_node p heap') _ (Ends-free_node p heap') each)

-- No operation opens a cache or closes it.
module _ (h : RteHash) where
  abbrev IsOpen : (ℤ × Option Ptr) × Cache h → Type 0
  IsOpen (r, c) = is_open c ≡ true

  drop_expired-IsOpen :
      (key : Bytes) (t : h.Table) (p : Ptr) (node : Node) (heap : Heap)
      → Gives IsOpen (drop_expired h key t p node heap)
  unfolding drop_expired
  drop_expired-IsOpen key t p node heap = elim (ℤ-cases (h.del_key t key).0) [
    | inl (i, e) ↦ rw (drop_expired, e) (Gives-free_both IsOpen node.key p heap _ (λ heap'. refl))
    | inr (n, e) ↦ rw (drop_expired, e) refl
  ]

  check_found-IsOpen :
      (now hz : ℕ) (key : Bytes) (t : h.Table) (r : ℤ × Option Ptr) (heap : Heap)
      → Gives IsOpen (check_found h now hz key t r heap)
  unfolding check_found
  check_found-IsOpen now hz key t (pos i, some p) heap =
      Gives-bind-Ends IsOpen (or_fault (heap.nodes p)) _ (Gives-or_fault _ (heap.nodes p) (λ _. tt))
        (λ node.
          Gives-if _ (hz == 0) fault _ (λ _. tt)
            (λ _.
              Gives-if _ (leb node.ttl_seconds (age_seconds now node.timestamp hz))
                (drop_expired h key t p node heap) _ (λ _. drop_expired-IsOpen key t p node heap)
                (λ _. refl)))
  check_found-IsOpen now hz key t (pos i, none) heap = refl
  check_found-IsOpen now hz key t (negsuc n, found) heap = refl

  pub Gives-lookup_cache :
      (now hz : ℕ) (key : Bytes) (c : Cache h)
      → Gives (λ out. is_open out.1 ≡ is_open c) (lookup_cache h now hz key c)
  unfolding lookup_cache
  Gives-lookup_cache now hz key c = elim (Option-cases c.hash) [
    | inl null ↦ rw null refl
    | inr (t, e) ↦ rw e (check_found-IsOpen now hz key t (h.lookup_data t key) c.heap)
  ]

  insert_key-same :
      (kp : Ptr) (key : Bytes) (p : Ptr) (hash : Option h.Table) (heap : Heap)
      → Gives
          (λ c. is_open c ≡ is_open {h = h} (record { hash = hash; heap = heap }))
          (insert_key h kp key p hash heap)
  unfolding insert_key
  insert_key-same kp key p none heap = Gives-free_both _ (some kp) p heap _ (λ heap'. refl)
  insert_key-same kp key p (some t) heap = elim (ℤ-cases (h.add_key_data t key p).0) [
    | inl (i, e) ↦
        rw (insert_key, e)
          (Gives-if _ (i == 0) _ _ (λ _. refl)
            (λ _. Gives-free_both _ (some kp) p heap _ (λ heap'. refl)))
    | inr (n, e) ↦ rw (insert_key, e) (Gives-free_both _ (some kp) p heap _ (λ heap'. refl))
  ]

  pub Gives-add_to_cache :
      (malloc_ok : Bool) (now : ℕ) (key : Bytes) (p : Ptr) (ttl : ℤ) (c : Cache h)
      → Gives (λ c'. is_open c' ≡ is_open c) (add_to_cache h malloc_ok now key p ttl c)
  unfolding add_to_cache
  Gives-add_to_cache true now key p ttl c =
      Gives-bind-Ends _ (or_fault (c.heap.nodes p)) _ (Gives-or_fault _ (c.heap.nodes p) (λ _. tt))
        (λ node. insert_key-same _ key p c.hash _)
  Gives-add_to_cache false now key p ttl c =
      Gives-bind-Ends _ (free_node p c.heap) _ (Ends-free_node p c.heap) (λ _. refl)
