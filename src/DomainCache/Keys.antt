-- ===== src/DomainCache/Keys.antt =====
-- The keys of domain_cache.c: the buffer that is looked up against the copy that is stored.
use grpc_server.Base.{
  ℕ, zero, suc, ◌+◌, sym, Bool-cases, Option-cases, inl, inr, none, ◌≡◌, ◌≢◌, ◌∙◌, refl, ap, true,
  false, [], ◌∷◌, ◌++◌, Bytes, ℤ, pos, some, length, take, replicate, c_str, memcmp_eq,
  memcmp_eq_iff, ◌==◌, arith,
}
use grpc_server.Base.Run.{done}
use grpc_server.RteHash.{RteHash, Ptr, IsHash, found_at, enoent}
use grpc_server.Cache.{Node, Heap, Cache, lookup_cache}
use grpc_server.Cache.Invariant.{IsFresh, AllHold, live, view}
use grpc_server.Cache.Insert.{stored, new_heap, add_run, AllHold-add, IsFresh-add, view-add}
use grpc_server.DomainCache.{
  domain_max_len, strncpy, copy_domain, lookup_dns_cache, add_to_dns_cache,
}

-- No byte is NUL.
abbrev pub NoNul : Bytes → Type 0
NoNul [] = Unit
NoNul (b ∷ bs) = (b ≢ 0) × NoNul bs

c_str-NoNul : (text rest : Bytes) → NoNul text → c_str (text ++ 0 ∷ rest) ≡ text
unfolding c_str
c_str-NoNul [] rest h = refl
c_str-NoNul (b ∷ text) rest h =
    let nz : (b == 0) ≡ false = ground (arith, h.0) in rw (nz, c_str-NoNul text rest h.1) refl

strncpy-zeros : (n : ℕ) → strncpy n [] ≡ replicate n 0
unfolding strncpy
strncpy-zeros zero = refl
strncpy-zeros (suc n) = ap (◌∷◌ 0) (strncpy-zeros n)

strncpy-take :
    (n : ℕ) (text : Bytes) (k : ℕ)
    → length text + k ≡ n
    → take n (strncpy (suc n) text) ++ 0 ∷ [] ≡ text ++ replicate (suc k) 0
unfolding strncpy
strncpy-take zero [] zero e = refl
strncpy-take zero [] (suc k) e = absurd (omega arith)
strncpy-take zero (b ∷ text) k e = absurd (omega arith)
strncpy-take (suc n) [] zero e = absurd (omega arith)
strncpy-take (suc n) [] (suc k) e = ap (◌∷◌ 0) (strncpy-take n [] k (omega arith))
strncpy-take (suc n) (b ∷ text) k e = ap (◌∷◌ b) (strncpy-take n text k (omega arith))

-- The stored copy of a domain without a NUL inside, in a buffer filled with NULs, is the buffer.
pub copy_domain-clean :
    (text : Bytes) (k : ℕ)
    → NoNul text
    → length text + k ≡ 259
    → copy_domain (text ++ replicate (suc k) 0) ≡ text ++ replicate (suc k) 0
unfolding copy_domain
copy_domain-clean text k h e = rw (c_str-NoNul text (replicate k 0) h) (strncpy-take 259 text k e)

NoNul-c_str : (bytes : Bytes) → NoNul (c_str bytes)
unfolding c_str
NoNul-c_str [] = tt
NoNul-c_str (b ∷ bytes) = elim (Bool-cases (b == 0)) [
  | inl e ↦ rw e tt
  | inr e ↦ rw e ((λ z. ground (arith, e, z)), NoNul-c_str bytes)
]

NoNul-take : (n : ℕ) (text : Bytes) → NoNul text → NoNul (take n text)
NoNul-take zero [] h = tt
NoNul-take zero (b ∷ text) h = tt
NoNul-take (suc n) [] h = tt
NoNul-take (suc n) (b ∷ text) h = (h.0, NoNul-take n text h.1)

-- the copy of a text of any length is what fits of it, with NULs behind
strncpy-cut :
    (n : ℕ) (text : Bytes)
    → (k : ℕ) × (take n (strncpy (suc n) text) ++ 0 ∷ [] ≡ take n text ++ replicate (suc k) 0)
      × (length (take n text) + k ≡ n)
unfolding strncpy
strncpy-cut zero [] = (0, refl, refl)
strncpy-cut zero (b ∷ text) = (0, refl, refl)
strncpy-cut (suc n) [] = (suc n, strncpy-take (suc n) [] (suc n) (omega arith), omega arith)
strncpy-cut (suc n) (b ∷ text) =
    let (k, same, len) = strncpy-cut n text in (k, ap (◌∷◌ b) same, omega (arith, len))

copy_domain_lem :
    (d : Bytes) → copy_domain d ≡ take 259 (strncpy domain_max_len (c_str d)) ++ 0 ∷ []
unfolding copy_domain
copy_domain_lem d = refl

-- A stored copy is its own copy.
copy_domain-copy_domain : (domain : Bytes) → copy_domain (copy_domain domain) ≡ copy_domain domain
copy_domain-copy_domain domain =
    let text = c_str domain in
    let (k, same, len) = strncpy-cut 259 text in
    let e : copy_domain domain ≡ take 259 text ++ replicate (suc k) 0 =
      copy_domain_lem domain ∙ same in
    rw e (copy_domain-clean (take 259 text) k (NoNul-take 259 text (NoNul-c_str domain)) len)

-- Every key of the table is its own stored copy.
abbrev pub AllCopies : (h : RteHash) → h.Table → Type 0
AllCopies h t = (k : Bytes) (p : Ptr) → found_at h t k ≡ some p → copy_domain k ≡ k

-- A key that is not its own stored copy is not there.
AllCopies-missing :
    (h : RteHash) (t : h.Table) (k : Bytes)
    → AllCopies h t
    → copy_domain k ≢ k
    → found_at h t k ≡ none
AllCopies-missing h t k copies dirty = elim (Option-cases (found_at h t k)) [
  | inl miss ↦ miss
  | inr (p, found) ↦ absurd (dirty (copies k p found))
]

-- A lookup of a key that is not there changes nothing.
lookup_cache_missing :
    (h : RteHash) (laws : IsHash h) (now hz : ℕ) (key : Bytes) (t : h.Table) (heap : Heap)
    → found_at h t key ≡ none
    → lookup_cache h now hz key (record { hash = some t; heap = heap })
      ≡ done ((enoent, none), record { hash = some t; heap = heap })
unfolding lookup_cache
lookup_cache_missing h laws now hz key t heap miss = rw (laws.lookup_miss t key miss) refl

module _ (h : RteHash) (laws : IsHash h) (now : ℕ) (ttl : ℤ) (domain : Bytes) (p : Ptr)
    (t : h.Table) (heap : Heap) (node : Node) (all : AllHold h t heap) (fresh : IsFresh heap)
    (at_p : heap.nodes p ≡ some node) (unlinked : (k : Bytes) → found_at h t k ≢ some p)
    (copies : AllCopies h t) where
  AllCopies-add :
      (h.add_key_data t (copy_domain domain) p).0 ≡ pos 0
      → AllCopies h (h.add_key_data t (copy_domain domain) p).1
  AllCopies-add ok k q found = elim (Bool-cases (memcmp_eq (copy_domain domain) k)) [
    | inl same ↦
        let e = (memcmp_eq_iff (copy_domain domain) k).0 same in
        rw (sym e) (copy_domain-copy_domain domain)
    | inr ne ↦
        let old : found_at h t k ≡ some q =
          ground (arith, laws.add_ok t (copy_domain domain) p k ok) in
        copies k q old
  ]

  -- Take a domain buffer whose 260 bytes are not their own stored copy, as when a label of the query
  -- has a NUL inside, and a table all of whose keys are stored copies. The insertion of a node that
  -- the table takes succeeds, and all keys are stored copies again; a lookup of the buffer at any
  -- time later returns -ENOENT with no node and changes nothing, so it is never found, while the
  -- node stands in the map under the copy.
  pub add_to_dns_cache_dirty :
      (later hz : ℕ)
      → copy_domain (take domain_max_len domain) ≢ take domain_max_len domain
      → (h.add_key_data t (copy_domain domain) p).0 ≡ pos 0
      → (c : Cache h) × (t' : h.Table) × (add_to_dns_cache h true now domain p ttl
            (record { hash = some t; heap = heap })
          ≡ done c)
        × (c.hash ≡ some t')
        × AllHold h t' c.heap
        × IsFresh c.heap
        × AllCopies h t'
        × (lookup_dns_cache h later hz domain c ≡ done ((enoent, none), c))
        × (view h later hz t' c.heap (copy_domain domain)
            ≡ live later hz (some (stored node now ttl heap.next)))
  unfolding add_to_dns_cache lookup_dns_cache
  add_to_dns_cache_dirty later hz dirty ok =
      let key = take domain_max_len domain in
      let t' = (h.add_key_data t (copy_domain domain) p).1 in
      let heap' =
        new_heap h laws now ttl (copy_domain domain) p t heap node all fresh at_p unlinked in
      let all' =
        AllHold-add h laws now ttl (copy_domain domain) p t heap node all fresh at_p unlinked ok in
      let fresh' =
        IsFresh-add h laws now ttl (copy_domain domain) p t heap node all fresh at_p unlinked in
      let copies' = AllCopies-add ok in
      (
        record { hash = some t'; heap = heap' },
        t',
        add_run h laws now ttl (copy_domain domain) p t heap node all fresh at_p unlinked ok,
        refl,
        all',
        fresh',
        copies',
        lookup_cache_missing h laws later hz key t' heap'
            (AllCopies-missing h t' key copies' dirty),
        view-add h laws now ttl (copy_domain domain) p t heap node all fresh at_p unlinked later hz
              (copy_domain domain) ok
            ∙ rw ((memcmp_eq_iff (copy_domain domain) (copy_domain domain)).1 refl) refl,
      )
