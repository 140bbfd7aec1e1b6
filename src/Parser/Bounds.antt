-- ===== src/Parser/Bounds.antt =====
-- The name loops of `parsing_pakage` on arbitrary bytes: they end, and what they accept stays
-- inside `domain`.
use grpc_server.Base.{
  ℕ, zero, suc, ◌+◌, ◌≤◌, ◌<◌, ◌≡◌, ◌≢◌, refl, inl, inr, ◌&&◌, List, [], ◌∷◌, ◌++◌, Bytes, length,
  drop, take, ltb, ◌==◌, length-append, if◌then◌else◌, arith, Bool-cases, ◌-◌, ◌∙◌,
}
use native.Mathlib.Decide.{dec_le}
use grpc_server.Base.Run.{Run, done, fault, no_fuel, ◌>>=◌}
use grpc_server.Parser.Dns.{domain_max_len, add_dot, dns_scan, dns_copy, store_domain, dns_name}
use grpc_server.Parser.Names.{wire, wire_len, AreLabels, dns_scan-label}

-- Each round adds at least 2 to `domain_len`, and the loop stops at 255.
dns_scan-ne-no_fuel :
    (fuel : ℕ) (rest : Bytes) (n : ℕ) → 255 ≤ fuel + n → dns_scan (suc fuel) rest n ≢ no_fuel
unfolding dns_scan
dns_scan-ne-no_fuel fuel [] n f = ground arith
dns_scan-ne-no_fuel zero (b ∷ rest) n f = ground arith
dns_scan-ne-no_fuel (suc fuel) (b ∷ rest) n f =
    ground (arith, dns_scan-ne-no_fuel fuel (drop b rest) (n + (b + 1)))

-- The second loop follows the labels that the first one has seen.
dns_copy-ne-no_fuel :
    (fuel : ℕ) (rest : Bytes) (n m : ℕ) (written : Bytes)
    → dns_scan fuel rest n ≡ done (0, m)
    → dns_copy fuel rest written ≢ no_fuel
unfolding dns_scan dns_copy
dns_copy-ne-no_fuel zero rest n m written e = cc
dns_copy-ne-no_fuel (suc fuel) [] n m written e = ground arith
dns_copy-ne-no_fuel (suc fuel) (b ∷ rest) n m written e =
    ground (
      arith,
      dns_copy-ne-no_fuel fuel (drop b rest) (n + (b + 1)) m (add_dot written ++ take b rest),
    )

-- What the second loop returns leaves room for its NUL.
dns_copy-length :
    (fuel : ℕ) (rest written text : Bytes)
    → dns_copy fuel rest written ≡ done text
    → length text < domain_max_len
unfolding dns_copy
dns_copy-length zero rest written text e = cc
dns_copy-length (suc fuel) [] written text e = cc
dns_copy-length (suc fuel) (b ∷ rest) written text e =
    ground (arith, dns_copy-length fuel (drop b rest) (add_dot written ++ take b rest) text)

-- Whatever bytes stand in the packet, 256 rounds are enough for both loops.
pub dns_name-ne-no_fuel : (rest old : Bytes) → dns_name rest old ≢ no_fuel
unfolding dns_name
dns_name-ne-no_fuel rest old = go (dns_scan 256 rest 0) refl
  where
    go :
        (r : Run (ℕ × ℕ))
        → dns_scan 256 rest 0 ≡ r
        → (r >>= λ (b, domain_len).
            if b == 0 && ltb 0 domain_len
            then dns_copy 256 rest [] >>= (λ written. done (store_domain old written))
            else done old)
          ≢ no_fuel
    go fault e = ground arith
    go no_fuel e = absurd (dns_scan-ne-no_fuel 255 rest 0 (omega arith) e)
    go (done (zero, n)) e = ground (arith, dns_copy-ne-no_fuel 256 rest 0 n [] e)
    go (done (suc b, n)) e = ground arith

length-drop-suc :
    (n : ℕ) (xs : Bytes) → n < length xs → suc n + length (drop (suc n) xs) ≡ length xs
length-drop-suc n [] h = absurd (omega arith)
length-drop-suc zero (x ∷ xs) h = omega arith
length-drop-suc (suc n) (x ∷ xs) h = omega (arith, length-drop-suc n xs (omega arith))

length-store_domain :
    (old text : Bytes)
    → length old ≡ domain_max_len
    → length text < domain_max_len
    → length (store_domain old text) ≡ domain_max_len
unfolding store_domain
length-store_domain old text h lt = omega (
  arith,
  length-append text (0 ∷ drop (suc (length text)) old),
  length-drop-suc (length text) old (omega arith),
)

length_of_store :
    (old domain : Bytes) (r : Run Bytes)
    → length old ≡ domain_max_len
    → ((text : Bytes) → r ≡ done text → length text < domain_max_len)
    → (r >>= (λ text. done (store_domain old text))) ≡ done domain
    → length domain ≡ domain_max_len
length_of_store old domain (done text) h room e =
    ground (arith, length-store_domain old text h (room text refl))
length_of_store old domain fault h room e = cc
length_of_store old domain no_fuel h room e = cc

-- A name that is accepted leaves `domain` with its 260 bytes, whatever bytes stand in the packet.
pub length-dns_name :
    (rest old domain : Bytes)
    → length old ≡ domain_max_len
    → dns_name rest old ≡ done domain
    → length domain ≡ domain_max_len
unfolding dns_name
length-dns_name rest old domain h =
    let stored =
      length_of_store old domain (dns_copy 256 rest []) h
        (λ text. dns_copy-length 256 rest [] text) in
    go stored (dns_scan 256 rest 0)
  where
    go :
        ((dns_copy 256 rest [] >>= (λ text. done (store_domain old text))) ≡ done domain
          → length domain ≡ domain_max_len)
        → (r : Run (ℕ × ℕ))
        → (r >>= λ (b, domain_len).
            if b == 0 && ltb 0 domain_len
            then dns_copy 256 rest [] >>= (λ written. done (store_domain old written))
            else done old)
          ≡ done domain
        → length domain ≡ domain_max_len
    go stored fault e = cc
    go stored no_fuel e = cc
    go stored (done (b, n)) e = elim (Bool-cases (b == 0 && ltb 0 n)) [
      | inl good ↦ stored (rw good at e)
      | inr bad ↦ ground arith
    ]

dns_scan-stop :
    (fuel : ℕ) (l rest : Bytes) (n : ℕ)
    → 0 < length l
    → 255 ≤ n
    → dns_scan (suc fuel) (length l ∷ rest) n ≡ done (suc (length l - 1), n)
unfolding dns_scan
dns_scan-stop fuel [] rest n h late = absurd (omega arith)
dns_scan-stop fuel (c ∷ l) rest n h late = ground arith

-- one label that starts too late
dns_scan-late :
    (fuel : ℕ) (init : List Bytes) (last rest : Bytes) (n : ℕ)
    → AreLabels init
    → 0 < length last
    → 255 ≤ n + wire_len init
    → 255 ≤ fuel + n
    → (b : ℕ) × (m : ℕ) × (dns_scan (suc fuel) (wire (init ++ last ∷ []) rest) n ≡ done (suc b, m))
dns_scan-late fuel [] last rest n hi hl late f =
    (length last - 1, n, dns_scan-stop fuel last (last ++ rest) n hl (omega arith))
dns_scan-late fuel (l ∷ init) last rest n hi hl late f = elim (dec_le 255 n) [
  | yes over ↦
      (length l - 1, n, dns_scan-stop fuel l (l ++ wire (init ++ last ∷ []) rest) n hi.0 over)
  | no under ↦
      later fuel
        (λ fuel' f'.
          dns_scan-late fuel' init last rest (n + (length l + 1)) hi.1 hl (omega arith) f')
        f (omega arith)
]
  where
    Late : ℕ → List Bytes → ℕ → Type 0
    Late fuel' labels m =
        (b : ℕ) × (k : ℕ) × (dns_scan (suc fuel') (wire labels rest) m ≡ done (suc b, k))

    later :
        (fuel : ℕ)
        → ((fuel' : ℕ)
            → 255 ≤ fuel' + (n + (length l + 1))
            → Late fuel' (init ++ last ∷ []) (n + (length l + 1)))
        → 255 ≤ fuel + n
        → n < 255
        → Late fuel (l ∷ (init ++ last ∷ [])) n
    later zero ih f lt = absurd (omega arith)
    later (suc fuel) ih f lt =
        let (b, k, e) = ih fuel (omega arith) in
        (b, k, dns_scan-label (suc fuel) l (wire (init ++ last ∷ []) rest) n hi.0 lt ∙ e)

-- A name on the wire with a label that starts at byte 255 or later is malformed: `domain` keeps
-- what it held.
pub dns_name_malformed :
    (init : List Bytes) (last rest old : Bytes)
    → AreLabels init
    → 0 < length last
    → 255 ≤ wire_len init
    → dns_name (wire (init ++ last ∷ []) rest) old ≡ done old
unfolding dns_name
dns_name_malformed init last rest old hi hl late =
    let (b, m, e) = dns_scan-late 255 init last rest 0 hi hl (omega arith) (omega arith) in
    rw e (ground arith)
