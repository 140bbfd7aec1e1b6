-- ===== src/Worker/Policy/Installed.antt =====
-- What the filter decides by a policy that was built from a message.
use grpc_server.Base.{
  ℕ, zero, suc, ◌≡◌, ◌∙◌, ◌↔◌, refl, sym, ap, Bool, true, List, [], ◌∷◌, map, Bytes, c_str,
  starts_nul, strcmp_eq, strcmp_eq_iff, memcmp_eq, memcmp_eq_iff, length, take, take_all, replicate,
  length-replicate, scan_rows, scan_rows_iff, Found, leb, ◌==◌, ==_iff, Bool-cases, inl, inr,
  if◌then◌else◌, arith,
}
use grpc_server.Base.Run.{Run, done, fault}
use grpc_server.DomainCache.{strncpy}
use grpc_server.Filter.{
  InfoOfPakage, BasePolicy, max_domains, max_ip4, max_ip6, ip_4, check_domain_is_block,
  check_domain_is_allow, check_ip_is_block, check_ip_is_allow,
}
use grpc_server.Filter.Rows.{IpListed}
use grpc_server.Worker.Policy.{AddrParser, PolicyMessage, text_row, zero_policy, install_policy}
use grpc_server.Worker.Policy.Tables.{
  overlay, addresses4, addresses6, fits, installed, install_policy_cases,
}

-- Some text, cut to 259 bytes, is the domain, and no text up to it is empty.
abbrev pub TextListed : Bytes → List Bytes → Type 0
TextListed domain texts = Found starts_nul (λ text. take 259 (c_str text) ≡ c_str domain) texts

c_str-text_row : (n : ℕ) (text : Bytes) → c_str (text_row n text) ≡ take n (c_str text)
unfolding c_str strncpy
c_str-text_row zero text = refl
c_str-text_row (suc n) [] = refl
c_str-text_row (suc n) (b ∷ text) = elim (Bool-cases (b == 0)) [
  | inl e ↦ rw e refl
  | inr e ↦ rw (e, e) (ap (◌∷◌ b) (c_str-text_row n text))
]

starts_nul-text_row : (n : ℕ) (text : Bytes) → starts_nul (text_row (suc n) text) ≡ starts_nul text
unfolding starts_nul c_str strncpy
starts_nul-text_row n [] = refl
starts_nul-text_row n (b ∷ text) = elim (Bool-cases (b == 0)) [ inl e ↦ rw e refl | inr e ↦ rw e e ]

-- Rows of zeros stop a loop.
scan-overlay :
    {A : Type 0} (stop hit : A → Bool) (k : ℕ) (z : A) (rows : List A)
    → stop z ≡ true
    → scan_rows stop hit (overlay (replicate k z) rows) ≡ scan_rows stop hit (take k rows)
unfolding scan_rows
scan-overlay stop hit zero z rows h = refl
scan-overlay stop hit (suc k) z [] h = rw h refl
scan-overlay stop hit (suc k) z (r ∷ rows) h = rw (scan-overlay stop hit k z rows h) refl

scan-map :
    {A B : Type 0} (stop hit : A → Bool) (stop' : B → Bool) (f : B → A) (xs : List B)
    → ((x : B) → stop (f x) ≡ stop' x)
    → scan_rows stop hit (map f xs) ≡ scan_rows stop' (λ x. hit (f x)) xs
unfolding scan_rows
scan-map stop hit stop' f [] h = refl
scan-map stop hit stop' f (x ∷ xs) h = rw (h x, scan-map stop hit stop' f xs h) refl

length-map : {A B : Type 0} (f : A → B) (xs : List A) → length (map f xs) ≡ length xs
length-map f [] = refl
length-map f (x ∷ xs) = ap suc (length-map f xs)

length-overlay-zeros :
    {A : Type 0} (k : ℕ) (z : A) (rows : List A) → length (overlay (replicate k z) rows) ≡ k
length-overlay-zeros zero z rows = refl
length-overlay-zeros (suc k) z [] = ap suc (length-replicate k z)
length-overlay-zeros (suc k) z (r ∷ rows) = ap suc (length-overlay-zeros k z rows)

-- the loop over a table of domains that was filled from texts
scan_domains :
    (domain zeros : Bytes) (texts : List Bytes)
    → starts_nul zeros ≡ true
    → leb (length texts) max_domains ≡ true
    → (scan_rows starts_nul
          (λ row. strcmp_eq row domain)
          (take max_domains (overlay (replicate max_domains zeros) (map (text_row 259) texts)))
        ≡ true)
      ↔ TextListed domain texts
scan_domains domain zeros texts h few =
    let rows = map (text_row 259) texts in
    let hit = λ (row : Bytes). strcmp_eq row domain in
    rw
      (
        take_all (overlay (replicate max_domains zeros) rows) max_domains
            (omega (arith, length-overlay-zeros max_domains zeros rows)),
        scan-overlay starts_nul hit max_domains zeros rows h,
        take_all rows max_domains (ground (arith, length-map (text_row 259) texts)),
        scan-map starts_nul hit starts_nul (text_row 259) texts (starts_nul-text_row 258),
      )
      (scan_rows_iff starts_nul (λ text. strcmp_eq (text_row 259 text) domain)
        (λ text. take 259 (c_str text) ≡ c_str domain)
        (λ text. rw (← c_str-text_row 259 text) (strcmp_eq_iff (text_row 259 text) domain)) texts)

-- the loops over the tables of addresses
scan_ips :
    (info : InfoOfPakage) (zeros : Bytes) (ips4 : List ℕ) (ips6 : List Bytes)
    → starts_nul zeros ≡ true
    → ((if info.ip_version == ip_4
          then scan_rows
              (λ row. row == 0)
              (λ row. info.ip4_dist == row)
              (take max_ip4 (overlay (replicate max_ip4 0) ips4))
          else scan_rows starts_nul
              (λ row. memcmp_eq info.ip6_dist row)
              (take max_ip6 (overlay (replicate max_ip6 zeros) ips6)))
        ≡ true)
      ↔ IpListed info (take max_ip4 ips4) (take max_ip6 ips6)
scan_ips info zeros ips4 ips6 h = elim (Bool-cases (info.ip_version == ip_4)) [
  | inl v4 ↦
      rw
        (
          v4,
          take_all (overlay (replicate max_ip4 0) ips4) max_ip4
              (omega (arith, length-overlay-zeros max_ip4 0 ips4)),
          scan-overlay (λ row. row == 0) (λ row. info.ip4_dist == row) max_ip4 0 ips4 refl,
        )
        (scan_rows_iff (λ row. row == 0) (λ row. info.ip4_dist == row) (λ row. info.ip4_dist ≡ row)
          (λ row. ==_iff info.ip4_dist row) (take max_ip4 ips4))
  | inr v6 ↦
      rw
        (
          v6,
          take_all (overlay (replicate max_ip6 zeros) ips6) max_ip6
              (omega (arith, length-overlay-zeros max_ip6 zeros ips6)),
          scan-overlay starts_nul (λ row. memcmp_eq info.ip6_dist row) max_ip6 zeros ips6 h,
        )
        (scan_rows_iff starts_nul (λ row. memcmp_eq info.ip6_dist row) (λ row. info.ip6_dist ≡ row)
          (λ row. memcmp_eq_iff info.ip6_dist row) (take max_ip6 ips6))
]

-- the four tests of the filter, against the lists of a message
abbrev pub DecidesLists : AddrParser → PolicyMessage → InfoOfPakage → BasePolicy → Type 0
DecidesLists pton pol info p =
    ((check_domain_is_block info.domain p.block_domains ≡ true)
      ↔ TextListed info.domain pol.block_domains)
    × ((check_domain_is_allow info.domain p.allow_domains ≡ true)
        ↔ TextListed info.domain pol.allow_domains)
    × ((check_ip_is_block info p ≡ true)
        ↔ IpListed info (take max_ip4 (addresses4 pton pol.block_ips))
            (take max_ip6 (addresses6 pton pol.block_ips)))
    × ((check_ip_is_allow info p ≡ true)
        ↔ IpListed info (take max_ip4 (addresses4 pton pol.allow_ips))
            (take max_ip6 (addresses6 pton pol.allow_ips)))

fits_parts :
    (pol : PolicyMessage)
    → fits pol ≡ true
    → (leb (length pol.block_domains) max_domains ≡ true)
      × (leb (length pol.allow_domains) max_domains ≡ true)
unfolding fits
fits_parts pol h = (ground arith, ground arith)

installed-DecidesLists :
    (pton : AddrParser) (pol : PolicyMessage) (info : InfoOfPakage)
    → fits pol ≡ true
    → DecidesLists pton pol info (installed pton pol)
unfolding check_domain_is_block check_domain_is_allow check_ip_is_block check_ip_is_allow
    zero_policy
installed-DecidesLists pton pol info h =
    let (few_block, few_allow) = fits_parts pol h in
    let starts : starts_nul (0 ∷ replicate 15 0) ≡ true = unfold starts_nul in refl in
    let starts_d : starts_nul (0 ∷ replicate 259 0) ≡ true = unfold starts_nul in refl in
    (
      scan_domains info.domain (0 ∷ replicate 259 0) pol.block_domains starts_d few_block,
      scan_domains info.domain (0 ∷ replicate 259 0) pol.allow_domains starts_d few_allow,
      scan_ips info (0 ∷ replicate 15 0) (addresses4 pton pol.block_ips)
          (addresses6 pton pol.block_ips) starts,
      scan_ips info (0 ∷ replicate 15 0) (addresses4 pton pol.allow_ips)
          (addresses6 pton pol.allow_ips) starts,
    )

done_inj {ℓ} : {A : Type ℓ} {a b : A} → ◌≡◌ {A = Run A} (done a) (done b) → a ≡ b
done_inj e = cc

-- Whatever policy is built from a message decides by the message's lists: a domain is blocked, or
-- allowed, exactly when it is one of the texts, cut to 259 bytes, with no empty text up to it; a
-- destination exactly when it is among the first 1024 addresses of its version, with no address 0
-- (IPv4) or one that starts with a zero byte (IPv6) up to it.
pub install_policy-DecidesLists :
    (pton : AddrParser) (pol : PolicyMessage) (info : InfoOfPakage) (p : BasePolicy)
    → install_policy pton pol ≡ done p
    → DecidesLists pton pol info p
install_policy-DecidesLists pton pol info p built = elim (Bool-cases (fits pol)) [
  | inl h ↦
      let e : ◌≡◌ {A = Run BasePolicy} (done (installed pton pol)) (done p) =
        sym ((install_policy_cases pton pol).0 ∙ rw h refl) ∙ built in
      rw (← done_inj e) (installed-DecidesLists pton pol info h)
  | inr h ↦
      let e : ◌≡◌ {A = Run BasePolicy} fault (done p) =
        sym ((install_policy_cases pton pol).0 ∙ rw h refl) ∙ built in
      absurd (cc e)
]
