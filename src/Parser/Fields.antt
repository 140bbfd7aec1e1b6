-- ===== src/Parser/Fields.antt =====
-- `parsing_pakage` as a whole: it ends on every packet, and which fields it fills.
use grpc_server.Base.{
  ap, ◌∙◌, ℕ, ◌+◌, ◌*◌, ◌≤◌, ◌≡◌, refl, ◌⊎◌, inl, inr, Bool, true, false, Bytes, length, take, leb,
  get_elem?, drop, Option, none, some, ltb, ◌==◌, ◌&&◌, arith, if◌then◌else◌,
}
use grpc_server.Base.Run.{
  Run, done, fault, no_fuel, ◌>>=◌, Ends, or_fault, Gives, Gives-bind, Gives-all, Gives-if,
  Gives-weaken,
}
use grpc_server.Filter.{InfoOfPakage, ip_4, ip_6}
use grpc_server.Parser.Dns.{domain_max_len, dns_name}
use grpc_server.Parser.Bounds.{dns_name-ne-no_fuel, length-dns_name}
use grpc_server.Parser.{
  Net, HdrLens, Mbuf, has, read16, read32, read_bytes, parse_l4, parse_l3, parse_dns,
  parsing_pakage, len_dns_header, cpu_to_be_16,
}

Gives-read_bytes :
    (P : Bytes → Type 0) (buf : Bytes) (o n : ℕ)
    → ((x : Bytes) → P x)
    → Gives P (read_bytes buf o n)
unfolding read_bytes
Gives-read_bytes P buf o n h =
    Gives-if P (leb (o + n) (length buf)) (done (take n (drop o buf))) fault (λ _. h _) (λ _. tt)

-- a read gives any number
Gives-read16 : (P : ℕ → Type 0) (buf : Bytes) (o : ℕ) → ((x : ℕ) → P x) → Gives P (read16 buf o)
unfolding read16
Gives-read16 P buf o h = go (get_elem? buf o) (get_elem? buf (o + 1))
  where
    go :
        (a b : Option ℕ)
        → Gives P (or_fault a >>= (λ b0. or_fault b >>= (λ b1. done (b0 + b1 * 256))))
    go none b = tt
    go (some a) none = tt
    go (some a) (some b) = h (a + b * 256)

Gives-read32 : (P : ℕ → Type 0) (buf : Bytes) (o : ℕ) → ((x : ℕ) → P x) → Gives P (read32 buf o)
unfolding read32
Gives-read32 P buf o h =
    Gives-bind P (read16 buf o) (λ lo. read16 buf (o + 2) >>= (λ hi. done (lo + hi * 65536)))
      (Gives-read16 _ buf o (λ lo.
        Gives-bind P (read16 buf (o + 2)) (λ hi. done (lo + hi * 65536))
          (Gives-read16 _ buf (o + 2) (λ hi. h (lo + hi * 65536)))))

-- a read, with the equation that it gives
Gives-read :
    {A : Type 0} (P : A → Type 0) (m : Run A) → Ends m → ((x : A) → m ≡ done x → P x) → Gives P m
Gives-read P (done x) ends h = h x refl
Gives-read P fault ends h = tt
Gives-read P no_fuel ends h = ends

-- The version and the addresses: as before where the type names neither kind, and otherwise those of
-- the header that the type names.
abbrev pub Addresses : Net → ℕ → HdrLens → Bytes → InfoOfPakage → InfoOfPakage → Type 0
Addresses net pkt_type hdr_lens buf i j =
    ((j.ip_version ≡ i.ip_version)
      × (j.ip4_dist ≡ i.ip4_dist)
      × (j.ip6_dist ≡ i.ip6_dist)
      × ((pkt_type ≡ net.ptype_unknown)
          ⊎ ((has pkt_type net.ptype_l3_ipv4 ≡ false) × (has pkt_type net.ptype_l3_ipv6 ≡ false))))
    ⊎ ((j.ip_version ≡ ip_4)
        × (j.ip6_dist ≡ i.ip6_dist)
        × (has pkt_type net.ptype_l3_ipv4 ≡ true)
        × (read32 buf (hdr_lens.l2_len + 12) ≡ done j.ip4_src)
        × (read32 buf (hdr_lens.l2_len + 16) ≡ done j.ip4_dist))
    ⊎ ((j.ip_version ≡ ip_6)
        × (j.ip4_dist ≡ i.ip4_dist)
        × (has pkt_type net.ptype_l3_ipv4 ≡ false)
        × (has pkt_type net.ptype_l3_ipv6 ≡ true)
        × (read_bytes buf (hdr_lens.l2_len + 8) 16 ≡ done j.ip6_src)
        × (read_bytes buf (hdr_lens.l2_len + 24) 16 ≡ done j.ip6_dist))

abbrev payload_offset : HdrLens → ℕ
payload_offset hdr_lens = hdr_lens.l2_len + hdr_lens.l3_len + hdr_lens.l4_len + len_dns_header

-- What one call of `parsing_pakage` makes of `i`.
pub record IsParsed (net : Net) (pkt_type : ℕ) (hdr_lens : HdrLens) (packet : Mbuf)
    (i j : InfoOfPakage) : Type 0 where
  pub domain_kept :
      ((j.domain ≡ i.domain)
        × ((pkt_type ≡ net.ptype_unknown)
            ⊎ ((has pkt_type net.ptype_l4_udp && j.number_port == cpu_to_be_16 53) ≡ false)
            ⊎ (packet.data_len ≤ payload_offset hdr_lens)))
      ⊎ ((has pkt_type net.ptype_l4_udp ≡ true)
          × (j.number_port ≡ cpu_to_be_16 53)
          × (length j.domain ≡ domain_max_len)
          × (dns_name (drop (payload_offset hdr_lens) packet.buf) i.domain ≡ done j.domain))
  pub address : Addresses net pkt_type hdr_lens packet.buf i j

-- the port alone may differ
record SameButPort (i j : InfoOfPakage) : Type 0 where
  domain : j.domain ≡ i.domain
  ip_version : j.ip_version ≡ i.ip_version
  ip4_dist : j.ip4_dist ≡ i.ip4_dist
  ip6_dist : j.ip6_dist ≡ i.ip6_dist
  ip4_src : j.ip4_src ≡ i.ip4_src
  ip6_src : j.ip6_src ≡ i.ip6_src

read32-Ends : (buf : Bytes) (o : ℕ) → Ends (read32 buf o)
read32-Ends buf o = Gives-read32 (λ _. Unit) buf o (λ _. tt)

read_bytes-Ends : (buf : Bytes) (o n : ℕ) → Ends (read_bytes buf o n)
read_bytes-Ends buf o n = Gives-read_bytes (λ _. Unit) buf o n (λ _. tt)

dns_name-Ends : (buf domain : Bytes) → Ends (dns_name buf domain)
dns_name-Ends buf domain =
    Gives-all _ (dns_name buf domain) (dns_name-ne-no_fuel buf domain) (λ _ _. tt)

not_below : (m n : ℕ) → ltb m n ≡ false → n ≤ m
not_below m n e = ground arith

unknown_type : (m n : ℕ) → (m == n) ≡ true → m ≡ n
unknown_type m n e = ground arith

parse_l4-Gives :
    (net : Net) (pkt_type : ℕ) (buf : Bytes) (o : ℕ) (i : InfoOfPakage)
    → Gives (SameButPort i) (parse_l4 net pkt_type buf o i)
unfolding parse_l4
parse_l4-Gives net pkt_type buf o i =
    let with_port = λ (port : ℕ). done (record i { number_port = port }) in
    let port = read16 buf (o + 2) >>= with_port in
    let read : Gives (SameButPort i) port =
      Gives-bind (SameButPort i) (read16 buf (o + 2)) with_port (
        Gives-read16 _ buf (o + 2) (λ x. record {
          domain = refl;
          ip_version = refl;
          ip4_dist = refl;
          ip6_dist = refl;
          ip4_src = refl;
          ip6_src = refl;
        })) in
    Gives-if (SameButPort i) (has pkt_type net.ptype_l4_tcp) port
      (if has pkt_type net.ptype_l4_udp then port else done i) (λ _. read)
      (λ _.
        Gives-if (SameButPort i) (has pkt_type net.ptype_l4_udp) port (done i) (λ _. read)
          (λ _. record {
            domain = refl;
            ip_version = refl;
            ip4_dist = refl;
            ip6_dist = refl;
            ip4_src = refl;
            ip6_src = refl;
          }))

and_left : (a b : Bool) → (a && b) ≡ true → a ≡ true
and_left a b e = ground arith

and_port : (a : Bool) (m n : ℕ) → (a && m == n) ≡ true → m ≡ n
and_port a m n e = ground arith

module _ (net : Net) (pkt_type : ℕ) (i : InfoOfPakage) where
  abbrev After3 : HdrLens → Bytes → InfoOfPakage → Type 0
  After3 hdr_lens buf j = (j.domain ≡ i.domain) × Addresses net pkt_type hdr_lens buf i j

  -- what the IPv4 branch fills, before the port
  abbrev ipv4_info : ℕ → ℕ → InfoOfPakage
  ipv4_info src dst = record i {
    ip_version = ip_4;
    ethernet_type_protocol = cpu_to_be_16 net.ether_type_ipv4;
    ip4_src = src;
    ip4_dist = dst;
  }

  abbrev ipv6_info : Bytes → Bytes → InfoOfPakage
  ipv6_info src dst = record i {
    ip_version = ip_6;
    ethernet_type_protocol = cpu_to_be_16 net.ether_type_ipv6;
    ip6_src = src;
    ip6_dist = dst;
  }

  parse_l3-Gives :
      (hdr_lens : HdrLens) (buf : Bytes)
      → Gives (After3 hdr_lens buf) (parse_l3 net pkt_type hdr_lens buf i)
  unfolding parse_l3
  parse_l3-Gives hdr_lens buf =
      let o = hdr_lens.l2_len in
      let P = After3 hdr_lens buf in
      let o4 = o + hdr_lens.l3_len in
      let v4 = λ (src : ℕ) (dst : ℕ). parse_l4 net pkt_type buf o4 (ipv4_info src dst) in
      let v6 = λ (src : Bytes) (dst : Bytes). parse_l4 net pkt_type buf o4 (ipv6_info src dst) in
      let m4 = read32 buf (o + 12) >>= (λ src. read32 buf (o + 16) >>= v4 src) in
      let m6 = read_bytes buf (o + 8) 16 >>= (λ src. read_bytes buf (o + 24) 16 >>= v6 src) in
      Gives-if P (has pkt_type net.ptype_l3_ipv4) m4
        (if has pkt_type net.ptype_l3_ipv6 then m6 else done i)
        (λ is4.
          Gives-bind P (read32 buf (o + 12)) (λ src. read32 buf (o + 16) >>= v4 src)
            (Gives-read _ (read32 buf (o + 12)) (read32-Ends buf (o + 12)) (λ src at_src.
              Gives-bind P (read32 buf (o + 16)) (v4 src) (
                Gives-read _ (read32 buf (o + 16)) (read32-Ends buf (o + 16)) (λ dst at_dst.
                  Gives-weaken (SameButPort (ipv4_info src dst)) P (v4 src dst)
                    (parse_l4-Gives net pkt_type buf o4 (ipv4_info src dst))
                    (λ j s. (
                      s.domain,
                      inr (
                          inl (
                            s.ip_version,
                            s.ip6_dist,
                            is4,
                            rw s.ip4_src at_src,
                            rw s.ip4_dist at_dst,
                          )),
                    )))))))
        (λ no4.
          Gives-if P (has pkt_type net.ptype_l3_ipv6) m6 (done i)
            (λ is6.
              Gives-bind P (read_bytes buf (o + 8) 16)
                (λ src. read_bytes buf (o + 24) 16 >>= v6 src)
                (Gives-read _ (read_bytes buf (o + 8) 16) (read_bytes-Ends buf (o + 8) 16)
                  (λ src at_src. Gives-bind P (read_bytes buf (o + 24) 16) (v6 src) (
                    Gives-read _ (read_bytes buf (o + 24) 16) (read_bytes-Ends buf (o + 24) 16)
                      (λ dst at_dst.
                        Gives-weaken (SameButPort (ipv6_info src dst)) P (v6 src dst)
                          (parse_l4-Gives net pkt_type buf o4 (ipv6_info src dst))
                          (λ j s. (
                            s.domain,
                            inr (
                                inr (
                                  s.ip_version,
                                  s.ip4_dist,
                                  no4,
                                  is6,
                                  rw s.ip6_src at_src,
                                  rw s.ip6_dist at_dst,
                                )),
                          )))))))
            (λ no6. (refl, inl (refl, refl, refl, inr (no4, no6)))))

  parse_dns-Gives :
      (hdr_lens : HdrLens) (packet : Mbuf) (j : InfoOfPakage)
      → length i.domain ≡ domain_max_len
      → After3 hdr_lens packet.buf j
      → Gives (IsParsed net pkt_type hdr_lens packet i) (parse_dns net pkt_type hdr_lens packet j)
  unfolding parse_dns
  parse_dns-Gives hdr_lens packet j h after =
      let o = hdr_lens.l2_len + hdr_lens.l3_len + hdr_lens.l4_len in
      let name = dns_name (drop (o + len_dns_header) packet.buf) j.domain in
      let store = λ (domain : Bytes). done (record j { domain = domain }) in
      let is_query = has pkt_type net.ptype_l4_udp && j.number_port == cpu_to_be_16 53 in
      let long = ltb (o + len_dns_header) packet.data_len in
      let P = IsParsed net pkt_type hdr_lens packet i in
      Gives-if P is_query (if long then name >>= store else done j) (done j)
        (λ q.
          Gives-if P long (name >>= store) (done j)
            (λ _. Gives-bind P name store (
              Gives-read _ name (dns_name-Ends (drop (o + len_dns_header) packet.buf) j.domain)
                (λ d e. record {
                  domain_kept = inr (
                    and_left _ _ q,
                    and_port _ _ _ q,
                    length-dns_name _ j.domain d (ap length after.0 ∙ h) e,
                    rw after.0 at e,
                  );
                  address = after.1;
                })))
            (λ short. record {
              domain_kept = inl (after.0, inr (inr (not_below _ _ short)));
              address = after.1;
            }))
        (λ no. record { domain_kept = inl (after.0, inr (inl no)); address = after.1 })

pub parsing_pakage-IsParsed :
    (net : Net) (packet : Mbuf) (i : InfoOfPakage)
    → length i.domain ≡ domain_max_len
    → Gives
        (IsParsed net (net.get_ptype packet).0 (net.get_ptype packet).1 packet i)
        (parsing_pakage net packet i)
unfolding parsing_pakage
parsing_pakage-IsParsed net packet i h =
    let (pkt_type, hdr_lens) = net.get_ptype packet in
    let P = IsParsed net pkt_type hdr_lens packet i in
    let l3 = λ (host : ℕ).
      parse_l3 net pkt_type hdr_lens packet.buf (record i { ethernet_type_host = host }) in
    let l4 = λ (host : ℕ). l3 host >>= parse_dns net pkt_type hdr_lens packet in
    Gives-if P (pkt_type == net.ptype_unknown) (done i) (read16 packet.buf 12 >>= l4)
      (λ unknown.
        let e = unknown_type _ _ unknown in
        record { domain_kept = inl (refl, inl e); address = inl (refl, refl, refl, inl e) })
      (λ _. Gives-bind P (read16 packet.buf 12) l4 (
        Gives-read16 _ packet.buf 12 (λ host.
          Gives-bind P (l3 host) (parse_dns net pkt_type hdr_lens packet) (
            Gives-weaken (After3 net pkt_type i hdr_lens packet.buf) _ (l3 host)
              (parse_l3-Gives net pkt_type (record i { ethernet_type_host = host }) hdr_lens
                packet.buf)
              (λ j after. parse_dns-Gives net pkt_type i hdr_lens packet j h after)))))
