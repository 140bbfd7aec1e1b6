-- ===== src/Packets/Rewritten.antt =====
-- What `forward_packet_with_rewrite` changes of a packet, and what it keeps.
use mathlib.Core.List.{append_assoc}
use grpc_server.Base.{
  ℕ, zero, suc, ◌+◌, ◌-◌, ◌*◌, ◌/◌, ◌%◌, ◌≡◌, ◌∙◌, refl, ap, sym, true, false, Option, none, some,
  [], ◌∷◌, ◌++◌, Bytes, length, get_elem?, drop, length-append, take-append, drop-append, ltb, leb,
  ◌==◌, ==_iff, Bool-cases, inl, inr, if◌then◌else◌, arith,
}
use grpc_server.Base.Run.{done, ◌>>=◌}
use grpc_server.Parser.{read16, cpu_to_be_16}
use grpc_server.Packets.State.{NetPort, Env}
use grpc_server.Packets.Forward.{write_bytes, broadcast, bytes16, rewrite_ipv4, rewrite_packet}

-- an IPv4 packet: eight bytes, the time to live, the protocol, the two bytes of the checksum, and the
-- addresses with all that follows
pub record Ipv4 : Type 0 where
  pub start : Bytes
  pub time_to_live : ℕ
  pub protocol : ℕ
  pub cksum : Bytes
  pub rest : Bytes

abbrev pub ipv4_bytes : Ipv4 → Bytes
ipv4_bytes p = p.start ++ (p.time_to_live ∷ p.protocol ∷ (p.cksum ++ p.rest))

-- what an Ethernet header carries: IPv4, or something else with the two bytes of its type
pub data Content : Type 0 where
  ipv4 : Ipv4 → Content
  other : ℕ → ℕ → Bytes → Content

abbrev pub content_bytes : Env → Content → Bytes
content_bytes env (ipv4 p) =
    (env.net.ether_type_ipv4 / 256 % 256) ∷ (env.net.ether_type_ipv4 % 256) ∷ ipv4_bytes p
content_bytes env (other t0 t1 bytes) = t0 ∷ t1 ∷ bytes

-- a frame: its destination, its source, and its content
abbrev pub frame : Env → Bytes → Bytes → Content → Bytes
frame env dst src content = dst ++ (src ++ content_bytes env content)

-- the fields have their sizes, and the type of another content is another one
abbrev pub IsContent : Env → Content → Type 0
IsContent env (ipv4 p) = (length p.start ≡ 8) × (length p.cksum ≡ 2)
IsContent env (other t0 t1 bytes) = (t0 + t1 * 256 == cpu_to_be_16 env.net.ether_type_ipv4) ≡ false

-- the address of the neighbour, or of everyone
abbrev pub next_hop : NetPort → Bytes
next_hop out_port = if out_port.neighbor_learned then out_port.neighbor_mac else broadcast

-- One hop less, with the checksum of a header whose own field is zero; `none` at the end of the life.
abbrev pub one_hop : Env → Ipv4 → Option Ipv4
one_hop env p =
    let older = record p { time_to_live = p.time_to_live - 1; cksum = bytes16 0 } in
    if ltb 1 p.time_to_live
    then some (record older { cksum = bytes16 (env.ipv4_cksum (ipv4_bytes older)) })
    else none

-- the frame that leaves from a port, where one does
abbrev pub forwarded : Env → NetPort → Content → Option Bytes
forwarded env out_port (other t0 t1 bytes) =
    some (frame env (next_hop out_port) out_port.mac_addr (other t0 t1 bytes))
forwarded env out_port (ipv4 p) = elim (one_hop env p) [
  | none ↦ none
  | some q ↦ some (frame env (next_hop out_port) out_port.mac_addr (ipv4 q))
]

drop_add : (xs ys : Bytes) (n : ℕ) → drop (length xs + n) (xs ++ ys) ≡ drop n ys
drop_add [] ys n = rw (zero_add n) refl
  where
    zero_add : (n : ℕ) → 0 + n ≡ n
    zero_add n = omega arith
drop_add (x ∷ xs) ys n = rw (suc_add (length xs) n) (drop_add xs ys n)
  where
    suc_add : (a b : ℕ) → suc a + b ≡ suc (a + b)
    suc_add a b = omega arith

get_at : (xs ys : Bytes) (a o : ℕ) → o ≡ length xs → get_elem? (xs ++ (a ∷ ys)) o ≡ some a
get_at [] ys a zero e = refl
get_at [] ys a (suc o) e = absurd (omega (arith, e))
get_at (x ∷ xs) ys a zero e = absurd (omega (arith, e))
get_at (x ∷ xs) ys a (suc o) e = get_at xs ys a o (omega (arith, e))

-- a field is overwritten, and what stands around it is kept
write_at :
    (xs old ys new : Bytes) (o : ℕ)
    → o ≡ length xs
    → length new ≡ length old
    → write_bytes (xs ++ (old ++ ys)) o new ≡ done (xs ++ (new ++ ys))
unfolding write_bytes
write_at xs old ys new o e same =
    let fits : leb (length xs + length new) (length (xs ++ (old ++ ys))) ≡ true =
      ground (arith, length-append xs (old ++ ys), length-append old ys, same) in
    rw
      (
        e,
        fits,
        take-append xs (old ++ ys),
        drop_add xs (old ++ ys) (length new),
        same,
        drop-append old ys,
      )
      refl

append_assoc3 : (a b c d : Bytes) → (a ++ (b ++ c)) ++ d ≡ a ++ (b ++ (c ++ d))
append_assoc3 a b c d = append_assoc a (b ++ c) d ∙ ap (λ (t : Bytes). a ++ t) (append_assoc b c d)

length-append3 : (a b c : Bytes) → length (a ++ (b ++ c)) ≡ length a + (length b + length c)
length-append3 a b c = omega (arith, length-append a (b ++ c), length-append b c)

-- a field behind three others
write_in :
    (a b c old ys new : Bytes) (o : ℕ)
    → o ≡ length a + (length b + length c)
    → length new ≡ length old
    → write_bytes (a ++ (b ++ (c ++ (old ++ ys)))) o new ≡ done (a ++ (b ++ (c ++ (new ++ ys))))
write_in a b c old ys new o e same =
    rw (← append_assoc3 a b c (old ++ ys), ← append_assoc3 a b c (new ++ ys))
      (write_at (a ++ (b ++ c)) old ys new o (omega (arith, e, length-append3 a b c)) same)

get_in :
    (a b ys : Bytes) (x o : ℕ)
    → o ≡ length a + length b
    → get_elem? (a ++ (b ++ (x ∷ ys))) o ≡ some x
get_in a b ys x o e =
    rw (← append_assoc a b (x ∷ ys)) (get_at (a ++ b) ys x o (omega (arith, e, length-append a b)))

get_behind :
    (a b ys : Bytes) (x y o : ℕ)
    → o ≡ suc (length a + length b)
    → get_elem? (a ++ (b ++ (x ∷ y ∷ ys))) o ≡ some y
get_behind a b ys x y o e =
    rw (← append_assoc3 a b (x ∷ []) (y ∷ ys))
      (get_at (a ++ (b ++ (x ∷ []))) ys y o (omega (arith, e, length-append3 a b (x ∷ []))))

drop_front : (xs ys : Bytes) (n : ℕ) → n ≡ length xs → drop n (xs ++ ys) ≡ ys
drop_front xs ys n e = rw e (drop-append xs ys)

module _ (env : Env) where
  -- the header behind 14 bytes
  rewrite_ipv4_lem :
      (eth : Bytes) (p : Ipv4)
      → length eth ≡ 14
      → length p.start ≡ 8
      → length p.cksum ≡ 2
      → rewrite_ipv4 env (eth ++ ipv4_bytes p)
        ≡ done (elim (one_hop env p) [ none ↦ none | some q ↦ some (eth ++ ipv4_bytes q) ])
  unfolding rewrite_ipv4
  rewrite_ipv4_lem eth p eth14 start8 cksum2 =
      let ttl = p.time_to_live in
      let tail = p.protocol ∷ (p.cksum ++ p.rest) in
      let older = record p { time_to_live = ttl - 1; cksum = bytes16 0 } in
      let sum = bytes16 (env.ipv4_cksum (ipv4_bytes older)) in
      let mid = (ttl - 1) ∷ p.protocol ∷ [] in
      let at_ttl = get_in eth p.start tail ttl 22 (omega (arith, eth14, start8)) in
      elim (Bool-cases (ltb 1 ttl)) [
        | inr e ↦ rw (at_ttl, e) refl
        | inl e ↦
            let run1 =
              write_in eth p.start [] (ttl ∷ []) tail ((ttl - 1) ∷ []) 22
                (omega (arith, eth14, start8)) refl in
            let run2 =
              write_in eth p.start mid p.cksum p.rest (bytes16 0) 24 (omega (arith, eth14, start8))
                (omega (arith, cksum2)) in
            let run3 =
              write_in eth p.start mid (bytes16 0) p.rest sum 24 (omega (arith, eth14, start8))
                refl in
            rw
              (
                at_ttl,
                e,
                run1,
                run2,
                drop_front eth (ipv4_bytes older) 14 (omega (arith, eth14)),
                run3,
              )
              refl
      ]

  same_type : (x : ℕ) → (x / 256 % 256 + x % 256 * 256 == cpu_to_be_16 x) ≡ true
  same_type x = ground (arith, ==_iff (x / 256 % 256 + x % 256 * 256) (cpu_to_be_16 x))

  -- the two bytes behind the addresses
  read16-type :
      (dst src bytes : Bytes) (t0 t1 : ℕ)
      → length dst ≡ 6
      → length src ≡ 6
      → read16 (dst ++ (src ++ (t0 ∷ t1 ∷ bytes))) 12 ≡ done (t0 + t1 * 256)
  unfolding read16
  read16-type dst src bytes t0 t1 dst6 src6 =
      let at_t0 = get_in dst src (t1 ∷ bytes) t0 12 (omega (arith, dst6, src6)) in
      let at_t1 = get_behind dst src bytes t0 t1 13 (omega (arith, dst6, src6)) in
      rw (at_t0, at_t1) refl

  -- the 14 bytes in front of a header, as a whole and in parts
  same_frames :
      (dst src : Bytes) (o : Option Ipv4)
      → (elim o [
        | none ↦ none
        | some q ↦ some (
            (dst
              ++ (src
                  ++ ((env.net.ether_type_ipv4 / 256 % 256)
                      ∷ (env.net.ether_type_ipv4 % 256)
                      ∷ [])))
            ++ ipv4_bytes q)
      ])
        ≡ (elim o [ none ↦ none | some q ↦ some (frame env dst src (ipv4 q)) ])
  same_frames dst src none = refl
  same_frames dst src (some q) = ap some (append_assoc3 dst src (_ ∷ _ ∷ []) (ipv4_bytes q))

  module _ (out_port : NetPort) (mac6 : length out_port.mac_addr ≡ 6)
      (hop6 : length out_port.neighbor_mac ≡ 6) where
    length-next_hop : length (next_hop out_port) ≡ 6
    length-next_hop = elim (Bool-cases out_port.neighbor_learned) [
      | inl e ↦ rw e hop6
      | inr e ↦ rw e refl
    ]

    behind_addresses :
        (content : Content)
        → IsContent env content
        → (ether_type : ℕ) × (read16 (frame env (next_hop out_port) out_port.mac_addr content) 12
            ≡ done ether_type)
          × ((if ether_type == cpu_to_be_16 env.net.ether_type_ipv4
                then rewrite_ipv4 env (frame env (next_hop out_port) out_port.mac_addr content)
                else done (some (frame env (next_hop out_port) out_port.mac_addr content)))
              ≡ done (forwarded env out_port content))
    behind_addresses (other t0 t1 bytes) differs = (
      _,
      read16-type (next_hop out_port) out_port.mac_addr bytes t0 t1 length-next_hop mac6,
      rw differs refl,
    )
    behind_addresses (ipv4 p) (start8, cksum2) =
        let hop = next_hop out_port in
        let mac = out_port.mac_addr in
        let t0 = env.net.ether_type_ipv4 / 256 % 256 in
        let t1 = env.net.ether_type_ipv4 % 256 in
        let eth = hop ++ (mac ++ (t0 ∷ t1 ∷ [])) in
        (
          _,
          read16-type hop mac (ipv4_bytes p) t0 t1 length-next_hop mac6,
          rw (same_type env.net.ether_type_ipv4) (
              ap (λ (buf : Bytes). rewrite_ipv4 env buf)
                (sym (append_assoc3 hop mac (t0 ∷ t1 ∷ []) (ipv4_bytes p)))
              ∙ rewrite_ipv4_lem eth p
                  (omega (arith, length-append3 hop mac (t0 ∷ t1 ∷ []), length-next_hop, mac6))
                  start8 cksum2
              ∙ ap done (same_frames hop mac (one_hop env p))),
        )

    -- Where a port has addresses of six bytes: a frame with the type of IPv4 and its whole header leaves
    -- with the address of the port as its source, the learned neighbour or everyone as its destination,
    -- one hop less and the checksum of that header, and nothing else changed, or is at the end of its
    -- life; a frame of another type leaves with the two addresses changed alone.
    pub rewrite_packet_lem :
        (dst src : Bytes) (content : Content)
        → length dst ≡ 6
        → length src ≡ 6
        → IsContent env content
        → rewrite_packet env out_port (frame env dst src content)
          ≡ done (forwarded env out_port content)
    unfolding rewrite_packet
    rewrite_packet_lem dst src content dst6 src6 is =
        let bytes = content_bytes env content in
        let (ether_type, read, run) = behind_addresses content is in
        rw
          (
            write_at dst src bytes out_port.mac_addr 6 (omega (arith, dst6))
                (omega (arith, src6, mac6)),
            ◌>>=◌,
            write_at [] dst (out_port.mac_addr ++ bytes) (next_hop out_port) 0 refl
                (omega (arith, dst6, length-next_hop)),
            ◌>>=◌,
            read,
          )
          run
