-- ===== src/Packets/Neighbors.antt =====
-- The learning of a neighbour's address.
use grpc_server.Base.{
  ℕ, ◌+◌, ◌≤◌, ◌≡◌, ◌≢◌, refl, ◌⊎◌, inl, inr, Bool, true, false, not, ◌&&◌, Bytes, length, take,
  drop, memcmp_eq, memcmp_eq_iff, leb, ◌==◌, ==_iff, Bool-cases, arith,
}
use grpc_server.Base.Run.{done}
use grpc_server.Parser.{read_bytes}
use grpc_server.Packets.State.{NetPort}
use grpc_server.Packets.Forward.{set_port, learn_neighbor_mac}

-- the source address of a packet
abbrev pub source_mac : Bytes → Bytes
source_mac buf = take 6 (drop 6 buf)

-- Nothing is learned, because the port has learned a neighbour or the packet comes from one of the
-- two ports; or the port had learned nothing and takes the source address of the packet,
-- which is not the address of either port.
abbrev pub Learned : (ℕ → NetPort) → ℕ → ℕ → Bytes → (ℕ → NetPort) → Type 0
Learned ports port port_2 mac ports' =
    ((ports' ≡ ports)
      × (((ports port).neighbor_learned ≡ true)
          ⊎ (mac ≡ (ports port).mac_addr)
          ⊎ (mac ≡ (ports port_2).mac_addr)))
    ⊎ (((ports port).neighbor_learned ≡ false)
        × (mac ≢ (ports port).mac_addr)
        × (mac ≢ (ports port_2).mac_addr)
        × (ports' port ≡ record (ports port) { neighbor_mac = mac; neighbor_learned = true })
        × ((q : ℕ) → q ≢ port → ports' q ≡ ports q))

learn_test :
    (learned : Bool) (mac own other : Bytes)
    → (not learned && (not (memcmp_eq mac other) && not (memcmp_eq mac own))) ≡ true
    → (learned ≡ false) × (memcmp_eq mac own ≡ false) × (memcmp_eq mac other ≡ false)
learn_test learned mac own other e = (ground arith, ground arith, ground arith)

not_learned :
    (learned : Bool) (mac own other : Bytes)
    → (not learned && (not (memcmp_eq mac other) && not (memcmp_eq mac own))) ≡ false
    → (learned ≡ true) ⊎ (mac ≡ own) ⊎ (mac ≡ other)
not_learned true mac own other e = inl refl
not_learned false mac own other e = elim (Bool-cases (memcmp_eq mac other)) [
  | inl same ↦ inr (inr ((memcmp_eq_iff mac other).0 same))
  | inr ne ↦ elim (Bool-cases (memcmp_eq mac own)) [
    | inl same ↦ inr (inl ((memcmp_eq_iff mac own).0 same))
    | inr ne' ↦ absurd (ground (arith, e, ne, ne'))
  ]
]

differs : (a b : Bytes) → memcmp_eq a b ≡ false → a ≢ b
differs a b e same = ground (arith, memcmp_eq_iff a b)

-- On a packet with an Ethernet header, `learn_neighbor_mac` ends. It changes nothing, and then the
-- port has learned a neighbour already or the source address of the packet is its own or that of the
-- other port; or it changes the port alone: the port had learned no neighbour and takes the source
-- address of the packet, which is neither its own address nor that of the other port.
pub learn_neighbor_mac-Learned :
    (port : ℕ) (buf : Bytes) (port_2 : ℕ) (ports : ℕ → NetPort)
    → 14 ≤ length buf
    → (ports' : ℕ → NetPort) × (learn_neighbor_mac port buf port_2 ports ≡ done ports')
      × Learned ports port port_2 (source_mac buf) ports'
unfolding learn_neighbor_mac read_bytes
learn_neighbor_mac-Learned port buf port_2 ports h =
    let fits : leb (6 + 6) (length buf) ≡ true = ground arith in
    let mac = source_mac buf in
    let next = record (ports port) { neighbor_mac = mac; neighbor_learned = true } in
    let test =
      not (ports port).neighbor_learned
      && (not (memcmp_eq mac (ports port_2).mac_addr)
          && not (memcmp_eq mac (ports port).mac_addr)) in
    elim (Bool-cases test) [
      | inl e ↦
          let (first, own, other) =
            learn_test (ports port).neighbor_learned mac (ports port).mac_addr
              (ports port_2).mac_addr e in
          (
            set_port ports port next,
            rw (fits, e) refl,
            inr (
              first,
              differs _ _ own,
              differs _ _ other,
              rw ((==_iff port port).1 refl) refl,
              λ q ne. let off : (port == q) ≡ false = ground arith in rw off refl,
            ),
          )
      | inr e ↦ (
        ports,
        rw (fits, e) refl,
        inl (
          refl,
          not_learned (ports port).neighbor_learned mac (ports port).mac_addr
              (ports port_2).mac_addr e,
        ),
      )
    ]
