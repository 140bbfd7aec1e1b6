-- ===== src/Packets/Progress.antt =====
-- With the filter off, packets that hold an Ethernet and an IPv4 header are processed to the end.
use grpc_server.Base.{
  ℕ, zero, suc, ◌+◌, ◌-◌, ◌*◌, ◌≤◌, ◌<◌, ◌≡◌, refl, true, not, ◌&&◌, Option, none, some, List, [],
  ◌∷◌, ◌++◌, Bytes, length, get_elem?, take, drop, length-append, length-take, memcmp_eq, ltb, leb,
  ◌==◌, Bool-cases, inl, inr, if◌then◌else◌, arith,
}
use grpc_server.Base.Run.{done}
use grpc_server.RteHash.{RteHash}
use grpc_server.Parser.{Mbuf, read16, read_bytes, cpu_to_be_16}
use grpc_server.Filter.{BasePolicy}
use grpc_server.Packets.State.{NetPort, Env, World, record_packet_received, pktmbuf_free}
use grpc_server.Packets.Forward.{
  set_port, write_bytes, learn_neighbor_mac, broadcast, bytes16, rewrite_ipv4, rewrite_packet,
  send_packet, forward_packet_with_rewrite, package_sending_decision,
}
use grpc_server.Packets.Accounts.{Disposes, Gives-package_sending_decision}
use grpc_server.Packets.Handled.{IsAccounted, IsAccounted-step}
use grpc_server.Packets.{forward_all, pakage_processing}

-- Every port has MAC addresses of six bytes.
abbrev pub PortsOk : (ℕ → NetPort) → Type 0
PortsOk ports = (p : ℕ) → (length (ports p).mac_addr ≡ 6) × (length (ports p).neighbor_mac ≡ 6)

-- 14 bytes of Ethernet and 20 of IPv4
abbrev pub HoldsHeaders : List Mbuf → Type 0
HoldsHeaders [] = Unit
HoldsHeaders (pkt ∷ pkts) = (34 ≤ length pkt.buf) × HoldsHeaders pkts

length-drop : (n : ℕ) (bytes : Bytes) → length (drop n bytes) ≡ length bytes - n
length-drop zero bytes = omega arith
length-drop (suc n) [] = omega arith
length-drop (suc n) (b ∷ bytes) = omega (arith, length-drop n bytes)

get_elem?-done : (i : ℕ) (bytes : Bytes) → i < length bytes → (b : ℕ) × (get_elem? bytes i ≡ some b)
get_elem?-done i [] h = absurd (omega arith)
get_elem?-done zero (b ∷ bytes) h = (b, refl)
get_elem?-done (suc i) (b ∷ bytes) h = get_elem?-done i bytes (omega arith)

-- a write inside the buffer keeps its length
write_bytes-done :
    (buf : Bytes) (o : ℕ) (bytes : Bytes)
    → o + length bytes ≤ length buf
    → (buf' : Bytes) × (write_bytes buf o bytes ≡ done buf') × (length buf' ≡ length buf)
unfolding write_bytes
write_bytes-done buf o bytes h =
    let fits : leb (o + length bytes) (length buf) ≡ true = ground arith in
    (
      take o buf ++ (bytes ++ drop (o + length bytes) buf),
      rw fits refl,
      omega (
        arith,
        length-append (take o buf) (bytes ++ drop (o + length bytes) buf),
        length-append bytes (drop (o + length bytes) buf),
        length-take o buf,
        length-drop (o + length bytes) buf,
      ),
    )

learn_neighbor_mac-done :
    (port : ℕ) (buf : Bytes) (port_2 : ℕ) (ports : ℕ → NetPort)
    → PortsOk ports
    → 34 ≤ length buf
    → (ports' : ℕ → NetPort) × (learn_neighbor_mac port buf port_2 ports ≡ done ports')
      × PortsOk ports'
unfolding learn_neighbor_mac read_bytes
learn_neighbor_mac-done port buf port_2 ports ok h =
    let fits : leb (6 + 6) (length buf) ≡ true = ground arith in
    let mac = take 6 (drop 6 buf) in
    let six : length mac ≡ 6 = omega (arith, length-take 6 (drop 6 buf), length-drop 6 buf) in
    let learned =
      set_port ports port (record (ports port) { neighbor_mac = mac; neighbor_learned = true }) in
    let test =
      not (ports port).neighbor_learned
      && (not (memcmp_eq mac (ports port_2).mac_addr)
          && not (memcmp_eq mac (ports port).mac_addr)) in
    let learned_ok : PortsOk learned = λ q. elim (Bool-cases (port == q)) [
      | inl e ↦ rw e ((ok port).0, six)
      | inr e ↦ rw e (ok q)
    ] in
    elim (Bool-cases test) [
      | inl e ↦ (learned, rw (fits, e) refl, learned_ok)
      | inr e ↦ (ports, rw (fits, e) refl, ok)
    ]

module _ (env : Env) where
  rewrite_ipv4-done :
      (buf : Bytes) → 34 ≤ length buf → (r : Option Bytes) × (rewrite_ipv4 env buf ≡ done r)
  unfolding rewrite_ipv4
  rewrite_ipv4-done buf h =
      let (ttl, at_ttl) = get_elem?-done 22 buf (omega arith) in
      elim (Bool-cases (ltb 1 ttl)) [
        | inr e ↦ (none, rw (at_ttl, e) refl)
        | inl e ↦
            let (buf1, run1, len1) = write_bytes-done buf 22 ((ttl - 1) ∷ []) (omega arith) in
            let (buf2, run2, len2) = write_bytes-done buf1 24 (bytes16 0) (omega arith) in
            let (buf3, run3, len3) =
              write_bytes-done buf2 24 (bytes16 (env.ipv4_cksum (drop 14 buf2))) (omega arith) in
            (some buf3, rw (at_ttl, e, run1, run2, run3) refl)
      ]

  read16-done : (buf : Bytes) (o : ℕ) → o + 1 < length buf → (x : ℕ) × (read16 buf o ≡ done x)
  unfolding read16
  read16-done buf o h =
      let (b0, at_b0) = get_elem?-done o buf (omega arith) in
      let (b1, at_b1) = get_elem?-done (o + 1) buf h in (b0 + b1 * 256, rw (at_b0, at_b1) refl)

  destination :
      (out_port : NetPort)
      → length out_port.neighbor_mac ≡ 6
      → length (if out_port.neighbor_learned then out_port.neighbor_mac else broadcast) ≡ 6
  destination out_port h = elim (Bool-cases out_port.neighbor_learned) [
    | inl e ↦ rw e h
    | inr e ↦ rw e refl
  ]

  rewrite_packet-done :
      (out_port : NetPort) (buf : Bytes)
      → length out_port.mac_addr ≡ 6
      → length out_port.neighbor_mac ≡ 6
      → 34 ≤ length buf
      → (r : Option Bytes) × (rewrite_packet env out_port buf ≡ done r)
  unfolding rewrite_packet
  rewrite_packet-done out_port buf mac neighbor h =
      let dst = if out_port.neighbor_learned then out_port.neighbor_mac else broadcast in
      let dst_six : length dst ≡ 6 = destination out_port neighbor in
      let (buf1, run1, len1) = write_bytes-done buf 6 out_port.mac_addr (omega arith) in
      let (buf2, run2, len2) = write_bytes-done buf1 0 dst (omega arith) in
      let (ether_type, run3) = read16-done buf2 12 (omega arith) in
      let (r, run4) = rewrite_ipv4-done buf2 (omega arith) in
      elim (Bool-cases (ether_type == cpu_to_be_16 env.net.ether_type_ipv4)) [
        | inl e ↦ (r, rw (run1, run2, run3, e) run4)
        | inr e ↦ (some buf2, rw (run1, run2, run3, e) refl)
      ]

  module _ {h : RteHash} where
    send_packet-ports :
        (pkt : Mbuf) (port_id queue_number : ℕ) (w : World h)
        → (send_packet env pkt port_id queue_number w).ports ≡ w.ports
    unfolding send_packet
    send_packet-ports pkt port_id queue_number w =
        elim (Bool-cases (ltb (env.tx_burst w.step port_id queue_number pkt) 1)) [
          | inl e ↦ rw e refl
          | inr e ↦ rw e refl
        ]

    -- the world after the rewriting
    abbrev forwarded : Mbuf → ℕ → ℕ → World h → (ℕ → NetPort) → Option Bytes → World h
    forwarded pkt out_port queue_number w ports r = elim r [
      | none ↦ pktmbuf_free pkt (record w { ports = ports })
      | some buf ↦
          send_packet env (record pkt { buf = buf }) (ports out_port).port_id queue_number
            (record w { ports = ports })
    ]

    forwarded-PortsOk :
        (pkt : Mbuf) (out_port queue_number : ℕ) (w : World h) (ports : ℕ → NetPort)
        → PortsOk ports
        → (r : Option Bytes) → PortsOk (forwarded pkt out_port queue_number w ports r).ports
    forwarded-PortsOk pkt out_port queue_number w ports ok none = ok
    forwarded-PortsOk pkt out_port queue_number w ports ok (some buf) =
        rw
          (send_packet-ports (record pkt { buf = buf }) (ports out_port).port_id queue_number
            (record w { ports = ports }))
          ok

    send_packet_caches :
        (pkt : Mbuf) (port_id queue_number : ℕ) (w : World h)
        → ((send_packet env pkt port_id queue_number w).ip_cache ≡ w.ip_cache)
          × ((send_packet env pkt port_id queue_number w).dns_cache ≡ w.dns_cache)
    unfolding send_packet
    send_packet_caches pkt port_id queue_number w =
        elim (Bool-cases (ltb (env.tx_burst w.step port_id queue_number pkt) 1)) [
          | inl e ↦ rw e (refl, refl)
          | inr e ↦ rw e (refl, refl)
        ]

    forwarded_caches :
        (pkt : Mbuf) (out_port queue_number : ℕ) (w : World h) (ports : ℕ → NetPort)
        (r : Option Bytes)
        → ((forwarded pkt out_port queue_number w ports r).ip_cache ≡ w.ip_cache)
          × ((forwarded pkt out_port queue_number w ports r).dns_cache ≡ w.dns_cache)
    forwarded_caches pkt out_port queue_number w ports none = (refl, refl)
    forwarded_caches pkt out_port queue_number w ports (some buf) =
        send_packet_caches (record pkt { buf = buf }) (ports out_port).port_id queue_number
          (record w { ports = ports })

    pub forward-done :
        (pkt : Mbuf) (in_port out_port queue_number : ℕ) (w : World h)
        → PortsOk w.ports
        → 34 ≤ length pkt.buf
        → (w' : World h) × (forward_packet_with_rewrite env pkt in_port out_port queue_number w
            ≡ done w')
          × PortsOk w'.ports
          × (w'.ip_cache ≡ w.ip_cache)
          × (w'.dns_cache ≡ w.dns_cache)
    unfolding forward_packet_with_rewrite
    forward-done pkt in_port out_port queue_number w ok long =
        let (ports, run1, ok1) = learn_neighbor_mac-done in_port pkt.buf out_port w.ports ok long in
        let (r, run2) =
          rewrite_packet-done (ports out_port) pkt.buf (ok1 out_port).0 (ok1 out_port).1 long in
        (
          forwarded pkt out_port queue_number w ports r,
          rw (run1, run2) refl,
          forwarded-PortsOk pkt out_port queue_number w ports ok1 r,
          (forwarded_caches pkt out_port queue_number w ports r).0,
          (forwarded_caches pkt out_port queue_number w ports r).1,
        )

    forward_all-done :
        (policy : BasePolicy) (port_in port_out port_exception queue_number : ℕ) (pkts : List Mbuf)
        (w : World h)
        → HoldsHeaders pkts
        → PortsOk w.ports
        → IsAccounted w
        → (w' : World h) × (forward_all env policy port_in port_out port_exception queue_number pkts
              w
            ≡ done w')
          × IsAccounted w'
          × (w'.received ≡ w.received + length pkts)
    unfolding forward_all package_sending_decision
    forward_all-done policy port_in port_out port_exception queue_number [] w hs ok a =
        (w, refl, a, omega arith)
    forward_all-done policy port_in port_out port_exception queue_number (pkt ∷ pkts) w hs ok a =
        let w0 = record_packet_received w in
        let (w1, run1, ok1, same_ip, same_dns) =
          forward-done pkt port_in port_out queue_number w0 ok hs.0 in
        let given = Gives-package_sending_decision env pkt port_in port_out queue_number true w0 in
        let d : Disposes w0 w1 = rw run1 at given in
        let (w', run2, a2, count) =
          forward_all-done policy port_in port_out port_exception queue_number pkts w1 hs.1 ok1
            (IsAccounted-step a d) in
        (w', rw run1 run2, a2, omega (arith, count, d.received))

-- With the filter off, on packets that hold the Ethernet and IPv4 headers and ports with MAC
-- addresses of six bytes, a burst is processed to its end: all its packets are counted as received,
-- each was sent or released once, and the counters are right, if they were before.
pub pakage_processing-off :
    {h : RteHash} (env : Env) (policy : BasePolicy)
    (port_in port_out port_exception queue_number : ℕ) (pkts : List Mbuf) (w : World h)
    → HoldsHeaders pkts
    → PortsOk w.ports
    → IsAccounted w
    → (w' : World h) × (pakage_processing env policy port_in port_out port_exception queue_number
          true pkts w
        ≡ done w')
      × IsAccounted w'
      × (w'.received ≡ w.received + length pkts)
unfolding pakage_processing
pakage_processing-off env policy port_in port_out port_exception queue_number pkts w hs ok a =
    forward_all-done env policy port_in port_out port_exception queue_number pkts w hs ok a
