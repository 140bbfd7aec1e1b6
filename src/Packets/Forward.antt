-- ===== src/Packets/Forward.antt =====
-- The functions of proc_packets.c on one packet: the learning of a neighbour's address, the rewriting
-- and sending of a packet, and the test for an exception port.
use grpc_server.Base.{
  ℕ, ◌+◌, ◌-◌, ◌/◌, ◌%◌, Bool, true, false, not, ◌&&◌, Option, none, some, List, [], ◌∷◌, ◌++◌,
  Bytes, memcmp_eq, length, get_elem?, take, drop, replicate, ltb, leb, ◌==◌, if◌then◌else◌,
}
use grpc_server.Base.Run.{Run, done, fault, ◌>>=◌, or_fault}
use grpc_server.RteHash.{RteHash}
use grpc_server.Parser.{Mbuf, cpu_to_be_16, read16, read_bytes}
use grpc_server.Packets.State.{
  NetPort, tx, Env, World, record_packet_passed, record_packet_dropped, pktmbuf_free, tick,
}

-- LIST_EXCEPTION_PORTS
abbrev pub list_exception_ports : List ℕ
list_exception_ports = 22 ∷ []

abbrev pub set_port : (ℕ → NetPort) → ℕ → NetPort → ℕ → NetPort
set_port ports p port q = if p == q then port else ports q

-- the bytes of a buffer with `bytes` at offset `o`
unfoldable pub write_bytes : Bytes → ℕ → Bytes → Run Bytes
write_bytes buf o bytes =
    if leb (o + length bytes) (length buf)
    then done (take o buf ++ (bytes ++ drop (o + length bytes) buf))
    else fault

-- rte_is_same_ether_addr is `memcmp_eq`; the source address of a packet stands at byte 6.
unfoldable pub learn_neighbor_mac : ℕ → Bytes → ℕ → (ℕ → NetPort) → Run (ℕ → NetPort)
learn_neighbor_mac port buf port_2 ports = do
  neigh_mac ← read_bytes buf 6 6
  done (
      if not (ports port).neighbor_learned
        && (not (memcmp_eq neigh_mac (ports port_2).mac_addr)
            && not (memcmp_eq neigh_mac (ports port).mac_addr))
      then set_port ports port
          (record (ports port) { neighbor_mac = neigh_mac; neighbor_learned = true })
      else ports)

abbrev pub broadcast : Bytes
broadcast = replicate 6 0xff

-- the two bytes of a number in memory
abbrev pub bytes16 : ℕ → Bytes
bytes16 x = x % 256 ∷ x / 256 % 256 ∷ []

-- The time to live and the checksum of the IPv4 header at byte 14: `none` if the packet is at the
-- end of its life.
unfoldable pub rewrite_ipv4 : Env → Bytes → Run (Option Bytes)
rewrite_ipv4 env buf = do
  time_to_live ← or_fault (get_elem? buf 22)
  if ltb 1 time_to_live
      then (do
        buf1 ← write_bytes buf 22 ((time_to_live - 1) ∷ [])
        buf2 ← write_bytes buf1 24 (bytes16 0)
        buf3 ← write_bytes buf2 24 (bytes16 (env.ipv4_cksum (drop 14 buf2)))
        done (some buf3))
      else done none

-- The addresses and, for IPv4, the header.
unfoldable pub rewrite_packet : Env → NetPort → Bytes → Run (Option Bytes)
rewrite_packet env out_port buf = do
  buf1 ← write_bytes buf 6 out_port.mac_addr
  buf2 ← write_bytes buf1 0 (if out_port.neighbor_learned then out_port.neighbor_mac else broadcast)
  ether_type ← read16 buf2 12
  if ether_type == cpu_to_be_16 env.net.ether_type_ipv4
      then rewrite_ipv4 env buf2
      else done (some buf2)

module _ {h : RteHash} (env : Env) where
  -- rte_eth_tx_burst of one packet, and the counting of its result
  unfoldable pub send_packet : Mbuf → ℕ → ℕ → World h → World h
  send_packet pkt port_id queue_number w =
      let ret = env.tx_burst w.step port_id queue_number pkt in
      let w' = record (tick w) { events = tx port_id queue_number pkt ret ∷ w.events } in
      if ltb ret 1
      then record_packet_passed (pktmbuf_free pkt (record_packet_dropped w'))
      else record_packet_passed w'

  unfoldable pub forward_packet_with_rewrite : Mbuf → ℕ → ℕ → ℕ → World h → Run (World h)
  forward_packet_with_rewrite pkt in_port out_port queue_number w = do
    ports ← learn_neighbor_mac in_port pkt.buf out_port w.ports
    rewritten ← rewrite_packet env (ports out_port) pkt.buf
    done (elim rewritten [
      | none ↦ pktmbuf_free pkt (record w { ports = ports })
      | some buf ↦
          send_packet (record pkt { buf = buf }) (ports out_port).port_id queue_number
            (record w { ports = ports })
    ])

  unfoldable pub package_sending_decision : Bool → Mbuf → ℕ → ℕ → ℕ → World h → Run (World h)
  package_sending_decision solution_is_send pkt port_in port_out queue_number w =
      if solution_is_send
      then forward_packet_with_rewrite pkt port_in port_out queue_number w
      else done (pktmbuf_free pkt (record_packet_dropped w))

-- the loop of `check_is_exception`
unfoldable pub port_in_list : ℕ → List ℕ → Bool
port_in_list host_port [] = false
port_in_list host_port (p ∷ ports) = if host_port == p then true else port_in_list host_port ports

unfoldable pub check_is_exception : ℕ → Bool
unfolding port_in_list
check_is_exception port = port_in_list (cpu_to_be_16 port) list_exception_ports
