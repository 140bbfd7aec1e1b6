-- ===== src/Packets/Total.antt =====
-- With the filter on, a burst is processed to its end, on caches that keep their invariant.
use grpc_server.Base.{
  ℕ, ◌+◌, ◌≤◌, ◌<◌, ◌≡◌, ◌⊎◌, refl, Bool, true, false, List, [], ◌∷◌, length, starts_nul,
  Bool-cases, inl, inr, if◌then◌else◌, arith,
}
use grpc_server.Base.Run.{Run, done}
use grpc_server.RteHash.{RteHash, IsHash}
use grpc_server.Parser.{Mbuf, parsing_pakage}
use grpc_server.Filter.{BasePolicy, InfoOfPakage}
use grpc_server.Packets.State.{Env, World, record_packet_received}
use grpc_server.Packets.Forward.{check_is_exception}
use grpc_server.Packets.Progress.{HoldsHeaders}
use grpc_server.Packets.Burst.{Gives-pakage_processing}
use grpc_server.Packets.Handled.{IsAccounted, Handles, IsAccounted-Handles}
use grpc_server.Packets.Decisions.{filter_ip, filter_domain}
use grpc_server.Packets.{
  zero_info, process_ip, process_domain, unless_exception, process_packet, process_all,
  pakage_processing,
}
use grpc_server.Packets.Finishes.{
  IsReady, Finishes, Finishes-then, Decides, sending-Finishes, process_ip-Finishes,
  process_domain-Finishes,
}

-- The filter that is asked about a packet: that of addresses where it has no domain.
abbrev pub filter_packet : Env → BasePolicy → InfoOfPakage → ℕ → Run Bool
filter_packet env policy i step =
    if starts_nul i.domain then filter_ip env policy step i else filter_domain env policy step i

-- A packet on an exception port, about which no filter is asked, or one whose filter comes to a
-- verdict, whenever it is asked.
abbrev pub IsDecidable : Env → BasePolicy → InfoOfPakage → Type 0
IsDecidable env policy i =
    (check_is_exception i.number_port ≡ true) ⊎ Decides (filter_packet env policy i)

-- The parser reaches its end on each packet, and the filter a verdict about it.
abbrev pub IsParsable : Env → BasePolicy → List Mbuf → Type 0
IsParsable env policy [] = Unit
IsParsable env policy (pkt ∷ pkts) =
    ((i : InfoOfPakage) × (parsing_pakage env.net pkt zero_info ≡ done i)
      × IsDecidable env policy i)
    × IsParsable env policy pkts

module _ {h : RteHash} (laws : IsHash h) (env : Env) (hz_pos : 0 < env.hz)
    (policy : BasePolicy) where
  module _ (port_in port_out port_exception queue_number : ℕ) where
    unless_exception-Finishes :
        (pkt : Mbuf) (i : InfoOfPakage) (process : World h → Run (World h)) (w : World h)
        → 34 ≤ length pkt.buf
        → IsReady w
        → (check_is_exception i.number_port ≡ true) ⊎ Finishes (process w)
        → Finishes (
            unless_exception env policy port_in port_out port_exception queue_number pkt i process
              w)
    unfolding unless_exception
    unless_exception-Finishes pkt i process w long ready k =
        elim (Bool-cases (check_is_exception i.number_port)) [
          | inl e ↦ rw e (
              sending-Finishes laws env hz_pos policy port_in port_exception queue_number pkt long
                true w ready)
          | inr e ↦ rw e (elim k [ inl ex ↦ absurd (ground arith) | inr ends ↦ ends ])
        ]

    process_packet-Finishes :
        (pkt : Mbuf) (i : InfoOfPakage) (w : World h)
        → parsing_pakage env.net pkt zero_info ≡ done i
        → IsDecidable env policy i
        → 34 ≤ length pkt.buf
        → IsReady w
        → Finishes (process_packet env policy port_in port_out port_exception queue_number pkt w)
    unfolding process_packet
    process_packet-Finishes pkt i w parsed decidable long ready =
        let w0 = record_packet_received w in
        let ready0 : IsReady w0 = record {
          ports = ready.ports;
          ip_cache = ready.ip_cache;
          dns_cache = ready.dns_cache;
        } in
        elim (Bool-cases (starts_nul i.domain)) [
          | inl e ↦
              rw (parsed, e)
                (unless_exception-Finishes pkt i
                  (process_ip env policy port_in port_out queue_number pkt i) w0 long ready0
                  (elim decidable [
                    | inl ex ↦ inl ex
                    | inr decides ↦ inr (
                        process_ip-Finishes laws env hz_pos policy port_in port_out queue_number pkt
                          long i w0 (rw e at decides) ready0)
                  ]))
          | inr e ↦
              rw (parsed, e)
                (unless_exception-Finishes pkt i
                  (process_domain env policy port_in port_out queue_number pkt i) w0 long ready0
                  (elim decidable [
                    | inl ex ↦ inl ex
                    | inr decides ↦ inr (
                        process_domain-Finishes laws env hz_pos policy port_in port_out queue_number
                          pkt long i w0 (rw e at decides) ready0)
                  ]))
        ]

    process_all-Finishes :
        (pkts : List Mbuf) (w : World h)
        → IsParsable env policy pkts
        → HoldsHeaders pkts
        → IsReady w
        → Finishes (process_all env policy port_in port_out port_exception queue_number pkts w)
    unfolding process_all
    process_all-Finishes [] w parsed long ready = (w, refl, ready)
    process_all-Finishes (pkt ∷ pkts) w ((i, parsed, decidable), rest) (long, longs) ready =
        Finishes-then (process_packet env policy port_in port_out port_exception queue_number pkt w)
          (process_all env policy port_in port_out port_exception queue_number pkts)
          (process_packet-Finishes pkt i w parsed decidable long ready)
          (λ w1 ready1. process_all-Finishes pkts w1 rest longs ready1)

    -- With the filter on, a hash table with the documented behaviour, a running clock and open caches
    -- that keep their invariant: take a burst of packets that hold their headers and that the parser
    -- reads to the end, and let each of them be on an exception port or have a filter that comes to
    -- a verdict about it whenever it is asked, that is, without a reading behind the table of
    -- levels. Then the burst is processed to its end. All its packets are counted as received, each
    -- was sent or released once, the counters are right if they were before, and the ports and both caches
    -- are ready for the next burst, whatever the drivers and the allocator answer.
    pub pakage_processing-on :
        (pkts : List Mbuf) (w : World h)
        → IsParsable env policy pkts
        → HoldsHeaders pkts
        → IsReady w
        → IsAccounted w
        → (w' : World h) × (pakage_processing env policy port_in port_out port_exception
              queue_number false pkts w
            ≡ done w')
          × IsReady w'
          × IsAccounted w'
          × (w'.received ≡ w.received + length pkts)
    unfolding pakage_processing
    pakage_processing-on pkts w parsed long ready a =
        let (w', run, ready') = process_all-Finishes pkts w parsed long ready in
        let given =
          Gives-pakage_processing env policy port_in port_out port_exception queue_number false pkts
            w in
        let hs : Handles (length pkts) (length pkts) w w' = rw run at given in
        (w', run, ready', IsAccounted-Handles (length pkts) a hs, omega (arith, hs.received))
