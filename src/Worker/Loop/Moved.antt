-- ===== src/Worker/Loop/Moved.antt =====
-- The packets of a round of the loop.
use grpc_server.Base.{ℕ, suc, ◌+◌, not, List, [], ◌∷◌, length, arith}
use grpc_server.Base.Run.{Gives, Gives-then, Gives-weaken}
use grpc_server.RteHash.{RteHash}
use grpc_server.Parser.{Mbuf}
use grpc_server.Packets.State.{Env, World}
use grpc_server.Packets.Forward.{forward_packet_with_rewrite}
use grpc_server.Packets.Accounts.{Disposes, Gives-forward}
use grpc_server.Packets.Burst.{Gives-pakage_processing}
use grpc_server.Packets.Handled.{Handles, Handles-none, Handles-uncounted}
use grpc_server.Packets.{pakage_processing}
use grpc_server.Worker.Policy.{AddrParser}
use grpc_server.Worker.Counters.{Counter}
use grpc_server.Worker.Loop.{Round, Process, local_policy, forward_to_out, move_packets}

-- the packets of the three receive calls
abbrev pub round_packets : Round → ℕ
round_packets r = length r.tap_pkts + (length r.pkts + length r.out_pkts)

module _ {h : RteHash} (env : Env) (queue_number : ℕ) where
  Gives-forward_to_out :
      (incoming_port outgoing_port : ℕ) (tap_pkts : List Mbuf) (w : World h)
      → Gives
          (Handles 0 (length tap_pkts) w)
          (forward_to_out env incoming_port outgoing_port queue_number tap_pkts w)
  unfolding forward_to_out
  Gives-forward_to_out a b [] w = Handles-none w
  Gives-forward_to_out a b (pkt ∷ pkts) w =
      Gives-then (Disposes w) (Handles 0 (suc (length pkts)) w)
        (forward_packet_with_rewrite env pkt a b queue_number w) _
        (Gives-forward env pkt a b queue_number w)
        (λ w1 d.
          Gives-weaken (Handles 0 (length pkts) w1) (Handles 0 (suc (length pkts)) w)
            (forward_to_out env a b queue_number pkts w1) (Gives-forward_to_out a b pkts w1)
            (λ w' hs. Handles-uncounted (length pkts) d hs))

  Handles-round :
      (r : Round) {w w1 w2 w' : World h}
      → Handles 0 (length r.tap_pkts) w w1
      → Handles (length r.pkts) (length r.pkts) w1 w2
      → Handles 0 (length r.out_pkts) w2 w'
      → Handles (length r.pkts) (round_packets r) w w'
  Handles-round r a b d = ground arith

  module _ {c : Counter} (port_in port_out port_exception : ℕ) where
    pub Gives-move_packets :
        (pton : AddrParser) (r : Round) (p : Process h c)
        → Gives
            (Handles (length r.pkts) (round_packets r) p.world)
            (move_packets env pton port_in port_out port_exception queue_number r p)
    unfolding move_packets
    Gives-move_packets pton r p =
        let out = Handles (length r.pkts) (round_packets r) p.world in
        Gives-then (Handles 0 (length r.tap_pkts) p.world) out
          (forward_to_out env port_exception port_in queue_number r.tap_pkts p.world) _
          (Gives-forward_to_out port_exception port_in r.tap_pkts p.world)
          (λ w1 a.
            Gives-then (Handles (length r.pkts) (length r.pkts) w1) out
              (pakage_processing env (local_policy p.current_policy) port_in port_out port_exception
                queue_number (not p.enable) r.pkts w1)
              _
              (Gives-pakage_processing env (local_policy p.current_policy) port_in port_out
                port_exception queue_number (not p.enable) r.pkts w1)
              (λ w2 b.
                Gives-weaken (Handles 0 (length r.out_pkts) w2) out
                  (forward_to_out env port_out port_in queue_number r.out_pkts w2)
                  (Gives-forward_to_out port_out port_in r.out_pkts w2)
                  (λ w' d. Handles-round r a b d)))
