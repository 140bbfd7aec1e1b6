-- ===== src/Dataplane/Tests.antt =====
-- The theorem on the stand-alone program at two rounds.
use grpc_server.Base.{[], ◌∷◌}
use grpc_server.Packets.Sample.{packet_to}
use grpc_server.Dataplane.{Cycle}

abbrev cycle : Cycle
cycle = record {
  tap_pkts = packet_to 80 ∷ [];
  pkts = packet_to 80 ∷ packet_to 22 ∷ [];
  out_pkts = packet_to 53 ∷ [];
}
