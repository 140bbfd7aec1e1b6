-- ===== src/Worker/Sample.antt =====
-- Addresses, counters and a round of the loop, small.
use grpc_server.Base.{ℕ, ◌+◌, ◌==◌, refl, none, some, [], ◌∷◌, replicate, length, if◌then◌else◌}
use grpc_server.Packets.Sample.{packet_to}
use grpc_server.Worker.Policy.{AddrParser}
use grpc_server.Worker.Counters.{Counter, IsCounter, MetricsCollector}
use grpc_server.Worker.Loop.{Round}

-- one text is an IPv4 address, and another one an IPv6 address
abbrev pub pton : AddrParser
pton = record {
  inet = λ ip. if length ip == 1 then some 7 else none;
  inet6 = λ ip. if length ip == 2 then some (replicate 16 1) else none;
}

abbrev pub counter : Counter
counter = record { State = ℕ; increment = λ n s. s + n; collect = λ s. s }

pub counter-IsCounter : IsCounter counter
counter-IsCounter = record { collect-increment = λ n s. refl }

abbrev pub collector : MetricsCollector counter
collector = record {
  packets_received_counter = some 0;
  packets_passed_counter = some 0;
  packets_dropped_counter = some 0;
}

abbrev pub round : Round
round = record {
  answers = none ∷ [];
  tap_pkts = packet_to 80 ∷ [];
  pkts = packet_to 80 ∷ packet_to 22 ∷ [];
  out_pkts = packet_to 53 ∷ [];
  now = 40000000000;
  rand = 17;
}
