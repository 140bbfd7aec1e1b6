-- ===== src/Packets/State.antt =====
-- The state that proc_packets.c works on, and what it takes from DPDK, from the classifier of the
-- worker and from the allocator. Each call of these is numbered by `step`, so that each may answer
-- anew.
use grpc_server.Base.{ℕ, suc, ◌+◌, Bool, Option, List, ◌∷◌, Bytes}
use grpc_server.RteHash.{RteHash}
use grpc_server.Cache.{Cache}
use grpc_server.Filter.{RequestedClassification}
use grpc_server.Parser.{Mbuf, Net}

-- struct net_port: the fields that the packet loop uses
pub record NetPort : Type 0 where
  pub port_id : ℕ
  pub mac_addr : Bytes
  pub neighbor_mac : Bytes
  pub neighbor_learned : Bool

-- What happened to a packet buffer: an offer to a transmit queue, with the number of packets that
-- the driver took, or a release to the pool.
pub data Event : Type 0 where
  tx : ℕ → ℕ → Mbuf → ℕ → Event
  released : Mbuf → Event

-- the first argument of `worker_classify`
pub data TargetType : Type 0 where
  ip domain : TargetType

pub record Env : Type 0 where
  pub net : Net
  -- rte_ipv4_cksum, on the bytes from the IP header on
  pub ipv4_cksum : Bytes → ℕ
  -- rte_eth_tx_burst of one packet
  pub tx_burst : ℕ → ℕ → ℕ → Mbuf → ℕ
  -- rte_get_timer_cycles and rte_get_timer_hz
  pub cycles : ℕ → ℕ
  pub hz : ℕ
  -- whether an allocation succeeds
  pub malloc_ok : ℕ → Bool
  -- worker_classify: the classification, where it succeeds
  pub classify : ℕ → TargetType → Bytes → Option RequestedClassification
  -- inet_ntop of an IPv4 and of an IPv6 address
  pub ntop4 : ℕ → Bytes
  pub ntop6 : Bytes → Bytes

pub record World (h : RteHash) : Type 0 where
  pub ports : ℕ → NetPort
  pub ip_cache : Cache h
  pub dns_cache : Cache h
  pub received : ℕ
  pub passed : ℕ
  pub dropped : ℕ
  -- newest first
  pub events : List Event
  pub step : ℕ

module _ {h : RteHash} where
  abbrev pub record_packet_received : World h → World h
  record_packet_received w = record w { received = w.received + 1 }

  abbrev pub record_packet_passed : World h → World h
  record_packet_passed w = record w { passed = w.passed + 1 }

  abbrev pub record_packet_dropped : World h → World h
  record_packet_dropped w = record w { dropped = w.dropped + 1 }

  -- rte_pktmbuf_free
  abbrev pub pktmbuf_free : Mbuf → World h → World h
  pktmbuf_free pkt w = record w { events = released pkt ∷ w.events }

  abbrev pub tick : World h → World h
  tick w = record w { step = suc w.step }
