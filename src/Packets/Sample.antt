-- ===== src/Packets/Sample.antt =====
-- An environment, a policy, small packets and a world for proc_packets.c.
use grpc_server.Base.{ℕ, true, false, none, some, [], ◌∷◌, ◌++◌, pos, replicate}
use grpc_server.Cache.Table.{sample_hash}
use grpc_server.Cache.Sample.{sample_heap, one_entry}
use grpc_server.Filter.{BasePolicy}
use grpc_server.Parser.{Mbuf}
use grpc_server.Packets.State.{Env, World}

-- every packet is UDP over IPv4, and the driver takes every packet
abbrev pub env : Env
env = record {
  net = record {
    get_ptype = λ packet. (0x211, record { l2_len = 14; l3_len = 20; l4_len = 8 });
    ptype_unknown = 0;
    ptype_l3_ipv4 = 0x10;
    ptype_l3_ipv6 = 0x40;
    ptype_l4_tcp = 0x100;
    ptype_l4_udp = 0x200;
    ether_type_ipv4 = 0x800;
    ether_type_ipv6 = 0x86dd;
  };
  ipv4_cksum = λ bytes. 0x1234;
  tx_burst = λ step port queue packet. 1;
  cycles = λ step. 1000;
  hz = 1;
  malloc_ok = λ step. true;
  classify = λ step kind text. none;
  ntop4 = λ ip. [];
  ntop6 = λ ip. [];
}

abbrev pub policy : BasePolicy
policy = record {
  locked_categories = [];
  categories_with_lvl = [];
  ttl_ip = pos 60;
  ttl_domain = pos 60;
  block_domains = [];
  allow_domains = [];
  block_ip4 = [];
  allow_ip4 = [];
  block_ip6 = [];
  allow_ip6 = [];
  min_trust_level = pos 0;
}

abbrev pub packet_to : ℕ → Mbuf
packet_to port = record {
  buf =
      replicate 12 1
      ++ (8
          ∷ 0
          ∷ (replicate 12 2
              ++ (9 ∷ 0 ∷ 0 ∷ 0 ∷ 5 ∷ 0 ∷ 0 ∷ 0 ∷ 0 ∷ 9 ∷ 0 ∷ port ∷ replicate 16 3)));
  data_len = 54;
}

abbrev pub world : World sample_hash
world = record {
  ports = λ p. record {
    port_id = p;
    mac_addr = replicate 6 4;
    neighbor_mac = replicate 6 0;
    neighbor_learned = false;
  };
  ip_cache = record { hash = some one_entry; heap = sample_heap };
  dns_cache = record { hash = some one_entry; heap = sample_heap };
  received = 0;
  passed = 0;
  dropped = 0;
  events = [];
  step = 0;
}
