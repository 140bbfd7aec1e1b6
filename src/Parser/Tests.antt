-- ===== src/Parser/Tests.antt =====
-- Packets for pars_packets.c, and the theorems at them.
use grpc_server.Base.{◌≡◌, refl, [], ◌∷◌, ◌++◌, Bytes, leb, replicate, if◌then◌else◌, arith}
use grpc_server.Base.Run.{done, fault}
use grpc_server.Filter.{InfoOfPakage}
use grpc_server.Parser.{
  Net, Mbuf, has, read16, read32, read_bytes, parse_l4, parse_l3, parse_dns, parsing_pakage,
}
use grpc_server.Parser.Dns.{domain_max_len, dns_scan, dns_copy, store_domain, dns_name}
use grpc_server.Parser.Names.{wire, wire_len, dotted, dns_name-wire}

program : Unit {0}
unfolding dns_scan dns_copy store_domain dns_name has read16 read32 read_bytes parse_l4 parse_l3
    parse_dns parsing_pakage
program = tt

abbrev blank : Bytes
blank = replicate 260 0

abbrev label_ab : Bytes
label_ab = b'a' ∷ b'b' ∷ []

abbrev label_c : Bytes
label_c = b'c' ∷ []

-- ab.c
abbrev query : Bytes
query = wire ((label_ab ∷ []) ++ label_c ∷ []) (0 ∷ [])

-- a label of 200 bytes
abbrev long_label : Bytes
long_label = replicate 200 b'x'

dns_name_ab : dns_name query blank ≡ done (b'a' ∷ b'b' ∷ b'.' ∷ b'c' ∷ 0 ∷ replicate 255 0)
unfolding program
dns_name_ab = refl

dns_name-wire_example : dns_name (wire ((long_label ∷ []) ++ long_label ∷ []) (0 ∷ [])) blank ≡ (
    if leb (wire_len ((long_label ∷ []) ++ long_label ∷ [])) domain_max_len
    then done (store_domain blank (dotted ((long_label ∷ []) ++ long_label ∷ [])))
    else fault)
dns_name-wire_example =
    dns_name-wire (long_label ∷ []) long_label [] blank (omega arith) (omega arith) (omega arith)

-- Two labels of 200 bytes pass the test on `domain_len` and are written past the end of `domain`.
two_long_labels : dns_name (wire (long_label ∷ long_label ∷ []) (0 ∷ [])) blank ≡ fault
unfolding program
two_long_labels = refl

-- A UDP packet over IPv4: 14 bytes of Ethernet, 20 of IP, 8 of UDP, 12 of DNS and the name.
abbrev net : Net
net = record {
  get_ptype = λ packet. (0x211, record { l2_len = 14; l3_len = 20; l4_len = 8 });
  ptype_unknown = 0;
  ptype_l3_ipv4 = 0x10;
  ptype_l3_ipv6 = 0x40;
  ptype_l4_tcp = 0x100;
  ptype_l4_udp = 0x200;
  ether_type_ipv4 = 0x800;
  ether_type_ipv6 = 0x86dd;
}

abbrev packet : Mbuf
packet = record {
  buf =
      replicate 12 1
      ++ (8
          ∷ 0
          ∷ (replicate 12 2
              ++ (9 ∷ 0 ∷ 0 ∷ 0 ∷ 5 ∷ 0 ∷ 0 ∷ 0 ∷ 0 ∷ 9 ∷ 0 ∷ 53 ∷ (replicate 16 3 ++ query))));
  data_len = 60;
}

abbrev zero_info : InfoOfPakage
zero_info = record {
  ethernet_type_host = 0;
  ethernet_type_protocol = 0;
  number_port = 0;
  domain = blank;
  ip_version = 0;
  ip4_src = 0;
  ip4_dist = 0;
  ip6_src = replicate 16 0;
  ip6_dist = replicate 16 0;
}

parsing_pakage_query :
    parsing_pakage net packet zero_info
    ≡ done (record zero_info {
      ethernet_type_host = 8;
      ethernet_type_protocol = 8;
      number_port = 0x3500;
      domain = b'a' ∷ b'b' ∷ b'.' ∷ b'c' ∷ 0 ∷ replicate 255 0;
      ip_version = 1;
      ip4_src = 9;
      ip4_dist = 5;
    })
unfolding program
parsing_pakage_query = refl
