-- ===== src/Parser.antt =====
-- worker/src/dpdk_filter/pars_packets.c: what is read out of a packet. Numbers in the packet are
-- read as a little-endian machine reads them, so a port stays in network order.
mod Dns
mod Names
mod Bounds
pub mod Fields
mod Tests
use Prim.Native.Nat.{bit_and}
use grpc_server.Base.{
  ℕ, ◌+◌, ◌*◌, ◌/◌, ◌%◌, Bool, ◌&&◌, not, Option, none, some, List, [], ◌∷◌, ◌++◌, Bytes, length,
  get_elem?, take, drop, ◌==◌, ltb, leb, if◌then◌else◌,
}
use grpc_server.Base.Run.{Run, done, fault, no_fuel, ◌>>=◌, or_fault}
use grpc_server.Filter.{InfoOfPakage, ip_4, ip_6}
use Dns.{dns_name}

-- struct rte_net_hdr_lens
pub record HdrLens : Type 0 where
  pub l2_len : ℕ
  pub l3_len : ℕ
  pub l4_len : ℕ

-- struct rte_mbuf: the bytes from the start of the data to the end of the buffer, and how many of
-- them are data.
pub record Mbuf : Type 0 where
  pub buf : Bytes
  pub data_len : ℕ

-- What the parser takes from DPDK: `rte_net_get_ptype` and the RTE_PTYPE and RTE_ETHER_TYPE numbers.
pub record Net : Type 0 where
  pub get_ptype : Mbuf → ℕ × HdrLens
  pub ptype_unknown : ℕ
  pub ptype_l3_ipv4 : ℕ
  pub ptype_l3_ipv6 : ℕ
  pub ptype_l4_tcp : ℕ
  pub ptype_l4_udp : ℕ
  pub ether_type_ipv4 : ℕ
  pub ether_type_ipv6 : ℕ

-- rte_cpu_to_be_16 on a little-endian machine
abbrev pub cpu_to_be_16 : ℕ → ℕ
cpu_to_be_16 x = x % 256 * 256 + x / 256 % 256

-- a field of two bytes, of four, and an array of `n` bytes
unfoldable pub read16 : Bytes → ℕ → Run ℕ
read16 buf o = do
  b0 ← or_fault (get_elem? buf o)
  b1 ← or_fault (get_elem? buf (o + 1))
  done (b0 + b1 * 256)

unfoldable pub read32 : Bytes → ℕ → Run ℕ
unfolding read16
read32 buf o = do lo ← read16 buf o; hi ← read16 buf (o + 2); done (lo + hi * 65536)

unfoldable pub read_bytes : Bytes → ℕ → ℕ → Run Bytes
read_bytes buf o n = if leb (o + n) (length buf) then done (take n (drop o buf)) else fault

-- pkt_type & flag
unfoldable pub has : ℕ → ℕ → Bool
has pkt_type flag = not (bit_and pkt_type flag == 0)

-- the port, from a TCP or a UDP header
unfoldable pub parse_l4 : Net → ℕ → Bytes → ℕ → InfoOfPakage → Run InfoOfPakage
parse_l4 net pkt_type buf l4_offset info_pac =
    if has pkt_type net.ptype_l4_tcp
    then (do port ← read16 buf (l4_offset + 2); done (record info_pac { number_port = port }))
    else if has pkt_type net.ptype_l4_udp
    then (do port ← read16 buf (l4_offset + 2); done (record info_pac { number_port = port }))
    else done info_pac

unfoldable pub parse_l3 : Net → ℕ → HdrLens → Bytes → InfoOfPakage → Run InfoOfPakage
parse_l3 net pkt_type hdr_lens buf info_pac =
    let l3_offset = hdr_lens.l2_len in
    let l4_offset = l3_offset + hdr_lens.l3_len in
    if has pkt_type net.ptype_l3_ipv4
    then (do
      src ← read32 buf (l3_offset + 12)
      dst ← read32 buf (l3_offset + 16)
      parse_l4 net pkt_type buf l4_offset (record info_pac {
        ip_version = ip_4;
        ethernet_type_protocol = cpu_to_be_16 net.ether_type_ipv4;
        ip4_src = src;
        ip4_dist = dst;
      }))
    else if has pkt_type net.ptype_l3_ipv6
    then (do
      src ← read_bytes buf (l3_offset + 8) 16
      dst ← read_bytes buf (l3_offset + 24) 16
      parse_l4 net pkt_type buf l4_offset (record info_pac {
        ip_version = ip_6;
        ethernet_type_protocol = cpu_to_be_16 net.ether_type_ipv6;
        ip6_src = src;
        ip6_dist = dst;
      }))
    else done info_pac

abbrev pub len_dns_header : ℕ
len_dns_header = 12

-- the query in a UDP packet to port 53
unfoldable pub parse_dns : Net → ℕ → HdrLens → Mbuf → InfoOfPakage → Run InfoOfPakage
parse_dns net pkt_type hdr_lens packet info_pac =
    let l4_offset = hdr_lens.l2_len + hdr_lens.l3_len + hdr_lens.l4_len in
    if has pkt_type net.ptype_l4_udp && info_pac.number_port == cpu_to_be_16 53
    then (if ltb (l4_offset + len_dns_header) packet.data_len
        then (do
          domain ← dns_name (drop (l4_offset + len_dns_header) packet.buf) info_pac.domain
          done (record info_pac { domain = domain }))
        else done info_pac)
    else done info_pac

unfoldable pub parsing_pakage : Net → Mbuf → InfoOfPakage → Run InfoOfPakage
parsing_pakage net packet info_pac =
    let (pkt_type, hdr_lens) = net.get_ptype packet in
    if pkt_type == net.ptype_unknown then done info_pac else do
      host ← read16 packet.buf 12
      info_l3 ←
          parse_l3 net pkt_type hdr_lens packet.buf (record info_pac { ethernet_type_host = host })
      parse_dns net pkt_type hdr_lens packet info_l3
