-- ===== src/Ports/Tests.antt =====
-- Ports for net_port.c, and the theorems at them.
use grpc_server.Base.{
  ◌==◌, ◌≡◌, ◌↔◌, arith, refl, true, false, some, [], ◌∷◌, Bytes, pos, negsuc, replicate, strcmp_eq,
  memcmp_eq, c_str, if◌then◌else◌,
}
use grpc_server.Ports.{
  Port, EthDev, set_up, set_up_found, find_port_from, find_port_by_dev_name, net_port_init,
  net_port_start, net_port_close, op_init, op_configure, op_rx, op_uninit, no_port,
}
use grpc_server.Ports.Named.{
  same_device, init_struct_tap_port, init_struct_af_xdp_port, init_struct_names,
}
use grpc_server.Ports.Search.{FindOk, find_port_by_dev_name-FindOk}
use grpc_server.Ports.Stages.{StartOk, CloseOk, start_close_stages}

abbrev tap0 : Bytes
tap0 = b't' ∷ b'0' ∷ 0 ∷ []

abbrev tap1 : Bytes
tap1 = b't' ∷ b'1' ∷ 0 ∷ []

-- two ports, of which the second cannot set up its receive queue
abbrev eth : EthDev
eth = record {
  vdev_init = λ name args. pos 0;
  vdev_uninit = λ name. pos 0;
  count_avail = 2;
  info_get = λ id. pos 0;
  name_by_port = λ id. if id == 0 then some tap0 else some tap1;
  is_valid_port = λ id. true;
  configure = λ id. pos 0;
  rx_queue_setup = λ id. if id == 1 then negsuc 21 else pos 0;
  tx_queue_setup = λ id. pos 0;
  macaddr_get = λ id. (pos 0, replicate 6 id);
  start = λ id. pos 0;
  promiscuous_enable = λ id. pos 0;
  stop = λ id. pos 0;
  close = λ id. pos 0;
}

abbrev port_named : Bytes → Port
port_named name = record {
  port_id = no_port;
  iface_name = [];
  dev_name = name;
  dev_args = [];
  mbuf_pool = 0;
  mac_addr = replicate 6 9;
  neighbor_learned = true;
}

init_tap1 : net_port_init eth (port_named tap1) ≡ (
  negsuc 21,
  record (port_named tap1) { port_id = 1 },
  (op_init, true) ∷ (op_configure, true) ∷ (op_rx, false) ∷ (op_uninit, true) ∷ [],
)
unfolding net_port_init set_up_found set_up find_port_by_dev_name find_port_from strcmp_eq memcmp_eq
    c_str
init_tap1 = refl

start_close_stages_example :
    StartOk eth 0 (net_port_start eth 0)
    × CloseOk eth
        (record (port_named tap0) { port_id = 0 })
        (net_port_close eth (some (record (port_named tap0) { port_id = 0 })))
start_close_stages_example = start_close_stages eth (record (port_named tap0) { port_id = 0 })

find_port_by_dev_name-FindOk_example : FindOk eth tap1 0 2 (find_port_by_dev_name eth tap1)
find_port_by_dev_name-FindOk_example = find_port_by_dev_name-FindOk eth tap1

init_struct_names_example :
    ((same_device (init_struct_tap_port true tap0 7) (init_struct_tap_port true tap1 7) ≡ true)
      ↔ (c_str tap0 ≡ c_str tap1))
    × ((same_device
            (init_struct_af_xdp_port false true tap0 7)
            (init_struct_af_xdp_port false true tap1 7)
          ≡ true)
        ↔ (c_str tap0 ≡ c_str tap1))
    × (same_device (init_struct_af_xdp_port false true tap0 7) (init_struct_tap_port true tap1 7)
        ≡ false)
unfolding c_str
init_struct_names_example = init_struct_names false tap0 tap1 7 (omega arith) (omega arith)
