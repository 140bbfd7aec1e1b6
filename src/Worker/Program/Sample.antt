-- ===== src/Worker/Program/Sample.antt =====
-- Drivers that take every call, and what the start of a program meets.
use grpc_server.Base.{
  none, ◌==◌, ◌++◌, if◌then◌else◌, ℕ, refl, true, false, some, [], ◌∷◌, Bytes, pos, replicate,
  arith,
}
use grpc_server.Cache.Table.{sample_hash}
use grpc_server.Cache.Sample.{node_with, sample_heap, sample_heap-IsFresh}
use grpc_server.Packets.Sample.{policy}
use grpc_server.Worker.Sample.{round}
use grpc_server.Save.Sample.{sqlite, load_env, no_address, created_empty}
use grpc_server.Ports.Named.{af_xdp_prefix, tap_prefix}
use grpc_server.Ports.{EthDev}
use grpc_server.Ports.Trio.Staged.{Closes}
use grpc_server.Worker.Start.{tap_name, Services, Dpdk}
use grpc_server.Worker.Start.Brought.{CanStart}
use grpc_server.Worker.Program.{Settings, Session, no_dpdk}

abbrev pub eth0 : Bytes
eth0 = b'e' ∷ b'0' ∷ []

abbrev pub eth1 : Bytes
eth1 = b'e' ∷ b'1' ∷ []

-- the names of the three devices
abbrev pub device_name : ℕ → Bytes
device_name id =
    if id == 0
    then af_xdp_prefix ++ eth0 ++ 0 ∷ []
    else if id == 1
    then af_xdp_prefix ++ eth1 ++ 0 ∷ []
    else tap_prefix ++ tap_name ++ 0 ∷ []

abbrev pub eth : ℕ → EthDev
eth i = record {
  vdev_init = λ name args. pos 0;
  vdev_uninit = λ name. pos 0;
  count_avail = 3;
  info_get = λ id. pos 0;
  name_by_port = λ id. some (device_name id);
  is_valid_port = λ id. true;
  configure = λ id. pos 0;
  rx_queue_setup = λ id. pos 0;
  tx_queue_setup = λ id. pos 0;
  macaddr_get = λ id. (pos 0, replicate 6 id);
  start = λ id. pos 0;
  promiscuous_enable = λ id. pos 0;
  stop = λ id. pos 0;
  close = λ id. pos 0;
}

pub eth-Closes : (i : ℕ) → Closes (eth i)
eth-Closes i = ((λ id. refl), (λ id. refl), (λ name. refl))

abbrev pub services : Services
services = record {
  eal_init = pos 0;
  pool_create = some 7;
  iface_in = some eth0;
  iface_out = some eth1;
  with_af_packet = false;
  calloc_ok = λ i. true;
  eth = eth;
  load_dns = load_env;
  load_ip = load_env;
  pton = no_address;
  garbage_key = [];
  ntop = record { inet = λ ip. []; inet6 = λ ip. [] };
  counted_dns = [];
  counted_ip = (record { key = []; node = node_with none }) ∷ [];
}

abbrev pub no_objects : Dpdk sqlite sample_hash
no_objects = no_dpdk sample_heap sample_heap

pub no_objects-CanStart : CanStart sqlite sample_hash services no_objects
no_objects-CanStart = record {
  empty = created_empty;
  hz_dns = omega arith;
  hz_ip = omega arith;
  fresh_dns = sample_heap-IsFresh;
  fresh_ip = sample_heap-IsFresh;
  removes = λ i name. refl;
  memory = λ i. refl;
}

abbrev pub settings : Settings
settings = record {
  worker_id = some (b'4' ∷ []);
  gateway_address = some (b'g' ∷ []);
  gateway_port = some (b'1' ∷ []);
  test_request_policy = false;
  test_classify_target = none;
}

abbrev pub intr : Bytes
intr = b'i' ∷ b'n' ∷ b't' ∷ b'r' ∷ []

abbrev pub session : Session
session = record {
  stat = some ([] ++ ((intr ∷ []) ∷ []));
  garbage = policy;
  answer = none;
  test_answer = none;
  start = 0;
  rounds = round ∷ [];
  stop_flag = true;
}
