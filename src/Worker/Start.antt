-- ===== src/Worker/Start.antt =====
-- worker/src/worker.cpp: `initDPDK` and the destructor of `Worker`. What the program
-- takes from its environment, from DPDK and from the allocator is in `Services`.
pub mod Brought
pub mod Shut
use grpc_server.Base.{
  ℕ, ◌+◌, ◌==◌, ◌&&◌, ◌≡◌, Bool, true, false, Option, none, some, List, [], ◌∷◌, Bytes, ℤ, pos,
  replicate, if◌then◌else◌,
}
use grpc_server.Base.Run.{Run, done, ◌>>=◌}
use grpc_server.RteHash.{RteHash}
use grpc_server.Cache.{Cache}
use grpc_server.IpCache.{Pton}
use grpc_server.Save.{Sqlite, Snapshot}
use grpc_server.Save.Caches.{
  LoadEnv, Store, Ntop, init_dns_cache, init_ip_cache, save_all_cache_to_sqlite,
  save_all_cache_ip_to_sqlite,
}
use grpc_server.Save.Caches.Released.{free_store, free_dns_cache, free_ip_cache}
use grpc_server.Filter.{BasePolicy}
use grpc_server.Packets.State.{NetPort, World}
use grpc_server.Ports.{Port, EthDev, is_negative}
use grpc_server.Ports.Named.{init_struct_tap_port, init_struct_af_xdp_port}
use grpc_server.Ports.Trio.{Trio, Slot, slot_of, no_ports, init_ports, start_ports, close_ports}
use grpc_server.Metrics.{CpuUsage, open_cpus}
use grpc_server.Worker.Policy.{AddrParser, GetPolicyResponse}
use grpc_server.Worker.Counters.{Counter, MetricsCollector}
use grpc_server.Worker.Loop.{Process, WorkerState, free, apply_answers, min_policy_time}

abbrev pub tap_name : Bytes
tap_name = b't' ∷ b'a' ∷ b'p' ∷ b'0' ∷ []

-- what the program takes from outside as it starts and ends
pub record Services : Type 0 where
  -- rte_eal_init, and rte_pktmbuf_pool_create: an address, or `none` for NULL
  pub eal_init : ℤ
  pub pool_create : Option ℕ
  -- DPDK_PORT_IN and DPDK_PORT_OUT
  pub iface_in : Option Bytes
  pub iface_out : Option Bytes
  pub with_af_packet : Bool
  -- the three allocations of a port, and the answers to the calls on devices
  pub calloc_ok : ℕ → Bool
  pub eth : ℕ → EthDev
  pub load_dns : LoadEnv
  pub load_ip : LoadEnv
  pub pton : Pton
  pub garbage_key : Bytes
  pub ntop : Ntop
  -- the memory of the two snapshots
  pub counted_dns : List Snapshot
  pub counted_ip : List Snapshot

-- what `initDPDK` throws
pub data InitError : Type 0 where
  eal_failed no_mbuf_pool no_interfaces ports_not_initialized ports_not_started : InitError

pub record Dpdk (s : Sqlite) (h : RteHash) : Type 0 where
  pub mbuf_pool : Option ℕ
  pub ports : Trio
  pub dns_store : Store s h
  pub ip_store : Store s h

-- the three ports as they are built
abbrev pub built_ports : Services → ℕ → Bytes → Bytes → Trio
built_ports env pool iface_in iface_out = record {
  port_in = slot_of (init_struct_af_xdp_port env.with_af_packet (env.calloc_ok 0) iface_in pool);
  port_out = slot_of (init_struct_af_xdp_port env.with_af_packet (env.calloc_ok 1) iface_out pool);
  port_exception = slot_of (init_struct_tap_port (env.calloc_ok 2) tap_name pool);
}

abbrev pub is_there : Slot → Bool
is_there slot = elim slot.port [ none ↦ false | some port ↦ true ]

module _ {s : Sqlite} {h : RteHash} (env : Services) where
  -- from the initialisation of the ports on
  unfoldable pub init_devices : Dpdk s h → Run (Option InitError × Dpdk s h)
  init_devices d = do
    (not_initialized, ports1) ← init_ports env.eth d.ports
    elim not_initialized [
      | true ↦ done (some ports_not_initialized, record d { ports = ports1 })
      | false ↦ do
        (not_started, ports2) ← start_ports env.eth ports1
        elim not_started [
          | true ↦ done (some ports_not_started, record d { ports = ports2 })
          | false ↦ do
            dns ← init_dns_cache s h env.load_dns d.dns_store
            ip ← init_ip_cache s h env.pton env.garbage_key env.load_ip d.ip_store
            done (none, record d { ports = ports2; dns_store = dns; ip_store = ip })
        ]
    ]

  -- with a pool, from the two names on
  unfoldable pub init_with_pool :
      ℕ → Option Bytes → Option Bytes → Dpdk s h → Run (Option InitError × Dpdk s h)
  unfolding init_devices
  init_with_pool pool (some iface_in) (some iface_out) d =
      init_devices (record d { ports = built_ports env pool iface_in iface_out })
  init_with_pool pool (some iface_in) none d = done (some no_interfaces, d)
  init_with_pool pool none iface_out d = done (some no_interfaces, d)

  -- `initDPDK`: what it throws, and what it leaves
  unfoldable pub init_dpdk : Dpdk s h → Run (Option InitError × Dpdk s h)
  unfolding init_with_pool
  init_dpdk d =
      if is_negative env.eal_init then done (some eal_failed, d) else elim env.pool_create [
        | none ↦ done (some no_mbuf_pool, record d { mbuf_pool = none })
        | some pool ↦
            init_with_pool pool env.iface_in env.iface_out (record d { mbuf_pool = some pool })
      ]

  -- the saving and the end of the two caches
  unfoldable pub end_caches : Dpdk s h → Run (Dpdk s h)
  unfolding free_store
  end_caches d = do
    (dns_end, dns_db) ←
        save_all_cache_to_sqlite s h d.dns_store.hash d.dns_store.db env.counted_dns
          d.dns_store.heap
    (ip_end, ip_db) ←
        save_all_cache_ip_to_sqlite s h env.ntop d.ip_store.hash d.ip_store.db env.counted_ip
          d.ip_store.heap
    dns ← free_dns_cache s h (record d.dns_store { db = dns_db })
    ip ← free_ip_cache s h (record d.ip_store { db = ip_db })
    done (record d { dns_store = dns; ip_store = ip })

  -- `~Worker`
  unfoldable pub destroy : Dpdk s h → Run (Dpdk s h)
  unfolding end_caches
  destroy d =
      if is_there d.ports.port_in && is_there d.ports.port_out
      then (do d' ← end_caches d; done (record d' { ports = close_ports env.eth d'.ports }))
      else done d

-- What the packet loop uses of a port. There is always one: the loop starts with all three.
abbrev pub net_port_of : Slot → NetPort
net_port_of slot = elim slot.port [
  | none ↦ record { port_id = 0; mac_addr = []; neighbor_mac = []; neighbor_learned = false }
  | some port ↦ record {
    port_id = port.port_id;
    mac_addr = port.mac_addr;
    neighbor_mac = replicate 6 0;
    neighbor_learned = port.neighbor_learned;
  }
]

-- the ports by their addresses: 0 for port_in, 1 for port_out and 2 for port_exception
abbrev pub net_ports : Trio → ℕ → NetPort
net_ports ports p =
    if p == 0
    then net_port_of ports.port_in
    else if p == 1
    then net_port_of ports.port_out
    else net_port_of ports.port_exception
