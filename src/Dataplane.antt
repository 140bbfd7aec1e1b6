-- ===== src/Dataplane.antt =====
-- worker/src/dpdk_filter/main.c: the data plane as a program of its own, with a forwarding that neither
-- rewrites a packet nor counts it. What it has in common with the worker is that of Worker.Start.
pub mod Cycles
pub mod Runs
mod Tests
use grpc_server.Base.{
  ℕ, ◌+◌, ◌%◌, ◌^◌, Bool, true, false, ◌&&◌, Option, none, some, List, [], ◌∷◌, Bytes, ℤ, pos,
  negsuc, ltb, leb, if◌then◌else◌,
}
use grpc_server.Base.Run.{Run, done, ◌>>=◌}
use grpc_server.RteHash.{RteHash}
use grpc_server.Cache.{Heap, Cache}
use grpc_server.Filter.{BasePolicy}
use grpc_server.Parser.{Mbuf}
use grpc_server.Packets.State.{NetPort, tx, Env, World, pktmbuf_free, tick}
use grpc_server.Packets.{pakage_processing}
use grpc_server.Ports.{is_negative}
use grpc_server.Ports.Trio.{Trio, init_ports, start_ports, close_ports}
use grpc_server.Save.{Sqlite}
use grpc_server.Save.Caches.{Store, init_dns_cache, init_ip_cache}
use grpc_server.Worker.Start.{Services, Dpdk, built_ports, is_there, end_caches, net_ports}
use grpc_server.Worker.Program.{no_dpdk, after_loop}

abbrev pub timer_check_interval : ℕ
timer_check_interval = 10000

-- the interfaces of a build with VIRT_PORTS and of one without
abbrev pub iface_in : Bool → Bytes
iface_in virt_ports =
    if virt_ports then b'v' ∷ b'e' ∷ b't' ∷ b'h' ∷ b'0' ∷ [] else b'e' ∷ b't' ∷ b'h' ∷ b'0' ∷ []

abbrev pub iface_out : Bool → Bytes
iface_out virt_ports =
    if virt_ports then b'v' ∷ b'e' ∷ b't' ∷ b'h' ∷ b'1' ∷ [] else b'e' ∷ b't' ∷ b'h' ∷ b'1' ∷ []

-- what the three receive calls of a round fill in
pub record Cycle : Type 0 where
  pub tap_pkts : List Mbuf
  pub pkts : List Mbuf
  pub out_pkts : List Mbuf

pub record Plane (h : RteHash) : Type 0 where
  pub world : World h
  pub timer_check_counter : ℕ
  -- the calls of rte_timer_manage
  pub managed : ℕ

-- the exit code, the loop where it ran, and the ports and caches
pub record Finish (s : Sqlite) (h : RteHash) : Type 0 where
  pub ret : ℤ
  pub plane : Option (Plane h)
  pub dpdk : Dpdk s h

module _ {h : RteHash} (env : Env) where
  -- one packet: it is sent as it is, or released
  unfoldable pub send_or_free : Mbuf → ℕ → ℕ → World h → World h
  send_or_free pkt port_id queue_number w =
      let ret = env.tx_burst w.step port_id queue_number pkt in
      let w' = record (tick w) { events = tx port_id queue_number pkt ret ∷ w.events } in
      if ltb ret 1 then pktmbuf_free pkt w' else w'

  unfoldable pub forward_to_out : ℕ → ℕ → List Mbuf → World h → World h
  unfolding send_or_free
  forward_to_out outgoing_port queue_number [] w = w
  forward_to_out outgoing_port queue_number (pkt ∷ tap_pkts) w =
      forward_to_out outgoing_port queue_number tap_pkts
        (send_or_free pkt (w.ports outgoing_port).port_id queue_number w)

  unfoldable pub check_timers : Plane h → Plane h
  check_timers l =
      let counter = (l.timer_check_counter + 1) % 2 ^ 64 in
      if leb timer_check_interval counter
      then record l { timer_check_counter = 0; managed = l.managed + 1 }
      else record l { timer_check_counter = counter }

  -- one round, with the filter on; the policy is the memory of a variable that is never filled
  unfoldable pub run_cycle : BasePolicy → Cycle → Plane h → Run (Plane h)
  unfolding forward_to_out check_timers
  run_cycle policy r l = do
    w ← pakage_processing env policy 0 1 2 0 false r.pkts (forward_to_out 0 0 r.tap_pkts l.world)
    done (check_timers (record l { world = forward_to_out 0 0 r.out_pkts w }))

  -- the rounds until a signal
  unfoldable pub run_cycles : BasePolicy → List Cycle → Plane h → Run (Plane h)
  unfolding run_cycle
  run_cycles policy [] l = done l
  run_cycles policy (r ∷ cycles) l = do l' ← run_cycle policy r l; run_cycles policy cycles l'

-- the loop before its first round
abbrev pub new_plane : {s : Sqlite} {h : RteHash} → Dpdk s h → Plane h
new_plane d = record {
  world = record {
    ports = net_ports d.ports;
    ip_cache = record { hash = d.ip_store.hash; heap = d.ip_store.heap };
    dns_cache = record { hash = d.dns_store.hash; heap = d.dns_store.heap };
    received = 0;
    passed = 0;
    dropped = 0;
    events = [];
    step = 0;
  };
  timer_check_counter = 0;
  managed = 0;
}

abbrev pub gives_up : {s : Sqlite} {h : RteHash} → ℤ → Dpdk s h → Run (Finish s h)
gives_up ret d = done (record { ret = ret; plane = none; dpdk = d })

module _ {s : Sqlite} {h : RteHash} (env : Env) (services : Services) (virt_ports : Bool)
    (policy : BasePolicy) (cycles : List Cycle) where
  -- the loop, and the end behind it
  unfoldable pub run_loop : Dpdk s h → Run (Finish s h)
  unfolding run_cycles end_caches close_ports
  run_loop d = do
    l ← run_cycles env policy cycles (new_plane d)
    d' ← end_caches services (after_loop d l.world)
    done (record {
      ret = pos 0;
      plane = some l;
      dpdk = record d' { ports = close_ports services.eth d'.ports };
    })

  -- from the initialisation of the ports on
  unfoldable pub run_ports : Dpdk s h → Run (Finish s h)
  unfolding run_loop
  run_ports d = do
    (not_initialized, ports1) ← init_ports services.eth d.ports
    elim not_initialized [
      | true ↦ gives_up (pos 1) (record d { ports = ports1 })
      | false ↦ do
        (not_started, ports2) ← start_ports services.eth ports1
        elim not_started [
          | true ↦ gives_up (pos 1) (record d { ports = ports2 })
          | false ↦ run_loop (record d { ports = ports2 })
        ]
    ]

  -- with a pool, from the two caches on
  unfoldable pub run_with_pool : ℕ → Dpdk s h → Run (Finish s h)
  unfolding run_ports
  run_with_pool pool d = do
    dns ← init_dns_cache s h services.load_dns d.dns_store
    ip ← init_ip_cache s h services.pton services.garbage_key services.load_ip d.ip_store
    let ports = built_ports services pool (iface_in virt_ports) (iface_out virt_ports)
    let d' = record d { mbuf_pool = some pool; ports = ports; dns_store = dns; ip_store = ip }
    if is_there ports.port_in && is_there ports.port_out && is_there ports.port_exception
        then run_ports d'
        else gives_up (pos 1) d'

  -- `main`, where both signal handlers can be set
  unfoldable pub main : Heap → Heap → Run (Finish s h)
  unfolding run_with_pool
  main dns_heap ip_heap =
      let d = no_dpdk {s = s} {h = h} dns_heap ip_heap in
      if is_negative services.eal_init then gives_up (pos 1) d else elim services.pool_create [
        | none ↦ gives_up (negsuc 0) d
        | some pool ↦ run_with_pool pool d
      ]
