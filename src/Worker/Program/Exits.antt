-- ===== src/Worker/Program/Exits.antt =====
-- What the program reports and leaves when it ends.
use grpc_server.Base.{
  ℕ, ◌≡◌, ◌⊎◌, refl, ap, inl, inr, true, false, Option, none, some, [], ◌∷◌, Bytes, Option-cases,
  arith,
}
use grpc_server.Base.Run.{Run, done, fault, no_fuel, ◌>>=◌, Gives, Gives-both, Gives-then}
use grpc_server.RteHash.{RteHash, IsHash}
use grpc_server.Cache.{Heap, Cache, is_open}
use grpc_server.Save.{Sqlite, Tables, domain_tables, ip_tables}
use grpc_server.Save.Caches.{LoadEnv, Store}
use grpc_server.Save.Caches.Released.{IsShut}
use grpc_server.Packets.State.{Env}
use grpc_server.Packets.Accounts.{count_sent, count_refused, count_released}
use grpc_server.Ports.{is_negative}
use grpc_server.Ports.Stages.{ready, started}
use grpc_server.Ports.Trio.{Slot}
use grpc_server.Ports.Trio.Staged.{
  At, Built, UpTo, NotReady, NotStarted, FailsAt, AllPorts, HalfStarted, Closes,
}
use grpc_server.Metrics.{CpuUsage, open_cpus}
use grpc_server.Worker.Policy.{AddrParser}
use grpc_server.Worker.Counters.{Counter, IsCounter, MetricsCollector, Totals, no_packets}
use grpc_server.Worker.Counters.Kept.{IsWired, exported_totals}
use grpc_server.Worker.Loop.{Process, free, apply_answers, main_loop}
use grpc_server.Worker.Loop.Answered.{Leaves, Gives-apply_answers}
use grpc_server.Worker.Loop.Opened.{SameCaches, main_loop-SameCaches}
use grpc_server.Worker.Loop.Recorded.{Reports, IsFlushed, Reports-Leaves}
use grpc_server.Worker.Loop.Reported.{counted_packets, all_packets, main_loop-Reports}
use grpc_server.Worker.Start.{
  Services, InitError, ports_not_initialized, ports_not_started, Dpdk, init_dpdk, destroy,
}
use grpc_server.Worker.Start.Brought.{OpensTo, CanStart, init_dpdk-Brought}
use grpc_server.Worker.Start.Shut.{IsWhole, IsEnded, destroy-IsEnded, destroy-IsShut}
use grpc_server.Worker.Program.{
  Settings, Session, exit_code, no_store, no_dpdk, new_process, with_devices, after_loop, Left,
  construct, serve, run_worker, main,
}

-- `initDPDK` throws at the first port that cannot be initialised, or at the first that cannot be
-- started where all were initialised.
abbrev pub PortsFailed : (s : Sqlite) (h : RteHash) → Services → Heap → Heap → Type 0
PortsFailed s h services dns_heap ip_heap =
    (e : InitError) × (d : Dpdk s h) × (init_dpdk services (no_dpdk dns_heap ip_heap)
      ≡ done (some e, d))
    × (((e ≡ ports_not_initialized) × FailsAt Built (UpTo ready) NotReady d.ports)
        ⊎ ((e ≡ ports_not_started) × FailsAt (UpTo ready) (UpTo started) NotStarted d.ports))

-- The ports came up, the loop has run, all that it counted is exported, and nothing is left; or a
-- port failed, no packet was moved, and nothing is left of the caches.
abbrev pub Ended :
    {s : Sqlite} {h : RteHash} {c : Counter}
    → Services
    → Session
    → Heap
    → Heap
    → Left s h c
    → Type 0
Ended {s} {h} services session dns_heap ip_heap left =
    ((left.exit ≡ exit_code 0)
      × ((d : Dpdk s h) × (init_dpdk services (no_dpdk dns_heap ip_heap) ≡ done (none, d)))
      × Reports (counted_packets session.rounds) (all_packets session.rounds) left.process
      × IsFlushed left.process
      × IsEnded left.dpdk)
    ⊎ ((left.exit ≡ exit_code 1)
        × PortsFailed s h services dns_heap ip_heap
        × Reports 0 0 left.process
        × IsShut s h left.dpdk.dns_store
        × IsShut s h left.dpdk.ip_store)

-- what the environment has to give for the program to come as far as its ports
pub record CanServe (s : Sqlite) (h : RteHash) (services : Services) (dns_heap ip_heap : Heap)
    : Type 0 where
  pub start : CanStart s h services (no_dpdk dns_heap ip_heap)
  pub eal : is_negative services.eal_init ≡ false
  pub pool : (pool : ℕ) × (services.pool_create ≡ some pool)
  pub iface_in : (name : Bytes) × (services.iface_in ≡ some name)
  pub iface_out : (name : Bytes) × (services.iface_out ≡ some name)
  pub closes : (i : ℕ) → Closes (services.eth i)

done-inj {ℓ} : {A : Type ℓ} {a b : A} → done a ≡ done b → a ≡ b
done-inj e = cc

bind_done {ℓ} :
    {A B C : Type ℓ} (m : Run A) (g : A → B) (f : B → Run C)
    → ((m >>= (λ a. done (g a))) >>= f) ≡ (m >>= (λ a. f (g a)))
bind_done (done a) g f = refl
bind_done fault g f = refl
bind_done no_fuel g f = refl

open_table :
    (h : RteHash) (hash : Option h.Table) (heap : Heap)
    → is_open {h = h} (record { hash = hash; heap = heap }) ≡ true
    → (t : h.Table) × (hash ≡ some t)
open_table h none heap e = absurd cc
open_table h (some t) heap e = (t, refl)

module _ {s : Sqlite} {h : RteHash} where
  -- a cache that was opened is whole, whatever the loop did with its table and its entries
  pub OpensTo-IsWhole :
      (ts : Tables) (env : LoadEnv) (heap : Heap) (store : Store s h) (c : Cache h)
      → OpensTo s h ts env (no_store heap) store
      → is_open c ≡ is_open {h = h} (record { hash = store.hash; heap = store.heap })
      → IsWhole {s = s} {h = h} (record store { hash = c.hash; heap = c.heap })
  OpensTo-IsWhole ts env heap store c (inl (t, at_t, same)) e = absurd (cc)
  OpensTo-IsWhole ts env heap store c (inr (inl (at_none, full, same))) e =
      let e' : store ≡ no_store heap = done-inj same in
      elim (Option-cases c.hash) [
        | inl null ↦ inr (record { hash = null; db = rw e' refl; timer = rw e' refl })
        | inr (t, at_t) ↦ inl (t, at_t)
      ]
  OpensTo-IsWhole ts env heap store c (inr (inr (t, heap', at_none, same, all, fresh))) e =
      let e' = done-inj same in inl (open_table h c.hash c.heap (rw e' at e))

HalfStarted-ready : (slot : Slot) → At ready slot → HalfStarted slot
HalfStarted-ready slot at_ready = inl at_ready

pub HalfStarted-started : (slot : Slot) → At started slot → HalfStarted slot
HalfStarted-started slot at_started = inr at_started

module _ {s : Sqlite} {h : RteHash} {c : Counter} (env : Env) (services : Services)
    (pton : AddrParser) (session : Session) (p : Process h c) where
  -- the loop on the ports and the caches that were brought up, and the end behind it
  loop-Ended :
      (d : Dpdk s h) (dns_heap ip_heap : Heap)
      → IsCounter c
      → ((i : ℕ) → Closes (services.eth i))
      → p.state ≡ free
      → Reports 0 0 p
      → AllPorts (UpTo started) d.ports
      → OpensTo s h domain_tables services.load_dns (no_store dns_heap) d.dns_store
      → OpensTo s h ip_tables services.load_ip (no_store ip_heap) d.ip_store
      → init_dpdk services (no_dpdk {s = s} {h = h} dns_heap ip_heap) ≡ done (none, d)
      → Gives (Ended services session dns_heap ip_heap) (
          main_loop env pton 0 1 2 0 session.start session.rounds session.stop_flag
            (with_devices d p)
          >>= (λ p1.
              destroy services (after_loop d p1.world)
              >>= (λ d2. done (record { exit = exit_code 0; process = p1; dpdk = d2 }))))
  loop-Ended d dns_heap ip_heap clean closes running i (b1, b2, b3) dns ip came_up =
      let p0 = with_devices d p in
      let i0 : Reports 0 0 p0 = record {
        collecting = i.collecting;
        received = i.received;
        disposed = i.disposed;
        passed = i.passed;
        dropped_ge = i.dropped_ge;
        dropped_le = i.dropped_le;
      } in
      Gives-then _ (Ended services session dns_heap ip_heap)
        (main_loop env pton 0 1 2 0 session.start session.rounds session.stop_flag p0) _
        (Gives-both _ (SameCaches p0)
          (main_loop env pton 0 1 2 0 session.start session.rounds session.stop_flag p0)
          (main_loop-Reports env pton 0 1 2 0 session.start session.rounds session.stop_flag p0
            clean running i0)
          (main_loop-SameCaches env pton 0 1 2 0 session.start session.rounds session.stop_flag p0))
        (λ p1 ((reported, flushed), same).
          Gives-then IsEnded (Ended services session dns_heap ip_heap)
            (destroy services (after_loop d p1.world)) _
            (destroy-IsEnded services (after_loop d p1.world) closes
              (
                HalfStarted-started d.ports.port_in b1.0,
                HalfStarted-started d.ports.port_out b2.0,
                HalfStarted-started d.ports.port_exception b3.0,
              )
              (OpensTo-IsWhole domain_tables services.load_dns dns_heap d.dns_store
                p1.world.dns_cache dns same.dns_open)
              (OpensTo-IsWhole ip_tables services.load_ip ip_heap d.ip_store p1.world.ip_cache ip
                same.ip_open))
            (λ d2 ended. inl (refl, (d, came_up), reported, flushed, ended)))

  -- the destructor behind ports that failed
  failed-Ended :
      (d : Dpdk s h) (dns_heap ip_heap : Heap)
      → Reports 0 0 p
      → d.dns_store ≡ no_store dns_heap
      → d.ip_store ≡ no_store ip_heap
      → PortsFailed s h services dns_heap ip_heap
      → Gives (Ended services session dns_heap ip_heap) (
          destroy services d
          >>= (λ d2. done (record { exit = exit_code 1; process = p; dpdk = d2 })))
  failed-Ended d dns_heap ip_heap i dns ip failed =
      Gives-then _ (Ended services session dns_heap ip_heap) (destroy services d) _
        (destroy-IsShut services d (rw dns (record { hash = refl; db = refl; timer = refl }))
          (rw ip (record { hash = refl; db = refl; timer = refl })))
        (λ d2 (dns_shut, ip_shut). inr (refl, failed, i, dns_shut, ip_shut))

  serve-Ended :
      (fuel : ℕ) (stoull : Bytes → Option ℕ) (dns_heap ip_heap : Heap)
      → IsHash h
      → IsCounter c
      → CanServe s h services dns_heap ip_heap
      → p.state ≡ free
      → Reports 0 0 p
      → Gives
          (Ended services session dns_heap ip_heap)
          (serve env services pton stoull fuel session p (no_dpdk {s = s} {h = h} dns_heap ip_heap))
  unfolding serve
  serve-Ended fuel stoull dns_heap ip_heap laws clean can running i =
      let (thrown, d1, run, brought) =
        init_dpdk-Brought laws services (no_dpdk {s = s} {h = h} dns_heap ip_heap) can.pool.0
          can.iface_in.0 can.iface_out.0 can.start can.eal can.pool.1 can.iface_in.1
          can.iface_out.1 in
      elim brought [
        | inl (at_thrown, ports, dns, ip) ↦
            rw (run, ◌>>=◌, at_thrown)
              (loop-Ended d1 dns_heap ip_heap clean can.closes running i ports dns ip
                (rw at_thrown at run))
        | inr (inl (at_thrown, ports, dns, ip)) ↦
            rw (run, ◌>>=◌, at_thrown)
              (failed-Ended d1 dns_heap ip_heap i dns ip
                (ports_not_initialized, d1, rw at_thrown at run, inl (refl, ports)))
        | inr (inr (at_thrown, ports, dns, ip)) ↦
            rw (run, ◌>>=◌, at_thrown)
              (failed-Ended d1 dns_heap ip_heap i dns ip
                (ports_not_started, d1, rw at_thrown at run, inr (refl, ports)))
      ]

-- the records of a new worker
new_process-Reports :
    {h : RteHash} {c : Counter} (m : MetricsCollector c) (session : Session)
    (dns_heap ip_heap : Heap)
    → IsWired c m
    → exported_totals c m ≡ no_packets
    → Reports 0 0 (new_process {h = h} {c = c} session.garbage m dns_heap ip_heap)
unfolding count_sent count_refused count_released
new_process-Reports m session dns_heap ip_heap wired nothing = record {
  collecting = wired;
  received = omega (arith, ap (λ (t : Totals). t.received) nothing);
  disposed = refl;
  passed = omega (arith, ap (λ (t : Totals). t.passed) nothing);
  dropped_ge = omega arith;
  dropped_le = omega (arith, ap (λ (t : Totals). t.dropped) nothing);
}

module _ {s : Sqlite} {h : RteHash} {c : Counter} (env : Env) (services : Services)
    (pton : AddrParser) (stoull : Bytes → Option ℕ) (fuel : ℕ) (settings : Settings)
    (session : Session) (m : MetricsCollector c) (dns_heap ip_heap : Heap) where
  run_worker-Ended :
      (usage : CpuUsage)
      → IsHash h
      → IsCounter c
      → settings.test_request_policy ≡ false
      → settings.test_classify_target ≡ none
      → open_cpus fuel session.stat ≡ done usage
      → IsWired c m
      → exported_totals c m ≡ no_packets
      → CanServe s h services dns_heap ip_heap
      → Gives (Ended {s = s} {h = h} services session dns_heap ip_heap) (
          run_worker {s = s} {h = h} env services pton stoull fuel settings session m dns_heap
            ip_heap)
  unfolding run_worker construct
  run_worker-Ended usage laws clean no_request no_target opened wired nothing can =
      let p = new_process {h = h} {c = c} session.garbage m dns_heap ip_heap in
      let same : run_worker env services pton stoull fuel settings session m dns_heap ip_heap ≡ (
          apply_answers pton (session.answer ∷ []) p >>= (λ p1.
            serve env services pton stoull fuel session p1
              (no_dpdk {s = s} {h = h} dns_heap ip_heap))) =
        simp (run_worker, construct, no_request, no_target, opened)
          (bind_done (apply_answers pton (session.answer ∷ []) p) (λ p1. (p1, usage)) _) in
      rw same (
        Gives-then (Leaves p) (Ended services session dns_heap ip_heap)
          (apply_answers pton (session.answer ∷ []) p) _
          (Gives-apply_answers pton (session.answer ∷ []) p)
          (λ p1 l.
            serve-Ended env services pton session p1 fuel stoull dns_heap ip_heap laws clean can
              l.state
              (Reports-Leaves 0 0 l
                (new_process-Reports m session dns_heap ip_heap wired nothing))))

-- If the program's variables are set, WORKER_ID is a number and no test is asked for, the counters
-- of Prometheus count, are registered and zero, the loop over /proc/stat ends, the hash tables
-- behave as documented and start empty, the clocks run, the heaps give fresh addresses, EAL, the
-- pool, the interfaces and the memory of the ports are there, and DPDK does what closing a port
-- asks for: the program ends, and if it touches live objects alone, it returns 0 or 1. With 0,
-- `initDPDK` threw nothing, the
-- counters of Prometheus stand for the packets of the rounds, each packet was sent or released
-- once, nothing is left in the local counters, and no device, port, table, connection or timer is
-- left. With 1, `initDPDK` threw at the first port that could not be initialised or started, no
-- packet was moved, and no table, connection or timer is left.
pub main-Ended :
    {s : Sqlite} {h : RteHash} {c : Counter} (env : Env) (services : Services) (pton : AddrParser)
    (stoull : Bytes → Option ℕ) (fuel : ℕ) (settings : Settings) (session : Session)
    (m : MetricsCollector c) (dns_heap ip_heap : Heap) (text address port : Bytes) (id : ℕ)
    (usage : CpuUsage)
    → IsHash h
    → IsCounter c
    → settings.worker_id ≡ some text
    → stoull text ≡ some id
    → settings.gateway_address ≡ some address
    → settings.gateway_port ≡ some port
    → settings.test_request_policy ≡ false
    → settings.test_classify_target ≡ none
    → open_cpus fuel session.stat ≡ done usage
    → IsWired c m
    → exported_totals c m ≡ no_packets
    → CanServe s h services dns_heap ip_heap
    → Gives
        (λ out.
          (left : Left s h c) × (out ≡ (left.exit, some left))
          × Ended services session dns_heap ip_heap left)
        (main {s = s} {h = h} env services pton stoull fuel settings session m dns_heap ip_heap)
unfolding main
main-Ended {s} {h} {c} env services pton stoull fuel settings session m dns_heap ip_heap text
      address port id usage laws clean at_id number at_address at_port no_request no_target opened
      wired nothing can =
    let same : main {s = s} {h = h} env services pton stoull fuel settings session m dns_heap
          ip_heap
        ≡ (run_worker {s = s} {h = h} env services pton stoull fuel settings session m dns_heap
              ip_heap
            >>= (λ left. done (left.exit, some left))) =
      simp (main, at_id, number, at_address, at_port) refl in
    rw same (
      Gives-then (Ended services session dns_heap ip_heap) _
        (run_worker env services pton stoull fuel settings session m dns_heap ip_heap) _
        (run_worker-Ended env services pton stoull fuel settings session m dns_heap ip_heap usage
          laws clean no_request no_target opened wired nothing can)
        (λ left ended. (left, refl, ended)))
