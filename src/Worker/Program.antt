-- ===== src/Worker/Program.antt =====
-- worker/src/main.cpp, with the constructor of `Worker`: the whole run of the program, from its
-- environment variables to its exit code. Exceptions are values here; one that is thrown outside the
-- `try` ends the program by `std::terminate`.
pub mod Exits
pub mod Sample
mod Tests
mod Whole
use grpc_server.Base.{
  ℕ, ◌+◌, Bool, true, false, not, ◌&&◌, ◌||◌, Option, none, some, List, [], ◌∷◌, Bytes, ℤ,
  if◌then◌else◌,
}
use grpc_server.Base.Run.{Run, done, ◌>>=◌}
use grpc_server.RteHash.{RteHash}
use grpc_server.Cache.{Heap, Cache}
use grpc_server.Save.{Sqlite}
use grpc_server.Save.Caches.{Store}
use grpc_server.Filter.{BasePolicy}
use grpc_server.Packets.State.{Env, World}
use grpc_server.Ports.Trio.{slot_of, no_ports}
use grpc_server.Metrics.{CpuUsage, open_cpus}
use grpc_server.Worker.Policy.{AddrParser, GetPolicyResponse}
use grpc_server.Worker.Counters.{Counter, MetricsCollector}
use grpc_server.Worker.Loop.{Round, Process, free, min_policy_time, apply_answers, main_loop}
use grpc_server.Worker.Start.{Services, InitError, Dpdk, init_dpdk, destroy, net_port_of, net_ports}

-- the environment variables of `main`
pub record Settings : Type 0 where
  pub worker_id : Option Bytes
  pub gateway_address : Option Bytes
  pub gateway_port : Option Bytes
  pub test_request_policy : Bool
  pub test_classify_target : Option Bytes

-- What the run meets: /proc/stat, the memory that becomes the policy, the answers of the controller to
-- the request of the constructor and to that of the test mode, and the rounds of the loop.
pub record Session : Type 0 where
  pub stat : Option (List (List Bytes))
  pub garbage : BasePolicy
  pub answer : Option GetPolicyResponse
  pub test_answer : Option GetPolicyResponse
  pub start : ℕ
  pub rounds : List Round
  pub stop_flag : Bool

pub data Exit : Type 0 where
  exit_code : ℕ → Exit
  aborted : Exit

abbrev pub is_set : Option Bytes → Bool
is_set none = false
is_set (some text) = true

-- `test_mode`
abbrev pub is_test : Settings → Bool
is_test settings = settings.test_request_policy || is_set settings.test_classify_target

abbrev pub no_store : {s : Sqlite} {h : RteHash} → Heap → Store s h
no_store heap = record { hash = none; heap = heap; db = none; timer = none }

-- before `initDPDK`; each cache has a heap of its own
abbrev pub no_dpdk : {s : Sqlite} {h : RteHash} → Heap → Heap → Dpdk s h
no_dpdk dns_heap ip_heap = record {
  mbuf_pool = none;
  ports = no_ports;
  dns_store = no_store dns_heap;
  ip_store = no_store ip_heap;
}

-- The members of a new `Worker`. The policy is not initialised.
abbrev pub new_process :
    {h : RteHash} {c : Counter} → BasePolicy → MetricsCollector c → Heap → Heap → Process h c
new_process garbage m dns_heap ip_heap = record {
  world = record {
    ports = λ p. net_port_of (slot_of none);
    ip_cache = record { hash = none; heap = ip_heap };
    dns_cache = record { hash = none; heap = dns_heap };
    received = 0;
    passed = 0;
    dropped = 0;
    events = [];
    step = 0;
  };
  current_config_version = 0;
  enable = true;
  current_policy = garbage;
  state = free;
  last_policy_time = 0;
  policy_interval = min_policy_time;
  last_metrics_push_time = 0;
  timer_check_counter = 0;
  metrics_collector = some m;
  calls = [];
}

-- the ports and the caches, as the loop finds them and as it leaves them
abbrev pub with_devices :
    {s : Sqlite} {h : RteHash} {c : Counter} → Dpdk s h → Process h c → Process h c
with_devices d p = record p {
  world = record p.world {
    ports = net_ports d.ports;
    ip_cache = record { hash = d.ip_store.hash; heap = d.ip_store.heap };
    dns_cache = record { hash = d.dns_store.hash; heap = d.dns_store.heap };
  };
}

abbrev pub after_loop : {s : Sqlite} {h : RteHash} → Dpdk s h → World h → Dpdk s h
after_loop d w = record d {
  ip_store = record d.ip_store { hash = w.ip_cache.hash; heap = w.ip_cache.heap };
  dns_store = record d.dns_store { hash = w.dns_cache.hash; heap = w.dns_cache.heap };
}

-- what the program leaves: of the process, and of DPDK and the caches
pub record Left (s : Sqlite) (h : RteHash) (c : Counter) : Type 0 where
  pub exit : Exit
  pub process : Process h c
  pub dpdk : Dpdk s h

-- `Worker::Worker`, behind which the policy of the first answer is in place
unfoldable pub construct :
    {h : RteHash} {c : Counter}
    → AddrParser
    → ℕ
    → Session
    → MetricsCollector c
    → Heap
    → Heap
    → Run (Process h c × CpuUsage)
construct pton fuel session m dns_heap ip_heap = do
  usage ← open_cpus fuel session.stat
  p ← apply_answers pton (session.answer ∷ []) (new_process session.garbage m dns_heap ip_heap)
  done (p, usage)

module _ {s : Sqlite} {h : RteHash} {c : Counter} (env : Env) (services : Services)
    (pton : AddrParser) (stoull : Bytes → Option ℕ) (fuel : ℕ) where
  -- `initDPDK`, `MainLoop` and the destructor, which runs on an exception too
  unfoldable pub serve : Session → Process h c → Dpdk s h → Run (Left s h c)
  serve session p d = do
    (thrown, d1) ← init_dpdk services d
    elim thrown [
      | some e ↦ do
        d2 ← destroy services d1
        done (record { exit = exit_code 1; process = p; dpdk = d2 })
      | none ↦ do
        p1 ←
            main_loop env pton 0 1 2 0 session.start session.rounds session.stop_flag
              (with_devices d1 p)
        d2 ← destroy services (after_loop d1 p1.world)
        done (record { exit = exit_code 0; process = p1; dpdk = d2 })
    ]

  -- the body of the `try`
  unfoldable pub run_worker :
      Settings → Session → MetricsCollector c → Heap → Heap → Run (Left s h c)
  unfolding construct serve
  run_worker settings session m dns_heap ip_heap = do
    (p, usage) ← construct pton fuel session m dns_heap ip_heap
    p1 ←
        (if settings.test_request_policy
          then apply_answers pton (session.test_answer ∷ []) p
          else done p)
    elim (is_test settings) [
      | true ↦ do
        d ← destroy services (no_dpdk dns_heap ip_heap)
        done (record { exit = exit_code 0; process = p1; dpdk = d })
      | false ↦ serve session p1 (no_dpdk dns_heap ip_heap)
    ]

  -- `main`; before the worker is there, nothing is left but the exit code
  unfoldable pub main :
      Settings → Session → MetricsCollector c → Heap → Heap → Run (Exit × Option (Left s h c))
  unfolding run_worker
  main settings session m dns_heap ip_heap = elim settings.worker_id [
    | none ↦ done (exit_code 1, none)
    | some text ↦ elim (stoull text) [
      | none ↦ done (aborted, none)
      | some id ↦
          if is_set settings.gateway_address && is_set settings.gateway_port
          then (do
            left ← run_worker settings session m dns_heap ip_heap
            done (left.exit, some left))
          else done (exit_code 1, none)
    ]
  ]
