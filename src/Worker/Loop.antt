-- ===== src/Worker/Loop.antt =====
-- worker/src/worker.cpp: `Worker::forward_to_out` and `Worker::MainLoop`. A round of the loop is given
-- by what its three receive calls fill in, by its clock and by the answers of earlier requests for a
-- policy that arrive before it. Such an answer is applied on a thread of its own; one that is applied
-- while a round is under way is not modelled.
pub mod Answered
pub mod Moved
pub mod Opened
pub mod Paced
pub mod Recorded
pub mod Reported
use grpc_server.Base.{
  ℕ, ◌+◌, ◌-◌, ◌*◌, ◌/◌, ◌%◌, Bool, true, false, not, Option, none, some, List, [], ◌∷◌, ℤ, pos,
  ltb_ℤ, leb, if◌then◌else◌,
}
use grpc_server.Base.Run.{Run, done, ◌>>=◌}
use grpc_server.RteHash.{RteHash}
use grpc_server.Filter.{BasePolicy}
use grpc_server.Parser.{Mbuf}
use grpc_server.Packets.State.{Env, World}
use grpc_server.Packets.Forward.{forward_packet_with_rewrite}
use grpc_server.Packets.{pakage_processing}
use grpc_server.Worker.Policy.{AddrParser, GetPolicyResponse, Configured, request_policy}
use grpc_server.Worker.Counters.{
  Counter, count_one, MetricsCollector, Counters, flush_local_counters,
}

abbrev pub min_policy_time : ℕ
min_policy_time = 30

abbrev pub max_policy_time : ℕ
max_policy_time = 45

abbrev pub metrics_flush_interval_sec : ℕ
metrics_flush_interval_sec = 5

abbrev pub timer_check_interval : ℕ
timer_check_interval = 10000

-- seven days
abbrev pub dns_cache_default_ttl : ℤ
dns_cache_default_ttl = pos (7 * 24 * 60 * 60)

abbrev pub ip_cache_default_ttl : ℤ
ip_cache_default_ttl = pos (7 * 24 * 60 * 60)

pub data WorkerState : Type 0 where
  free shutting_down : WorkerState

-- what the loop starts besides the work on packets
pub data LoopCall : Type 0 where
  -- rte_timer_manage
  timers_managed : LoopCall
  -- a thread for a request, at a time in nanoseconds
  policy_requested : ℕ → LoopCall

pub record Round : Type 0 where
  pub answers : List (Option GetPolicyResponse)
  -- what the receive calls on the exception port, on port_in and on port_out fill in
  pub tap_pkts : List Mbuf
  pub pkts : List Mbuf
  pub out_pkts : List Mbuf
  -- steady_clock::now(), in nanoseconds, and rand()
  pub now : ℕ
  pub rand : ℕ

pub record Process (h : RteHash) (c : Counter) : Type 0 where
  pub world : World h
  pub current_config_version : ℕ
  pub enable : Bool
  pub current_policy : BasePolicy
  pub state : WorkerState
  pub last_policy_time : ℕ
  pub policy_interval : ℕ
  pub last_metrics_push_time : ℕ
  pub timer_check_counter : ℕ
  pub metrics_collector : Option (MetricsCollector c)
  -- newest first
  pub calls : List LoopCall

-- (now - last) / 1s. Where `now` is before `last`, C++ has a number that is not positive.
abbrev pub seconds_since : ℕ → ℕ → ℕ
seconds_since now last = (now - last) / 1000000000

-- The copy of the policy that a round works with: a time to live that is not positive is replaced.
unfoldable pub local_policy : BasePolicy → BasePolicy
local_policy current_policy = record current_policy {
  ttl_domain =
      if ltb_ℤ (pos 0) current_policy.ttl_domain
      then current_policy.ttl_domain
      else dns_cache_default_ttl;
  ttl_ip =
      if ltb_ℤ (pos 0) current_policy.ttl_ip then current_policy.ttl_ip else ip_cache_default_ttl;
}

-- `Worker::forward_to_out`, on what `rte_eth_rx_burst` has filled in
unfoldable pub forward_to_out :
    {h : RteHash} → Env → ℕ → ℕ → ℕ → List Mbuf → World h → Run (World h)
forward_to_out env incoming_port outgoing_port queue_number [] w = done w
forward_to_out env incoming_port outgoing_port queue_number (pkt ∷ tap_pkts) w = do
  w' ← forward_packet_with_rewrite env pkt incoming_port outgoing_port queue_number w
  forward_to_out env incoming_port outgoing_port queue_number tap_pkts w'

module _ {h : RteHash} {c : Counter} where
  -- `flushLocalCounters` on the counters of the packet loop
  unfoldable pub flush_counters : Process h c → Process h c
  flush_counters p =
      let w = p.world in
      let flushed = flush_local_counters c (record {
        local = record { received = w.received; passed = w.passed; dropped = w.dropped };
        metrics_collector = p.metrics_collector;
      }) in
      record p {
        world = record w {
          received = flushed.local.received;
          passed = flushed.local.passed;
          dropped = flushed.local.dropped;
        };
        metrics_collector = flushed.metrics_collector;
      }

  unfoldable pub check_timers : Process h c → Process h c
  check_timers p =
      let counter = count_one p.timer_check_counter in
      if leb timer_check_interval counter
      then record p { timer_check_counter = 0; calls = timers_managed ∷ p.calls }
      else record p { timer_check_counter = counter }

  unfoldable pub check_policy_time : ℕ → ℕ → Process h c → Process h c
  check_policy_time now rand p =
      if leb p.policy_interval (seconds_since now p.last_policy_time)
      then record p {
        calls = policy_requested now ∷ p.calls;
        last_policy_time = now;
        policy_interval = min_policy_time + rand % (max_policy_time - min_policy_time + 1);
      }
      else p

  unfoldable pub check_metrics_time : ℕ → Process h c → Process h c
  check_metrics_time now p =
      if leb metrics_flush_interval_sec (seconds_since now p.last_metrics_push_time)
      then record (flush_counters p) { last_metrics_push_time = now }
      else p

  -- what a request for a policy works on, and what it leaves
  abbrev pub as_configured : Process h c → Configured h
  as_configured p = record {
    current_config_version = p.current_config_version;
    enable = p.enable;
    current_policy = p.current_policy;
    ip_cache = p.world.ip_cache;
    dns_cache = p.world.dns_cache;
  }

  abbrev pub with_configured : Process h c → Configured h → Process h c
  with_configured p configured = record p {
    current_config_version = configured.current_config_version;
    enable = configured.enable;
    current_policy = configured.current_policy;
    world = record p.world { ip_cache = configured.ip_cache; dns_cache = configured.dns_cache };
  }

  -- the answers that have arrived
  unfoldable pub apply_answers :
      AddrParser → List (Option GetPolicyResponse) → Process h c → Run (Process h c)
  apply_answers pton [] p = done p
  apply_answers pton (answer ∷ answers) p = do
    configured ← request_policy pton answer (as_configured p)
    apply_answers pton answers (with_configured p configured)

  module _ (env : Env) (pton : AddrParser) (port_in port_out port_exception queue_number : ℕ) where
    -- the three calls that work on packets
    unfoldable pub move_packets : Round → Process h c → Run (World h)
    move_packets r p = do
      w1 ← forward_to_out env port_exception port_in queue_number r.tap_pkts p.world
      w2 ←
          pakage_processing env (local_policy p.current_policy) port_in port_out port_exception
            queue_number (not p.enable) r.pkts w1
      forward_to_out env port_out port_in queue_number r.out_pkts w2

    -- one round
    unfoldable pub main_loop_round : Round → Process h c → Run (Process h c)
    main_loop_round r p = do
      p1 ← apply_answers pton r.answers p
      w ← move_packets r p1
      done (
          check_metrics_time r.now
            (check_policy_time r.now r.rand (check_timers (record p1 { world = w }))))

    -- The rounds until the flag is set.
    unfoldable pub main_loop_rounds : List Round → Process h c → Run (Process h c)
    main_loop_rounds [] p = done p
    main_loop_rounds (r ∷ rounds) p = elim p.state [
      | shutting_down ↦ done p
      | free ↦ do p' ← main_loop_round r p; main_loop_rounds rounds p'
    ]

    -- `start` is the clock before the first round; the flag is set after the last one, or `stop_flag`
    -- is false and the state ended the loop.
    unfoldable pub main_loop : ℕ → List Round → Bool → Process h c → Run (Process h c)
    main_loop start rounds stop_flag p = do
      p1 ← main_loop_rounds rounds (record p { last_policy_time = start; timer_check_counter = 0 })
      let p2 = flush_counters p1
      done (if stop_flag then record p2 { state = shutting_down } else p2)
