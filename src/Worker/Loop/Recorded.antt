-- ===== src/Worker/Loop/Recorded.antt =====
-- The records of packets, in the local counters and exported, over the single steps of a round.
use grpc_server.Base.{
  ℕ, ◌+◌, ◌≤◌, ◌≡◌, ◌∙◌, refl, Option, none, some, leb, arith, Bool-cases, Option-cases, inl, inr,
}
use grpc_server.RteHash.{RteHash}
use grpc_server.Packets.State.{World}
use grpc_server.Packets.Accounts.{count_sent, count_refused, count_released}
use grpc_server.Packets.Handled.{Handles}
use grpc_server.Worker.Counters.{
  Counter, IsCounter, count_one, Totals, no_packets, MetricsCollector, flush_local_counters,
}
use grpc_server.Worker.Counters.Kept.{IsWired, exported_totals}
use grpc_server.Worker.Counters.Pushed.{push_totals-IsPushed}
use grpc_server.Worker.Loop.Answered.{Leaves}
use grpc_server.Worker.Loop.{
  Process, check_timers, check_policy_time, check_metrics_time, flush_counters, seconds_since,
  timer_check_interval, metrics_flush_interval_sec,
}

module _ {c : Counter} where
  abbrev pub exported_all : Option (MetricsCollector c) → Totals
  exported_all none = no_packets
  exported_all (some m) = exported_totals c m

  abbrev pub IsCollecting : Option (MetricsCollector c) → Type 0
  IsCollecting none = ⊥
  IsCollecting (some m) = IsWired c m

-- `counted` packets are recorded as received and `n` buffers were sent or released; the records of
-- each kind are exported or in a local counter.
pub record Reports {h : RteHash} {c : Counter} (counted n : ℕ) (p : Process h c) : Type 0 where
  pub collecting : IsCollecting p.metrics_collector
  pub received : (exported_all p.metrics_collector).received + p.world.received ≡ counted
  pub disposed : count_sent p.world.events + count_released p.world.events ≡ n
  pub passed :
      (exported_all p.metrics_collector).passed + p.world.passed
      ≡ count_sent p.world.events + count_refused p.world.events
  pub dropped_ge :
      count_refused p.world.events ≤ (exported_all p.metrics_collector).dropped + p.world.dropped
  pub dropped_le :
      (exported_all p.metrics_collector).dropped + p.world.dropped ≤ count_released p.world.events

module _ {h : RteHash} {c : Counter} where
  pub Reports-Leaves :
      (counted n : ℕ) {p p' : Process h c}
      → Leaves p p'
      → Reports counted n p
      → Reports counted n p'
  Reports-Leaves counted n l i = record {
    collecting = rw l.metrics_collector i.collecting;
    received = rw (l.metrics_collector, l.received) i.received;
    disposed = rw l.events i.disposed;
    passed = rw (l.metrics_collector, l.passed, l.events) i.passed;
    dropped_ge = rw (l.metrics_collector, l.dropped, l.events) i.dropped_ge;
    dropped_le = rw (l.metrics_collector, l.dropped, l.events) i.dropped_le;
  }

  pub Reports-Handles :
      (counted n k m : ℕ) (p : Process h c) (w : World h)
      → Handles k m p.world w
      → Reports counted n p
      → Reports (counted + k) (n + m) (record p { world = w })
  Reports-Handles counted n k m p w hs i = record {
    collecting = i.collecting;
    received = omega (arith, hs.received, i.received);
    disposed = omega (arith, hs.disposed, i.disposed);
    passed = omega (arith, hs.passed, i.passed);
    dropped_ge = omega (arith, hs.dropped_ge, i.dropped_ge);
    dropped_le = omega (arith, hs.dropped_le, i.dropped_le);
  }

  -- Nothing is left in the local counters.
  pub record IsFlushed (p : Process h c) : Type 0 where
    pub received : p.world.received ≡ 0
    pub passed : p.world.passed ≡ 0
    pub dropped : p.world.dropped ≡ 0

  pub flush_counters-Reports :
      IsCounter c
      → (counted n : ℕ) (p : Process h c) → Reports counted n p
      → Reports counted n (flush_counters p) × IsFlushed (flush_counters p)
  unfolding flush_counters flush_local_counters
  flush_counters-Reports laws counted n p i = elim (Option-cases p.metrics_collector) [
    | inl e ↦ absurd (rw e at i.collecting)
    | inr (m, e) ↦
        let t : Totals = record {
          received = p.world.received;
          passed = p.world.passed;
          dropped = p.world.dropped;
        } in
        let pushed = push_totals-IsPushed laws t m (rw e at i.collecting) in
        rw (e, flush_local_counters)
          (
            record {
              collecting = pushed.wired;
              received = omega (arith, pushed.received, rw e at i.received);
              disposed = i.disposed;
              passed = omega (arith, pushed.passed, rw e at i.passed);
              dropped_ge = omega (arith, pushed.dropped, rw e at i.dropped_ge);
              dropped_le = omega (arith, pushed.dropped, rw e at i.dropped_le);
            },
            record { received = refl; passed = refl; dropped = refl },
          )
  ]

  pub Reports-same :
      (counted n : ℕ) {p p' : Process h c}
      → p'.world ≡ p.world
      → p'.metrics_collector ≡ p.metrics_collector
      → Reports counted n p
      → Reports counted n p'
  Reports-same counted n w m i = record {
    collecting = rw m i.collecting;
    received = rw (m, w) i.received;
    disposed = rw w i.disposed;
    passed = rw (m, w) i.passed;
    dropped_ge = rw (m, w) i.dropped_ge;
    dropped_le = rw (m, w) i.dropped_le;
  }

  check_timers-same :
      (p : Process h c)
      → ((check_timers p).world ≡ p.world)
        × ((check_timers p).metrics_collector ≡ p.metrics_collector)
  unfolding check_timers
  check_timers-same p =
      elim (Bool-cases (leb timer_check_interval (count_one p.timer_check_counter))) [
        | inl e ↦ rw e (refl, refl)
        | inr e ↦ rw e (refl, refl)
      ]

  check_policy_time-same :
      (now rand : ℕ) (p : Process h c)
      → ((check_policy_time now rand p).world ≡ p.world)
        × ((check_policy_time now rand p).metrics_collector ≡ p.metrics_collector)
  unfolding check_policy_time
  check_policy_time-same now rand p =
      elim (Bool-cases (leb p.policy_interval (seconds_since now p.last_policy_time))) [
        | inl e ↦ rw e (refl, refl)
        | inr e ↦ rw e (refl, refl)
      ]

  module _ (laws : IsCounter c) (counted n : ℕ) where
    check_metrics_time-Reports :
        (now : ℕ) (p : Process h c)
        → Reports counted n p
        → Reports counted n (check_metrics_time now p)
    unfolding check_metrics_time
    check_metrics_time-Reports now p i =
        elim (Bool-cases
          (leb metrics_flush_interval_sec (seconds_since now p.last_metrics_push_time))) [
            | inl e ↦
                rw e
                  (Reports-same counted n refl refl (flush_counters-Reports laws counted n p i).0)
            | inr e ↦ rw e i
          ]

    pub checks-Reports :
        (now rand : ℕ) (p : Process h c)
        → Reports counted n p
        → Reports counted n (check_metrics_time now (check_policy_time now rand (check_timers p)))
    checks-Reports now rand p i =
        let (w1, m1) = check_timers-same p in
        let (w2, m2) = check_policy_time-same now rand (check_timers p) in
        check_metrics_time-Reports now (check_policy_time now rand (check_timers p))
          (Reports-same counted n (w2 ∙ w1) (m2 ∙ m1) i)
