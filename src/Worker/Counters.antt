-- ===== src/Worker/Counters.antt =====
-- worker/src/worker.cpp: the local packet counters, `Worker::RecordPacketReceived` and its like and
-- `Worker::flushLocalCounters`; worker/src/metrics_collector.cpp: `IncrementPacketsReceived` and its
-- like. The local counters are atomic, so that a flush may be interleaved with records.
pub mod Kept
pub mod Pushed
use grpc_server.Base.{ℕ, zero, suc, ◌+◌, ◌^◌, ◌%◌, ◌<◌, ◌≡◌, Option, none, some, if◌then◌else◌, ltb}

-- a test `count > 0`
abbrev pub if_positive {ℓ} : {A : Type ℓ} → ℕ → A → A → A
if_positive zero a b = b
if_positive (suc n) a b = a

-- a counter of the Prometheus client
pub record Counter : Type 1 where
  pub State : Type 0
  pub increment : ℕ → State → State
  pub collect : State → ℕ

-- The counter adds what it is given.
pub record IsCounter (c : Counter) : Type 0 where
  pub collect-increment : (n : ℕ) (s : c.State) → c.collect (c.increment n s) ≡ c.collect s + n

-- the three local counters
pub record Totals : Type 0 where
  pub received : ℕ
  pub passed : ℕ
  pub dropped : ℕ

abbrev pub no_packets : Totals
no_packets = record { received = 0; passed = 0; dropped = 0 }

-- std::atomic<uint64_t>::operator++
abbrev pub count_one : ℕ → ℕ
count_one n = (n + 1) % 2 ^ 64

abbrev pub record_packet_received : Totals → Totals
record_packet_received t = record t { received = count_one t.received }

abbrev pub record_packet_passed : Totals → Totals
record_packet_passed t = record t { passed = count_one t.passed }

abbrev pub record_packet_dropped : Totals → Totals
record_packet_dropped t = record t { dropped = count_one t.dropped }

-- Where a flush stands, with what it has taken and not yet added.
pub data FlushPoint : Type 0 where
  at_rest : FlushPoint
  took_received : ℕ → FlushPoint
  took_passed : ℕ → ℕ → FlushPoint
  took_dropped : ℕ → ℕ → ℕ → FlushPoint
  added_received : ℕ → ℕ → FlushPoint
  added_passed : ℕ → FlushPoint

module _ (c : Counter) where
  -- the pointers to the registered counters
  pub record MetricsCollector : Type 0 where
    pub packets_received_counter : Option c.State
    pub packets_passed_counter : Option c.State
    pub packets_dropped_counter : Option c.State

  unfoldable pub increment_counter : ℕ → Option c.State → Option c.State
  increment_counter count none = none
  increment_counter count (some s) = some (c.increment count s)

  abbrev pub increment_packets_received : ℕ → MetricsCollector → MetricsCollector
  increment_packets_received count m = record m {
    packets_received_counter = increment_counter count m.packets_received_counter;
  }

  abbrev pub increment_packets_passed : ℕ → MetricsCollector → MetricsCollector
  increment_packets_passed count m = record m {
    packets_passed_counter = increment_counter count m.packets_passed_counter;
  }

  abbrev pub increment_packets_dropped : ℕ → MetricsCollector → MetricsCollector
  increment_packets_dropped count m = record m {
    packets_dropped_counter = increment_counter count m.packets_dropped_counter;
  }

  pub record Counters : Type 0 where
    pub local : Totals
    pub metrics_collector : Option MetricsCollector

  -- the three tests and increments of a flush
  unfoldable pub push_totals : Totals → MetricsCollector → MetricsCollector
  push_totals t m =
      let m1 = if_positive t.received (increment_packets_received t.received m) m in
      let m2 = if_positive t.passed (increment_packets_passed t.passed m1) m1 in
      if_positive t.dropped (increment_packets_dropped t.dropped m2) m2

  unfoldable pub flush_local_counters : Counters → Counters
  flush_local_counters w = elim w.metrics_collector [
    | none ↦ w
    | some m ↦ record { local = no_packets; metrics_collector = some (push_totals w.local m) }
  ]

  pub record Shared : Type 0 where
    pub local : Totals
    pub point : FlushPoint
    pub metrics : MetricsCollector

  -- The next atomic access of the flush: an exchange, or an increment under its test.
  unfoldable pub advance : FlushPoint → Totals → MetricsCollector → Shared
  advance at_rest t m = record {
    local = record t { received = 0 };
    point = took_received t.received;
    metrics = m;
  }
  advance (took_received r) t m = record {
    local = record t { passed = 0 };
    point = took_passed r t.passed;
    metrics = m;
  }
  advance (took_passed r p) t m = record {
    local = record t { dropped = 0 };
    point = took_dropped r p t.dropped;
    metrics = m;
  }
  advance (took_dropped r p d) t m = record {
    local = t;
    point = added_received p d;
    metrics = if_positive r (increment_packets_received r m) m;
  }
  advance (added_received p d) t m = record {
    local = t;
    point = added_passed d;
    metrics = if_positive p (increment_packets_passed p m) m;
  }
  advance (added_passed d) t m = record {
    local = t;
    point = at_rest;
    metrics = if_positive d (increment_packets_dropped d m) m;
  }

  abbrev pub flush_step : Shared → Shared
  flush_step s = advance s.point s.local s.metrics

  -- The states that records and steps of flushes lead to, with the number of records of each kind.
  pub data Reach (s : Shared) : Totals → Shared → Type 0 where
    start : Reach s no_packets s
    received :
        {n : Totals} {t : Shared}
        → Reach s n t
        → Reach s
            (record n { received = suc n.received })
            (record t { local = record_packet_received t.local })
    passed :
        {n : Totals} {t : Shared}
        → Reach s n t
        → Reach s
            (record n { passed = suc n.passed })
            (record t { local = record_packet_passed t.local })
    dropped :
        {n : Totals} {t : Shared}
        → Reach s n t
        → Reach s
            (record n { dropped = suc n.dropped })
            (record t { local = record_packet_dropped t.local })
    flushed : {n : Totals} {t : Shared} → Reach s n t → Reach s n (flush_step t)
