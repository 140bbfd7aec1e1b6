-- ===== src/Worker/Counters/Kept.antt =====
-- No record is lost between the local counters and the exported ones.
use grpc_server.Base.{
  ℕ, zero, suc, ◌+◌, ◌*◌, ◌^◌, ◌%◌, ◌<◌, ◌≡◌, refl, Option, none, some, ltb, arith, Bool-cases, inl,
  inr,
}
use grpc_server.Worker.Counters.{
  Counter, IsCounter, Totals, no_packets, count_one, MetricsCollector, increment_counter,
  push_totals, flush_local_counters, FlushPoint, at_rest, took_received, took_passed, took_dropped,
  added_received, added_passed, Shared, advance, flush_step, Reach, start, received, passed,
  dropped, flushed,
}

-- `e` records of one kind are in the local counter, on their way or exported, or were lost to wraps
-- of the local counter, which stays below 2 ^ 64.
abbrev pub Adds : ℕ → ℕ → ℕ → ℕ → Type 0
Adds local on_way exported e =
    (local < 2 ^ 64) × (k : ℕ) × (local + on_way + exported + k * 2 ^ 64 ≡ e)

Adds-count : (l f m e : ℕ) → Adds l f m e → Adds (count_one l) f m (suc e)
Adds-count l f m e (low, k, total) = elim (Bool-cases (ltb (l + 1) (2 ^ 64))) [
  | inl below ↦
      let s : (l + 1) % 2 ^ 64 ≡ l + 1 = ground arith in (ground arith, k, rw s (omega arith))
  | inr wraps ↦
      let s : (l + 1) % 2 ^ 64 ≡ 0 = ground arith in (ground arith, suc k, rw s (ground arith))
]

Adds-take : (l m e : ℕ) → Adds l 0 m e → Adds 0 l m e
Adds-take l m e (low, k, total) = (omega arith, k, omega arith)

Adds-add : (l f m m' e : ℕ) → m' ≡ m + f → Adds l f m e → Adds l 0 m' e
Adds-add l f m m' e added (low, k, total) = (low, k, omega arith)

abbrev received_on_way : FlushPoint → ℕ
received_on_way (took_received r) = r
received_on_way (took_passed r p) = r
received_on_way (took_dropped r p d) = r
received_on_way _ = 0

abbrev passed_on_way : FlushPoint → ℕ
passed_on_way (took_passed r p) = p
passed_on_way (took_dropped r p d) = p
passed_on_way (added_received p d) = p
passed_on_way _ = 0

abbrev dropped_on_way : FlushPoint → ℕ
dropped_on_way (took_dropped r p d) = d
dropped_on_way (added_received p d) = d
dropped_on_way (added_passed d) = d
dropped_on_way _ = 0

module _ (c : Counter) where
  abbrev pub IsRegistered : Option c.State → Type 0
  IsRegistered none = ⊥
  IsRegistered (some s) = Unit

  abbrev pub exported : Option c.State → ℕ
  exported none = 0
  exported (some s) = c.collect s

  -- The three counters are registered, as the constructor of the collector leaves them.
  pub record IsWired (m : MetricsCollector c) : Type 0 where
    pub received : IsRegistered m.packets_received_counter
    pub passed : IsRegistered m.packets_passed_counter
    pub dropped : IsRegistered m.packets_dropped_counter

  abbrev pub exported_totals : MetricsCollector c → Totals
  exported_totals m = record {
    received = exported m.packets_received_counter;
    passed = exported m.packets_passed_counter;
    dropped = exported m.packets_dropped_counter;
  }

  -- The records of each kind add up.
  pub record Conserved (n : Totals) (s : Shared c) : Type 0 where
    pub wired : IsWired s.metrics
    pub received :
        Adds s.local.received
          (received_on_way s.point)
          (exported s.metrics.packets_received_counter)
          n.received
    pub passed :
        Adds s.local.passed
          (passed_on_way s.point)
          (exported s.metrics.packets_passed_counter)
          n.passed
    pub dropped :
        Adds s.local.dropped
          (dropped_on_way s.point)
          (exported s.metrics.packets_dropped_counter)
          n.dropped

  module _ (laws : IsCounter c) where
    pub increment-exported :
        (count : ℕ) (o : Option c.State)
        → IsRegistered o
        → IsRegistered (increment_counter c count o)
          × (exported (increment_counter c count o) ≡ exported o + count)
    unfolding increment_counter
    increment-exported count none h = elim h [ ]
    increment-exported count (some s) h = (tt, laws.collect-increment count s)

    advance-Conserved :
        (n : Totals) (p : FlushPoint) (t : Totals) (m : MetricsCollector c)
        → Conserved n (record { local = t; point = p; metrics = m })
        → Conserved n (advance c p t m)
    unfolding advance
    advance-Conserved n at_rest t m i = record {
      wired = i.wired;
      received = Adds-take _ _ _ i.received;
      passed = i.passed;
      dropped = i.dropped;
    }
    advance-Conserved n (took_received r) t m i = record {
      wired = i.wired;
      received = i.received;
      passed = Adds-take _ _ _ i.passed;
      dropped = i.dropped;
    }
    advance-Conserved n (took_passed r p) t m i = record {
      wired = i.wired;
      received = i.received;
      passed = i.passed;
      dropped = Adds-take _ _ _ i.dropped;
    }
    advance-Conserved n (took_dropped zero p d) t m i = record {
      wired = i.wired;
      received = i.received;
      passed = i.passed;
      dropped = i.dropped;
    }
    advance-Conserved n (took_dropped (suc r) p d) t m i =
        let (reg, e) = increment-exported (suc r) m.packets_received_counter i.wired.received in
        record {
          wired = record { received = reg; passed = i.wired.passed; dropped = i.wired.dropped };
          received = Adds-add _ _ _ _ _ e i.received;
          passed = i.passed;
          dropped = i.dropped;
        }
    advance-Conserved n (added_received zero d) t m i = record {
      wired = i.wired;
      received = i.received;
      passed = i.passed;
      dropped = i.dropped;
    }
    advance-Conserved n (added_received (suc p) d) t m i =
        let (reg, e) = increment-exported (suc p) m.packets_passed_counter i.wired.passed in
        record {
          wired = record { received = i.wired.received; passed = reg; dropped = i.wired.dropped };
          received = i.received;
          passed = Adds-add _ _ _ _ _ e i.passed;
          dropped = i.dropped;
        }
    advance-Conserved n (added_passed zero) t m i = record {
      wired = i.wired;
      received = i.received;
      passed = i.passed;
      dropped = i.dropped;
    }
    advance-Conserved n (added_passed (suc d)) t m i =
        let (reg, e) = increment-exported (suc d) m.packets_dropped_counter i.wired.dropped in
        record {
          wired = record { received = i.wired.received; passed = i.wired.passed; dropped = reg };
          received = i.received;
          passed = i.passed;
          dropped = Adds-add _ _ _ _ _ e i.dropped;
        }

    -- From any state whose counts add up to nothing, every order of records and of steps of flushes
    -- keeps the counts: of the records of each kind, each is in the local counter, taken by the
    -- flush or exported, except 2 ^ 64 for each time that the local counter wrapped.
    Reach-Conserved :
        {s t : Shared c} {n : Totals} → Conserved no_packets s → Reach c s n t → Conserved n t
    Reach-Conserved i start = i
    Reach-Conserved i (received r) =
        let j = Reach-Conserved i r in
        record {
          wired = j.wired;
          received = Adds-count _ _ _ _ j.received;
          passed = j.passed;
          dropped = j.dropped;
        }
    Reach-Conserved i (passed r) =
        let j = Reach-Conserved i r in
        record {
          wired = j.wired;
          received = j.received;
          passed = Adds-count _ _ _ _ j.passed;
          dropped = j.dropped;
        }
    Reach-Conserved i (dropped r) =
        let j = Reach-Conserved i r in
        record {
          wired = j.wired;
          received = j.received;
          passed = j.passed;
          dropped = Adds-count _ _ _ _ j.dropped;
        }
    Reach-Conserved i (flushed {n} {t} r) =
        advance-Conserved n t.point t.local t.metrics (Reach-Conserved i r)

    abbrev flushed6 : Shared c → Shared c
    flushed6 s =
        flush_step c (flush_step c (flush_step c (flush_step c (flush_step c (flush_step c s)))))

    -- six steps with no record in between are a flush
    flushed6-at_rest :
        (t : Totals) (m : MetricsCollector c)
        → flushed6 (record { local = t; point = at_rest; metrics = m })
          ≡ record { local = no_packets; point = at_rest; metrics = push_totals c t m }
    unfolding advance push_totals
    flushed6-at_rest t m = refl

    Adds-all : (m e : ℕ) → Adds 0 0 m e → e < 2 ^ 64 → m ≡ e
    Adds-all m e (low, k, total) few = omega arith

    -- If the records of each kind are fewer than 2 ^ 64 and no flush is under way, then a flush that no
    -- record comes in between of leaves the local counters at 0, and each exported counter at the number
    -- of records of its kind, whatever the order of the records and of earlier flushes.
    pub flush_local_counters_exports :
        (s : Shared c) (t : Totals) (m : MetricsCollector c) (n : Totals)
        → Conserved no_packets s
        → Reach c s n (record { local = t; point = at_rest; metrics = m })
        → n.received < 2 ^ 64
        → n.passed < 2 ^ 64
        → n.dropped < 2 ^ 64
        → (m' : MetricsCollector c) × (flush_local_counters c
              (record { local = t; metrics_collector = some m })
            ≡ record { local = no_packets; metrics_collector = some m' })
          × (exported_totals m' ≡ n)
    unfolding flush_local_counters
    flush_local_counters_exports s t m n i r few_r few_p few_d =
        let j : Conserved n
            (record { local = no_packets; point = at_rest; metrics = push_totals c t m }) =
          rw (← flushed6-at_rest t m)
            (Reach-Conserved i (flushed (flushed (flushed (flushed (flushed (flushed r))))))) in
        (
          push_totals c t m,
          refl,
          rw
              (
                Adds-all _ n.received j.received few_r,
                Adds-all _ n.passed j.passed few_p,
                Adds-all _ n.dropped j.dropped few_d,
              )
              refl,
        )
