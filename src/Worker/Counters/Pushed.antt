-- ===== src/Worker/Counters/Pushed.antt =====
-- What a flush adds to the exported counters.
use grpc_server.Base.{ℕ, zero, suc, ◌+◌, ◌≡◌, arith}
use grpc_server.Worker.Counters.{
  Counter, IsCounter, Totals, MetricsCollector, increment_packets_received,
  increment_packets_passed, increment_packets_dropped, push_totals, if_positive,
}
use grpc_server.Worker.Counters.Kept.{exported, IsWired, increment-exported}

-- The three counters are registered, and `r`, `p` and `d` were added to them.
pub record IsPushed {c : Counter} (r p d : ℕ) (m m' : MetricsCollector c) : Type 0 where
  pub wired : IsWired c m'
  pub received : exported c m'.packets_received_counter ≡ exported c m.packets_received_counter + r
  pub passed : exported c m'.packets_passed_counter ≡ exported c m.packets_passed_counter + p
  pub dropped : exported c m'.packets_dropped_counter ≡ exported c m.packets_dropped_counter + d

module _ {c : Counter} (laws : IsCounter c) where
  push_received-IsPushed :
      (n : ℕ) (m : MetricsCollector c)
      → IsWired c m
      → IsPushed n 0 0 m (if_positive n (increment_packets_received c n m) m)
  push_received-IsPushed zero m w = record {
    wired = w;
    received = omega arith;
    passed = omega arith;
    dropped = omega arith;
  }
  push_received-IsPushed (suc n) m w =
      let (reg, e) = increment-exported c laws (suc n) m.packets_received_counter w.received in
      record {
        wired = record { received = reg; passed = w.passed; dropped = w.dropped };
        received = e;
        passed = omega arith;
        dropped = omega arith;
      }

  push_passed-IsPushed :
      (n : ℕ) (m : MetricsCollector c)
      → IsWired c m
      → IsPushed 0 n 0 m (if_positive n (increment_packets_passed c n m) m)
  push_passed-IsPushed zero m w = record {
    wired = w;
    received = omega arith;
    passed = omega arith;
    dropped = omega arith;
  }
  push_passed-IsPushed (suc n) m w =
      let (reg, e) = increment-exported c laws (suc n) m.packets_passed_counter w.passed in
      record {
        wired = record { received = w.received; passed = reg; dropped = w.dropped };
        received = omega arith;
        passed = e;
        dropped = omega arith;
      }

  push_dropped-IsPushed :
      (n : ℕ) (m : MetricsCollector c)
      → IsWired c m
      → IsPushed 0 0 n m (if_positive n (increment_packets_dropped c n m) m)
  push_dropped-IsPushed zero m w = record {
    wired = w;
    received = omega arith;
    passed = omega arith;
    dropped = omega arith;
  }
  push_dropped-IsPushed (suc n) m w =
      let (reg, e) = increment-exported c laws (suc n) m.packets_dropped_counter w.dropped in
      record {
        wired = record { received = w.received; passed = w.passed; dropped = reg };
        received = omega arith;
        passed = omega arith;
        dropped = e;
      }

  pub push_totals-IsPushed :
      (t : Totals) (m : MetricsCollector c)
      → IsWired c m
      → IsPushed t.received t.passed t.dropped m (push_totals c t m)
  unfolding push_totals
  push_totals-IsPushed t m w =
      let m1 = if_positive t.received (increment_packets_received c t.received m) m in
      let m2 = if_positive t.passed (increment_packets_passed c t.passed m1) m1 in
      let a = push_received-IsPushed t.received m w in
      let b = push_passed-IsPushed t.passed m1 a.wired in
      let d = push_dropped-IsPushed t.dropped m2 b.wired in
      record {
        wired = d.wired;
        received = omega (arith, a.received, b.received, d.received);
        passed = omega (arith, a.passed, b.passed, d.passed);
        dropped = omega (arith, a.dropped, b.dropped, d.dropped);
      }
