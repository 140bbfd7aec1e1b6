-- ===== src/Dataplane/Cycles.antt =====
-- The packets and the timers over the rounds of the loop.
use grpc_server.Base.{
  ℕ, suc, ◌+◌, ◌*◌, ◌%◌, ◌^◌, ◌<◌, ◌≡◌, ◌∙◌, refl, false, List, [], ◌∷◌, length, leb, arith,
  Bool-cases, inl, inr,
}
use grpc_server.Base.Run.{Gives, Gives-then}
use grpc_server.RteHash.{RteHash}
use grpc_server.Cache.{is_open}
use grpc_server.Filter.{BasePolicy}
use grpc_server.Parser.{Mbuf}
use grpc_server.Packets.State.{Env, World}
use grpc_server.Packets.Accounts.{count_sent, count_released}
use grpc_server.Packets.Handled.{Handles}
use grpc_server.Packets.Burst.{Gives-pakage_processing}
use grpc_server.Packets.{pakage_processing}
use grpc_server.Dataplane.{
  Cycle, Plane, timer_check_interval, send_or_free, forward_to_out, check_timers, run_cycle,
  run_cycles,
}

-- `n` buffers are sent or released from `w` to `w'`, and no cache is opened or closed.
record Moves {h : RteHash} (n : ℕ) (w w' : World h) : Type 0 where
  disposed :
      count_sent w'.events + count_released w'.events
      ≡ n + (count_sent w.events + count_released w.events)
  dns_open : is_open w'.dns_cache ≡ is_open w.dns_cache
  ip_open : is_open w'.ip_cache ≡ is_open w.ip_cache

-- the packets of the three receive calls
abbrev pub cycle_packets : Cycle → ℕ
cycle_packets r = length r.tap_pkts + (length r.pkts + length r.out_pkts)

abbrev pub packets_of : List Cycle → ℕ
packets_of [] = 0
packets_of (r ∷ cycles) = cycle_packets r + packets_of cycles

-- The loop after `m` rounds, behind `w`: `n` buffers were sent or released, and the timers were managed
-- once in 10000 rounds.
pub record IsRun {h : RteHash} (n m : ℕ) (w : World h) (l : Plane h) : Type 0 where
  pub disposed :
      count_sent l.world.events + count_released l.world.events
      ≡ n + (count_sent w.events + count_released w.events)
  pub dns_open : is_open l.world.dns_cache ≡ is_open w.dns_cache
  pub ip_open : is_open l.world.ip_cache ≡ is_open w.ip_cache
  pub counter : l.timer_check_counter < timer_check_interval
  pub managed : l.managed * timer_check_interval + l.timer_check_counter ≡ m

add_zero : (n : ℕ) → n + 0 ≡ n
add_zero n = omega arith

add_add : (a b c : ℕ) → (a + b) + c ≡ a + (b + c)
add_add a b c = omega arith

suc_add : (a b : ℕ) → suc a + b ≡ a + suc b
suc_add a b = omega arith

module _ {h : RteHash} (env : Env) where
  send_or_free-Moves :
      (pkt : Mbuf) (port_id queue_number : ℕ) (w : World h)
      → Moves 1 w (send_or_free env pkt port_id queue_number w)
  unfolding send_or_free count_sent count_released
  send_or_free-Moves pkt port_id queue_number w = ground arith

  forward_to_out-Moves :
      (outgoing_port queue_number : ℕ) (pkts : List Mbuf) (w : World h)
      → Moves (length pkts) w (forward_to_out env outgoing_port queue_number pkts w)
  unfolding forward_to_out
  forward_to_out-Moves port queue [] w = record {
    disposed = omega arith;
    dns_open = refl;
    ip_open = refl;
  }
  forward_to_out-Moves port queue (pkt ∷ pkts) w =
      let w1 = send_or_free env pkt (w.ports port).port_id queue w in
      let a = send_or_free-Moves pkt (w.ports port).port_id queue w in
      let b = forward_to_out-Moves port queue pkts w1 in
      record {
        disposed = omega (arith, a.disposed, b.disposed);
        dns_open = b.dns_open ∙ a.dns_open;
        ip_open = b.ip_open ∙ a.ip_open;
      }

  -- the three calls of a round
  cycle-Moves :
      (r : Cycle) (w : World h) {w2 : World h}
      → Handles (length r.pkts) (length r.pkts) (forward_to_out env 0 0 r.tap_pkts w) w2
      → Moves (cycle_packets r) w (forward_to_out env 0 0 r.out_pkts w2)
  cycle-Moves r w {w2} hs =
      let a = forward_to_out-Moves 0 0 r.tap_pkts w in
      let b = forward_to_out-Moves 0 0 r.out_pkts w2 in
      record {
        disposed = omega (arith, a.disposed, hs.disposed, b.disposed);
        dns_open = b.dns_open ∙ hs.dns_open ∙ a.dns_open;
        ip_open = b.ip_open ∙ hs.ip_open ∙ a.ip_open;
      }

  check_timers-IsRun :
      (n k m : ℕ) (w w' : World h) (l : Plane h)
      → IsRun n m w l
      → Moves k l.world w'
      → IsRun (n + k) (suc m) w (check_timers env (record l { world = w' }))
  unfolding check_timers
  check_timers-IsRun n k m w w' l i mv =
      let e : (l.timer_check_counter + 1) % 2 ^ 64 ≡ l.timer_check_counter + 1 =
        ground (arith, i.counter) in
      elim (Bool-cases (leb timer_check_interval (l.timer_check_counter + 1))) [
        | inl full ↦
            rw (e, full)
              (record {
                disposed = omega (arith, mv.disposed, i.disposed);
                dns_open = mv.dns_open ∙ i.dns_open;
                ip_open = mv.ip_open ∙ i.ip_open;
                counter = omega arith;
                managed = ground (arith, i.managed, i.counter);
              })
        | inr early ↦
            rw (e, early)
              (record {
                disposed = omega (arith, mv.disposed, i.disposed);
                dns_open = mv.dns_open ∙ i.dns_open;
                ip_open = mv.ip_open ∙ i.ip_open;
                counter = ground arith;
                managed = omega (arith, i.managed);
              })
      ]

  Gives-run_cycle :
      (policy : BasePolicy) (n m : ℕ) (w : World h) (r : Cycle) (l : Plane h)
      → IsRun n m w l
      → Gives (IsRun (n + cycle_packets r) (suc m) w) (run_cycle env policy r l)
  unfolding run_cycle
  Gives-run_cycle policy n m w r l i =
      let w1 = forward_to_out env 0 0 r.tap_pkts l.world in
      Gives-then (Handles (length r.pkts) (length r.pkts) w1)
        (IsRun (n + cycle_packets r) (suc m) w)
        (pakage_processing env policy 0 1 2 0 false r.pkts w1) _
        (Gives-pakage_processing env policy 0 1 2 0 false r.pkts w1)
        (λ w2 hs. check_timers-IsRun n (cycle_packets r) m w _ l i (cycle-Moves r l.world hs))

  -- The rounds move each packet once.
  pub Gives-run_cycles :
      (policy : BasePolicy) (cycles : List Cycle) (n m : ℕ) (w : World h) (l : Plane h)
      → IsRun n m w l
      → Gives (IsRun (n + packets_of cycles) (m + length cycles) w) (run_cycles env policy cycles l)
  unfolding run_cycles
  Gives-run_cycles policy [] n m w l i = rw (add_zero n, add_zero m) i
  Gives-run_cycles policy (r ∷ cycles) n m w l i =
      rw (← add_add n (cycle_packets r) (packets_of cycles), ← suc_add m (length cycles))
        (Gives-then (IsRun (n + cycle_packets r) (suc m) w)
          (IsRun (n + cycle_packets r + packets_of cycles) (suc m + length cycles) w)
          (run_cycle env policy r l) _ (Gives-run_cycle policy n m w r l i)
          (λ l' i'. Gives-run_cycles policy cycles (n + cycle_packets r) (suc m) w l' i'))
