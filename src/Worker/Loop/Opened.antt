-- ===== src/Worker/Loop/Opened.antt =====
-- The two caches over the rounds of the loop.
use grpc_server.Base.{
  ℕ, ◌⊎◌, ◌≡◌, ◌∙◌, refl, Bool, true, false, List, [], ◌∷◌, length, Bool-cases, inl, inr, leb,
}
use grpc_server.Base.Run.{Gives, Gives-then, Gives-weaken}
use grpc_server.RteHash.{RteHash}
use grpc_server.Cache.{is_open}
use grpc_server.Packets.State.{Env, World}
use grpc_server.Packets.Handled.{Handles}
use grpc_server.Worker.Policy.{AddrParser}
use grpc_server.Worker.Counters.{Counter, count_one}
use grpc_server.Worker.Loop.Answered.{Leaves, Gives-apply_answers}
use grpc_server.Worker.Loop.Moved.{round_packets, Gives-move_packets}
use grpc_server.Worker.Loop.{
  Round, Process, WorkerState, free, shutting_down, check_timers, check_policy_time,
  check_metrics_time, flush_counters, seconds_since, apply_answers, move_packets, main_loop_round,
  main_loop_rounds, main_loop, timer_check_interval, metrics_flush_interval_sec,
}

-- No cache is opened or closed.
pub record SameCaches {h : RteHash} {c : Counter} (p p' : Process h c) : Type 0 where
  pub dns_open : is_open p'.world.dns_cache ≡ is_open p.world.dns_cache
  pub ip_open : is_open p'.world.ip_cache ≡ is_open p.world.ip_cache

WorkerState-cases : (s : WorkerState) → (s ≡ free) ⊎ (s ≡ shutting_down)
WorkerState-cases free = inl refl
WorkerState-cases shutting_down = inr refl

module _ {h : RteHash} {c : Counter} where
  SameCaches-both : {p p1 p' : Process h c} → SameCaches p p1 → SameCaches p1 p' → SameCaches p p'
  SameCaches-both a b = record {
    dns_open = b.dns_open ∙ a.dns_open;
    ip_open = b.ip_open ∙ a.ip_open;
  }

  check_timers-SameCaches : (p : Process h c) → SameCaches p (check_timers p)
  unfolding check_timers
  check_timers-SameCaches p =
      elim (Bool-cases (leb timer_check_interval (count_one p.timer_check_counter))) [
        | inl e ↦ rw e (record { dns_open = refl; ip_open = refl })
        | inr e ↦ rw e (record { dns_open = refl; ip_open = refl })
      ]

  check_policy_time-SameCaches :
      (r : Round) (p : Process h c) → SameCaches p (check_policy_time r.now r.rand p)
  unfolding check_policy_time
  check_policy_time-SameCaches r p =
      elim (Bool-cases (leb p.policy_interval (seconds_since r.now p.last_policy_time))) [
        | inl e ↦ rw e (record { dns_open = refl; ip_open = refl })
        | inr e ↦ rw e (record { dns_open = refl; ip_open = refl })
      ]

  check_metrics_time-SameCaches :
      (r : Round) (p : Process h c) → SameCaches p (check_metrics_time r.now p)
  unfolding check_metrics_time flush_counters
  check_metrics_time-SameCaches r p =
      elim (Bool-cases
        (leb metrics_flush_interval_sec (seconds_since r.now p.last_metrics_push_time))) [
          | inl e ↦ rw e (record { dns_open = refl; ip_open = refl })
          | inr e ↦ rw e (record { dns_open = refl; ip_open = refl })
        ]

  round-SameCaches :
      (k n : ℕ) (r : Round) {p p1 : Process h c} {w : World h}
      → Leaves p p1
      → Handles k n p1.world w
      → SameCaches p (
          check_metrics_time r.now
            (check_policy_time r.now r.rand (check_timers (record p1 { world = w }))))
  round-SameCaches k n r {p} {p1} {w} l hs =
      let p2 = record p1 { world = w } in
      let p3 = check_timers p2 in
      let moved : SameCaches p p2 = record {
        dns_open = hs.dns_open ∙ l.dns_open;
        ip_open = hs.ip_open ∙ l.ip_open;
      } in
      SameCaches-both moved (
        SameCaches-both (check_timers-SameCaches p2) (
          SameCaches-both (check_policy_time-SameCaches r p3)
            (check_metrics_time-SameCaches r (check_policy_time r.now r.rand p3))))

  module _ (env : Env) (pton : AddrParser) (port_in port_out port_exception queue_number : ℕ) where
    Gives-main_loop_round :
        (r : Round) (p : Process h c)
        → Gives
            (SameCaches p)
            (main_loop_round env pton port_in port_out port_exception queue_number r p)
    unfolding main_loop_round
    Gives-main_loop_round r p =
        Gives-then (Leaves p) (SameCaches p) (apply_answers pton r.answers p) _
          (Gives-apply_answers pton r.answers p)
          (λ p1 l.
            Gives-then (Handles (length r.pkts) (round_packets r) p1.world) (SameCaches p)
              (move_packets env pton port_in port_out port_exception queue_number r p1) _
              (Gives-move_packets env queue_number port_in port_out port_exception pton r p1)
              (λ w hs. round-SameCaches (length r.pkts) (round_packets r) r l hs))

    Gives-main_loop_rounds :
        (rounds : List Round) (p : Process h c)
        → Gives
            (SameCaches p)
            (main_loop_rounds env pton port_in port_out port_exception queue_number rounds p)
    unfolding main_loop_rounds
    Gives-main_loop_rounds [] p = record { dns_open = refl; ip_open = refl }
    Gives-main_loop_rounds (r ∷ rounds) p = elim (WorkerState-cases p.state) [
      | inl e ↦
          simp (e, main_loop_rounds)
            (Gives-then (SameCaches p) (SameCaches p)
              (main_loop_round env pton port_in port_out port_exception queue_number r p) _
              (Gives-main_loop_round r p)
              (λ p1 k.
                Gives-weaken (SameCaches p1) (SameCaches p)
                  (main_loop_rounds env pton port_in port_out port_exception queue_number rounds p1)
                  (Gives-main_loop_rounds rounds p1) (λ p' k'. SameCaches-both k k')))
      | inr e ↦ simp (e, main_loop_rounds) (record { dns_open = refl; ip_open = refl })
    ]

    -- The loop opens no cache and closes none.
    pub main_loop-SameCaches :
        (start : ℕ) (rounds : List Round) (stop_flag : Bool) (p : Process h c)
        → Gives (SameCaches p) (
            main_loop env pton port_in port_out port_exception queue_number start rounds stop_flag
              p)
    unfolding main_loop flush_counters
    main_loop-SameCaches start rounds true p =
        let p0 = record p { last_policy_time = start; timer_check_counter = 0 } in
        Gives-then (SameCaches p0) (SameCaches p)
          (main_loop_rounds env pton port_in port_out port_exception queue_number rounds p0) _
          (Gives-main_loop_rounds rounds p0)
          (λ p1 k. record { dns_open = k.dns_open; ip_open = k.ip_open })
    main_loop-SameCaches start rounds false p =
        let p0 = record p { last_policy_time = start; timer_check_counter = 0 } in
        Gives-then (SameCaches p0) (SameCaches p)
          (main_loop_rounds env pton port_in port_out port_exception queue_number rounds p0) _
          (Gives-main_loop_rounds rounds p0)
          (λ p1 k. record { dns_open = k.dns_open; ip_open = k.ip_open })
