-- ===== src/Worker/Loop/Paced.antt =====
-- When the loop asks for a policy and when it manages the timers.
use grpc_server.Base.{
  ℕ, suc, ◌+◌, ◌*◌, ◌%◌, ◌^◌, ◌≤◌, ◌<◌, ◌≡◌, ◌∙◌, refl, Bool, true, false, List, [], ◌∷◌, length,
  leb, arith, Bool-cases, inl, inr, if◌then◌else◌,
}
use grpc_server.Base.Run.{Gives, Gives-then, Gives-weaken}
use grpc_server.RteHash.{RteHash}
use grpc_server.Packets.State.{Env, World}
use grpc_server.Worker.Policy.{AddrParser}
use grpc_server.Worker.Counters.{Counter, count_one}
use grpc_server.Worker.Loop.Answered.{Leaves, Gives-apply_answers}
use grpc_server.Worker.Loop.Moved.{Gives-move_packets}
use grpc_server.Worker.Loop.{
  LoopCall, timers_managed, policy_requested, Round, Process, check_timers, check_policy_time,
  check_metrics_time, flush_counters, seconds_since, apply_answers, move_packets, main_loop_round,
  main_loop_rounds, main_loop, free, shutting_down, min_policy_time, max_policy_time,
  timer_check_interval, metrics_flush_interval_sec,
}

-- the requests of a log, newest first: each at least 30 seconds after the one before it or after
-- `start`; `last` is the time of the newest, or `start`
abbrev pub Spaced : ℕ → ℕ → List LoopCall → Type 0
Spaced start last [] = last ≡ start
Spaced start last (timers_managed ∷ calls) = Spaced start last calls
Spaced start last (policy_requested t ∷ calls) =
    (last ≡ t)
    × (before : ℕ) × (before + min_policy_time * 1000000000 ≤ t)
    × Spaced start before calls

abbrev pub times_managed : List LoopCall → ℕ
times_managed [] = 0
times_managed (timers_managed ∷ calls) = suc (times_managed calls)
times_managed (policy_requested t ∷ calls) = times_managed calls

-- the loop after `n` rounds
pub record IsPaced {h : RteHash} {c : Counter} (start n : ℕ) (p : Process h c) : Type 0 where
  pub interval_ge : min_policy_time ≤ p.policy_interval
  pub interval_le : p.policy_interval ≤ max_policy_time
  pub spaced : Spaced start p.last_policy_time p.calls
  pub counter : p.timer_check_counter < timer_check_interval
  pub managed : times_managed p.calls * timer_check_interval + p.timer_check_counter ≡ n

module _ {h : RteHash} {c : Counter} (start n : ℕ) where
  check_timers-IsPaced :
      (p : Process h c) → IsPaced start n p → IsPaced start (suc n) (check_timers p)
  unfolding check_timers
  check_timers-IsPaced p i =
      let e : (p.timer_check_counter + 1) % 2 ^ 64 ≡ p.timer_check_counter + 1 =
        ground (arith, i.counter) in
      elim (Bool-cases (leb timer_check_interval (p.timer_check_counter + 1))) [
        | inl full ↦
            rw (e, full)
              (record {
                interval_ge = i.interval_ge;
                interval_le = i.interval_le;
                spaced = i.spaced;
                counter = omega arith;
                managed = ground (arith, i.managed, i.counter);
              })
        | inr early ↦
            rw (e, early)
              (record {
                interval_ge = i.interval_ge;
                interval_le = i.interval_le;
                spaced = i.spaced;
                counter = ground arith;
                managed = omega (arith, i.managed);
              })
      ]

  check_policy_time-IsPaced :
      (now rand : ℕ) (p : Process h c)
      → IsPaced start n p
      → IsPaced start n (check_policy_time now rand p)
  unfolding check_policy_time
  check_policy_time-IsPaced now rand p i =
      elim (Bool-cases (leb p.policy_interval (seconds_since now p.last_policy_time))) [
        | inl due ↦ rw due (record {
          interval_ge = omega arith;
          interval_le = omega arith;
          spaced = (refl, p.last_policy_time, ground (arith, i.interval_ge), i.spaced);
          counter = i.counter;
          managed = i.managed;
        })
        | inr early ↦ rw early i
      ]

  check_metrics_time-IsPaced :
      (now : ℕ) (p : Process h c) → IsPaced start n p → IsPaced start n (check_metrics_time now p)
  unfolding check_metrics_time flush_counters
  check_metrics_time-IsPaced now p i =
      elim (Bool-cases
        (leb metrics_flush_interval_sec (seconds_since now p.last_metrics_push_time))) [
          | inl due ↦ rw due (record {
            interval_ge = i.interval_ge;
            interval_le = i.interval_le;
            spaced = i.spaced;
            counter = i.counter;
            managed = i.managed;
          })
          | inr early ↦ rw early i
        ]

module _ {h : RteHash} {c : Counter} where
  IsPaced-Leaves :
      (start n : ℕ) {p p' : Process h c} → Leaves p p' → IsPaced start n p → IsPaced start n p'
  IsPaced-Leaves start n l i = record {
    interval_ge = rw l.policy_interval i.interval_ge;
    interval_le = rw l.policy_interval i.interval_le;
    spaced = rw (l.last_policy_time, l.calls) i.spaced;
    counter = rw l.timer_check_counter i.counter;
    managed = rw (l.calls, l.timer_check_counter) i.managed;
  }

  with_world-IsPaced :
      (start n : ℕ) (p : Process h c) (w : World h)
      → IsPaced start n p
      → IsPaced start n (record p { world = w })
  with_world-IsPaced start n p w i = record {
    interval_ge = i.interval_ge;
    interval_le = i.interval_le;
    spaced = i.spaced;
    counter = i.counter;
    managed = i.managed;
  }

  check_timers-state : (p : Process h c) → (check_timers p).state ≡ p.state
  unfolding check_timers
  check_timers-state p =
      elim (Bool-cases (leb timer_check_interval (count_one p.timer_check_counter))) [
        | inl e ↦ rw e refl
        | inr e ↦ rw e refl
      ]

  check_policy_time-state :
      (now rand : ℕ) (p : Process h c) → (check_policy_time now rand p).state ≡ p.state
  unfolding check_policy_time
  check_policy_time-state now rand p =
      elim (Bool-cases (leb p.policy_interval (seconds_since now p.last_policy_time))) [
        | inl e ↦ rw e refl
        | inr e ↦ rw e refl
      ]

  check_metrics_time-state :
      (now : ℕ) (p : Process h c) → (check_metrics_time now p).state ≡ p.state
  unfolding check_metrics_time flush_counters
  check_metrics_time-state now p =
      elim (Bool-cases
        (leb metrics_flush_interval_sec (seconds_since now p.last_metrics_push_time))) [
          | inl e ↦ rw e refl
          | inr e ↦ rw e refl
        ]

  pub checks-state :
      (now rand : ℕ) (p : Process h c)
      → (check_metrics_time now (check_policy_time now rand (check_timers p))).state ≡ p.state
  checks-state now rand p =
      check_metrics_time-state now (check_policy_time now rand (check_timers p))
      ∙ check_policy_time-state now rand (check_timers p)
      ∙ check_timers-state p

  -- the end of the loop
  ended-IsPaced :
      (start n : ℕ) (stop_flag : Bool) (p : Process h c)
      → IsPaced start n p
      → IsPaced start n (
          if stop_flag
          then record (flush_counters p) { state = shutting_down }
          else flush_counters p)
  unfolding flush_counters
  ended-IsPaced start n true p i = record {
    interval_ge = i.interval_ge;
    interval_le = i.interval_le;
    spaced = i.spaced;
    counter = i.counter;
    managed = i.managed;
  }
  ended-IsPaced start n false p i = record {
    interval_ge = i.interval_ge;
    interval_le = i.interval_le;
    spaced = i.spaced;
    counter = i.counter;
    managed = i.managed;
  }

add_zero : (n : ℕ) → n + 0 ≡ n
add_zero n = omega arith

zero_add : (n : ℕ) → 0 + n ≡ n
zero_add n = omega arith

next : (n k : ℕ) → n + suc k ≡ suc n + k
next n k = omega arith

module _ {h : RteHash} {c : Counter} (env : Env) (pton : AddrParser)
    (port_in port_out port_exception queue_number : ℕ) (start : ℕ) where
  Gives-main_loop_round :
      (n : ℕ) (r : Round) (p : Process h c)
      → (p.state ≡ free)
      → IsPaced start n p
      → Gives
          (λ p'. (p'.state ≡ free) × IsPaced start (suc n) p')
          (main_loop_round env pton port_in port_out port_exception queue_number r p)
  unfolding main_loop_round
  Gives-main_loop_round n r p running i =
      let out = λ (p' : Process h c). (p'.state ≡ free) × IsPaced start (suc n) p' in
      Gives-then (Leaves p) out (apply_answers pton r.answers p) _
        (Gives-apply_answers pton r.answers p)
        (λ p1 l.
          Gives-then _ out (move_packets env pton port_in port_out port_exception queue_number r p1)
            _ (Gives-move_packets env queue_number port_in port_out port_exception pton r p1)
            (λ w hs.
              let p2 = record p1 { world = w } in
              let i2 = with_world-IsPaced start n p1 w (IsPaced-Leaves start n l i) in
              let p3 = check_policy_time r.now r.rand (check_timers p2) in
              (
                checks-state r.now r.rand p2 ∙ l.state ∙ running,
                check_metrics_time-IsPaced start (suc n) r.now p3 (
                    check_policy_time-IsPaced start (suc n) r.now r.rand (check_timers p2)
                      (check_timers-IsPaced start n p2 i2)),
              )))

  Gives-main_loop_rounds :
      (rounds : List Round) (n : ℕ) (p : Process h c)
      → (p.state ≡ free)
      → IsPaced start n p
      → Gives
          (IsPaced start (n + length rounds))
          (main_loop_rounds env pton port_in port_out port_exception queue_number rounds p)
  unfolding main_loop_rounds
  Gives-main_loop_rounds [] n p running i = rw (add_zero n) i
  Gives-main_loop_rounds (r ∷ rounds) n p running i =
      rw (running, main_loop_rounds)
        (Gives-then _ (IsPaced start (n + suc (length rounds)))
          (main_loop_round env pton port_in port_out port_exception queue_number r p) _
          (Gives-main_loop_round n r p running i)
          (λ p' (running', i').
            Gives-weaken (IsPaced start (suc n + length rounds))
              (IsPaced start (n + suc (length rounds))) _
              (Gives-main_loop_rounds rounds (suc n) p' running' i')
              (λ p2 i2. rw (next n (length rounds)) i2)))

-- A worker that is free and has an interval of 30 to 45 seconds runs its loop so: a request for a
-- policy comes at least 30 seconds after the start and after the one before it, the interval stays
-- between 30 and 45 seconds, and the timers are managed once in every 10000 rounds, if no access goes
-- outside a buffer, an array or the live objects.
pub main_loop-IsPaced :
    {h : RteHash} {c : Counter} (env : Env) (pton : AddrParser)
    (port_in port_out port_exception queue_number start : ℕ) (rounds : List Round)
    (stop_flag : Bool) (p : Process h c)
    → p.state ≡ free
    → p.calls ≡ []
    → min_policy_time ≤ p.policy_interval
    → p.policy_interval ≤ max_policy_time
    → Gives
        (IsPaced start (length rounds))
        (main_loop env pton port_in port_out port_exception queue_number start rounds stop_flag p)
unfolding main_loop
main_loop-IsPaced env pton port_in port_out port_exception queue_number start rounds stop_flag p
      running none_yet ge le =
    let p0 = record p { last_policy_time = start; timer_check_counter = 0 } in
    let i0 : IsPaced start 0 p0 = record {
      interval_ge = ge;
      interval_le = le;
      spaced = rw none_yet refl;
      counter = omega arith;
      managed = rw none_yet refl;
    } in
    Gives-then (IsPaced start (length rounds)) (IsPaced start (length rounds))
      (main_loop_rounds env pton port_in port_out port_exception queue_number rounds p0) _
      (rw (zero_add (length rounds)) at (
        Gives-main_loop_rounds env pton port_in port_out port_exception queue_number start rounds 0
          p0 running i0))
      (λ p1 i1. ended-IsPaced start (length rounds) stop_flag p1 i1)
