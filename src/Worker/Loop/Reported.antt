-- ===== src/Worker/Loop/Reported.antt =====
-- What the loop reports of the packets that it moves.
use grpc_server.Base.{
  ℕ, ◌+◌, ◌≡◌, ◌∙◌, refl, Bool, true, false, List, [], ◌∷◌, length, arith, if◌then◌else◌,
}
use grpc_server.Base.Run.{Gives, Gives-then}
use grpc_server.RteHash.{RteHash}
use grpc_server.Packets.State.{Env}
use grpc_server.Packets.Handled.{Handles}
use grpc_server.Worker.Policy.{AddrParser}
use grpc_server.Worker.Counters.{Counter, IsCounter}
use grpc_server.Worker.Loop.Answered.{Leaves, Gives-apply_answers}
use grpc_server.Worker.Loop.Moved.{round_packets, Gives-move_packets}
use grpc_server.Worker.Loop.Paced.{checks-state}
use grpc_server.Worker.Loop.{
  Round, Process, flush_counters, apply_answers, move_packets, main_loop_round, main_loop_rounds,
  main_loop, free, shutting_down,
}
use grpc_server.Worker.Loop.Recorded.{
  Reports, IsFlushed, Reports-Leaves, Reports-Handles, flush_counters-Reports, Reports-same,
  checks-Reports,
}

-- the packets of `port_in`, and those of all three ports
abbrev pub counted_packets : List Round → ℕ
counted_packets [] = 0
counted_packets (r ∷ rounds) = length r.pkts + counted_packets rounds

abbrev pub all_packets : List Round → ℕ
all_packets [] = 0
all_packets (r ∷ rounds) = round_packets r + all_packets rounds

add_zero : (n : ℕ) → n + 0 ≡ n
add_zero n = omega arith

zero_add : (n : ℕ) → 0 + n ≡ n
zero_add n = omega arith

add_add : (a b c : ℕ) → (a + b) + c ≡ a + (b + c)
add_add a b c = omega arith

module _ {h : RteHash} {c : Counter} (laws : IsCounter c) (env : Env) (pton : AddrParser)
    (port_in port_out port_exception queue_number : ℕ) where
  Gives-main_loop_round :
      (counted n : ℕ) (r : Round) (p : Process h c)
      → p.state ≡ free
      → Reports counted n p
      → Gives
          (λ p'. (p'.state ≡ free) × Reports (counted + length r.pkts) (n + round_packets r) p')
          (main_loop_round env pton port_in port_out port_exception queue_number r p)
  unfolding main_loop_round
  Gives-main_loop_round counted n r p running i =
      let out = λ (p' : Process h c).
        (p'.state ≡ free) × Reports (counted + length r.pkts) (n + round_packets r) p' in
      Gives-then (Leaves p) out (apply_answers pton r.answers p) _
        (Gives-apply_answers pton r.answers p)
        (λ p1 l.
          Gives-then (Handles (length r.pkts) (round_packets r) p1.world) out
            (move_packets env pton port_in port_out port_exception queue_number r p1) _
            (Gives-move_packets env queue_number port_in port_out port_exception pton r p1)
            (λ w hs.
              let p2 = record p1 { world = w } in
              (
                checks-state r.now r.rand p2 ∙ l.state ∙ running,
                checks-Reports laws (counted + length r.pkts) (n + round_packets r) r.now r.rand p2
                    (Reports-Handles counted n (length r.pkts) (round_packets r) p1 w hs
                      (Reports-Leaves counted n l i)),
              )))

  Gives-main_loop_rounds :
      (rounds : List Round) (counted n : ℕ) (p : Process h c)
      → p.state ≡ free
      → Reports counted n p
      → Gives
          (Reports (counted + counted_packets rounds) (n + all_packets rounds))
          (main_loop_rounds env pton port_in port_out port_exception queue_number rounds p)
  unfolding main_loop_rounds
  Gives-main_loop_rounds [] counted n p running i = rw (add_zero counted, add_zero n) i
  Gives-main_loop_rounds (r ∷ rounds) counted n p running i =
      let a = counted + length r.pkts in
      let b = n + round_packets r in
      rw
        (
          running,
          main_loop_rounds,
          ← add_add counted (length r.pkts) (counted_packets rounds),
          ← add_add n (round_packets r) (all_packets rounds),
        )
        (Gives-then (λ p'. (p'.state ≡ free) × Reports a b p')
          (Reports (a + counted_packets rounds) (b + all_packets rounds))
          (main_loop_round env pton port_in port_out port_exception queue_number r p) _
          (Gives-main_loop_round counted n r p running i)
          (λ p' (running', i'). Gives-main_loop_rounds rounds a b p' running' i'))

  ended-Reports :
      (stop_flag : Bool) (counted n : ℕ) (p : Process h c)
      → Reports counted n p
      → Reports counted n (
          if stop_flag
          then record (flush_counters p) { state = shutting_down }
          else flush_counters p)
        × IsFlushed (
            if stop_flag
            then record (flush_counters p) { state = shutting_down }
            else flush_counters p)
  ended-Reports true counted n p i =
      let (j, z) = flush_counters-Reports laws counted n p i in
      (
        Reports-same counted n refl refl j,
        record { received = z.received; passed = z.passed; dropped = z.dropped },
      )
  ended-Reports false counted n p i = flush_counters-Reports laws counted n p i

-- A worker that is free and reports nothing so far has, once its loop ends, nothing in its local
-- counters, if no access goes outside a buffer, an array or the live objects: exported are, as
-- received, the packets of `port_in` alone; as passed, what was offered to a driver, the packets of
-- all three ports included; as dropped, at least what a driver refused and at most what was released.
-- Each packet of the three ports was sent or released, once.
pub main_loop-Reports :
    {h : RteHash} {c : Counter} (env : Env) (pton : AddrParser)
    (port_in port_out port_exception queue_number start : ℕ) (rounds : List Round)
    (stop_flag : Bool) (p : Process h c)
    → IsCounter c
    → p.state ≡ free
    → Reports 0 0 p
    → Gives
        (λ p'. Reports (counted_packets rounds) (all_packets rounds) p' × IsFlushed p')
        (main_loop env pton port_in port_out port_exception queue_number start rounds stop_flag p)
unfolding main_loop
main_loop-Reports env pton port_in port_out port_exception queue_number start rounds stop_flag p
      laws running i =
    let p0 = record p { last_policy_time = start; timer_check_counter = 0 } in
    let done_rounds =
      Gives-main_loop_rounds laws env pton port_in port_out port_exception queue_number rounds 0 0
        p0 running (Reports-same 0 0 refl refl i) in
    Gives-then (Reports (counted_packets rounds) (all_packets rounds))
      (λ p'. Reports (counted_packets rounds) (all_packets rounds) p' × IsFlushed p')
      (main_loop_rounds env pton port_in port_out port_exception queue_number rounds p0) _
      (rw (zero_add (counted_packets rounds), zero_add (all_packets rounds)) at done_rounds)
      (λ p1 i1.
        ended-Reports laws env pton port_in port_out port_exception queue_number stop_flag
          (counted_packets rounds) (all_packets rounds) p1 i1)
