-- ===== src/Ports/Trio/Staged.antt =====
-- In which stage the start and the end of a program leave the devices of its three ports.
use grpc_server.Base.{
  ℕ, ◌+◌, ◌≡◌, ◌≢◌, ◌⊎◌, refl, ap, ◌∙◌, inl, inr, Bool, true, false, Option, none, some, List, [],
  ◌∷◌, ◌++◌, Bytes, ℤ, pos, negsuc, Bool-cases, Option-cases, arith,
}
use grpc_server.Base.Run.{Run, done, ◌>>=◌}
use grpc_server.Ports.{
  Port, EthDev, Call, op_stop, op_close, op_uninit, is_nonzero, net_port_init, net_port_start,
  net_port_close,
}
use grpc_server.Ports.Stages.{
  Stage, absent, ready, started, advance, after, all_ok, tried, net_port_init-InitOk,
  net_port_start-StartOk,
}
use grpc_server.Ports.Trio.{
  Slot, slot_of, Trio, init_slot, start_slot, close_slot, any_fails, init_ports, start_ports,
  close_ports,
}

some_inj : {s t : Stage} → some s ≡ some t → s ≡ t
some_inj e = cc

-- a port whose calls so far were allowed and have left its device in the stage
abbrev pub At : Stage → Slot → Type 0
At stage slot = (port : Port) × (slot.port ≡ some port) × (after absent slot.calls ≡ some stage)

-- a port whose calls so far were allowed, all succeeded, and have left its device in the stage
abbrev pub UpTo : Stage → Slot → Type 0
UpTo stage slot = At stage slot × (all_ok slot.calls ≡ true)

-- a port whose initialisation was tried and has left no device
abbrev pub NotReady : Slot → Type 0
NotReady slot = At absent slot × (tried slot.calls ≡ true)

abbrev pub HalfStarted : Slot → Type 0
HalfStarted slot = At ready slot ⊎ At started slot

-- a port of which a call has failed, behind which its device is ready or started
abbrev pub NotStarted : Slot → Type 0
NotStarted slot = HalfStarted slot × (all_ok slot.calls ≡ false)

-- a port that is built and has no device yet
abbrev pub Built : Slot → Type 0
Built slot = (port : Port) × (slot ≡ slot_of (some port))

-- The first call that fails leaves its port bad; those before it are good, and those behind it as before.
abbrev pub FailsAt : (Slot → Type 0) → (Slot → Type 0) → (Slot → Type 0) → Trio → Type 0
FailsAt Before Good Bad ports =
    (Bad ports.port_in × Before ports.port_out × Before ports.port_exception)
    ⊎ (Good ports.port_in × Bad ports.port_out × Before ports.port_exception)
    ⊎ (Good ports.port_in × Good ports.port_out × Bad ports.port_exception)

abbrev pub AllPorts : (Slot → Type 0) → Trio → Type 0
AllPorts P ports = P ports.port_in × P ports.port_out × P ports.port_exception

-- three calls in order, up to the first one that fails
abbrev pub InOrder :
    (Slot → Type 0) → (Slot → Type 0) → (Slot → Type 0) → Run (Bool × Trio) → Type 0
InOrder Before Good Bad run =
    (fails : Bool) × (ports : Trio) × (run ≡ done (fails, ports))
    × (((fails ≡ false) × AllPorts Good ports) ⊎ ((fails ≡ true) × FailsAt Before Good Bad ports))

is_nonzero-zero : (ret : ℤ) → ret ≡ pos 0 → is_nonzero ret ≡ false
is_nonzero-zero ret e = ground arith

is_nonzero-ne : (ret : ℤ) → ret ≢ pos 0 → is_nonzero ret ≡ true
is_nonzero-ne (pos n) ne = ground arith
is_nonzero-ne (negsuc n) ne = refl

-- what a call returns, and what it leaves
abbrev Answers : (Slot → Type 0) → (Slot → Type 0) → Run (ℤ × Slot) → Type 0
Answers Good Bad run =
    (ret : ℤ) × (slot : Slot) × (run ≡ done (ret, slot))
    × (((is_nonzero ret ≡ false) × Good slot) ⊎ ((is_nonzero ret ≡ true) × Bad slot))

any_fails-InOrder :
    (Before Good Bad : Slot → Type 0) (f : ℕ → Slot → Run (ℤ × Slot)) (ports : Trio)
    → ((i : ℕ) (slot : Slot) → Before slot → Answers Good Bad (f i slot))
    → Before ports.port_in
    → Before ports.port_out
    → Before ports.port_exception
    → InOrder Before Good Bad (any_fails f ports)
unfolding any_fails
any_fails-InOrder Before Good Bad f ports step b1 b2 b3 =
    let (ret1, s1, run1, end1) = step 0 ports.port_in b1 in
    elim end1 [
      | inr (bad, q1) ↦ (
        true,
        record ports { port_in = s1 },
        rw (run1, ◌>>=◌, bad) refl,
        inr (refl, inl (q1, b2, b3)),
      )
      | inl (good1, g1) ↦
          let (ret2, s2, run2, end2) = step 1 ports.port_out b2 in
          elim end2 [
            | inr (bad, q2) ↦ (
              true,
              record ports { port_in = s1; port_out = s2 },
              rw (run1, ◌>>=◌, good1, run2, ◌>>=◌, bad) refl,
              inr (refl, inr (inl (g1, q2, b3))),
            )
            | inl (good2, g2) ↦
                let (ret3, s3, run3, end3) = step 2 ports.port_exception b3 in
                let all : Trio = record { port_in = s1; port_out = s2; port_exception = s3 } in
                elim end3 [
                  | inr (bad, q3) ↦ (
                    true,
                    all,
                    rw (run1, ◌>>=◌, good1, run2, ◌>>=◌, good2, run3, ◌>>=◌, bad) refl,
                    inr (refl, inr (inr (g1, g2, q3))),
                  )
                  | inl (good3, g3) ↦ (
                    false,
                    all,
                    rw (run1, ◌>>=◌, good1, run2, ◌>>=◌, good2, run3, ◌>>=◌, good3) refl,
                    inl (refl, (g1, g2, g3)),
                  )
                ]
          ]
    ]

-- DPDK removes a device where it is asked to.
abbrev pub Removes : EthDev → Type 0
Removes eth = (name : Bytes) → is_nonzero (eth.vdev_uninit name) ≡ false

after-append :
    (xs ys : List Call) (s s' : Stage) → after s xs ≡ some s' → after s (xs ++ ys) ≡ after s' ys
unfolding after
after-append [] ys s s' e = ap (λ (t : Stage). after t ys) (some_inj e)
after-append ((op, ok) ∷ xs) ys s s' e = elim (Option-cases (advance s op)) [
  | inl f ↦ absurd (stuck (rw (after, f) at e))
  | inr (t, f) ↦ elim (Bool-cases ok) [
    | inl o ↦ rw (after, f, o) (after-append xs ys t s' (rw (after, f, o) at e))
    | inr o ↦ rw (after, f, o) (after-append xs ys s s' (rw (after, f, o) at e))
  ]
]
  where
    stuck : ◌≡◌ {A = Option Stage} none (some s') → ⊥
    stuck h = cc

all_ok-append : (xs ys : List Call) → all_ok xs ≡ true → all_ok (xs ++ ys) ≡ all_ok ys
all_ok-append [] ys e = refl
all_ok-append ((op, true) ∷ xs) ys e = all_ok-append xs ys e
all_ok-append ((op, false) ∷ xs) ys e = absurd cc

init_slot-Answers :
    (eth : EthDev) (slot : Slot)
    → Removes eth
    → Built slot
    → Answers (UpTo ready) NotReady (init_slot eth slot)
unfolding init_slot
init_slot-Answers eth slot removes (port, e) =
    let (ret, port', calls) = net_port_init eth port in
    let slot' : Slot = record { port = some port'; calls = calls } in
    (
      ret,
      slot',
      rw e refl,
      elim (net_port_init-InitOk eth port (removes port.dev_name)) [
        | inl (zero_ret, ok, stage, mac, learned) ↦
            inl (is_nonzero-zero ret zero_ret, ((port', refl, stage), ok))
        | inr (ne, some_call, stage) ↦ inr (is_nonzero-ne ret ne, ((port', refl, stage), some_call))
      ],
    )

start_slot-Answers :
    (eth : EthDev) (slot : Slot)
    → UpTo ready slot
    → Answers (UpTo started) NotStarted (start_slot eth slot)
unfolding start_slot
start_slot-Answers eth slot ((port, at_port, stage), ok) =
    let (ret, calls) = net_port_start eth port.port_id in
    let joined = λ (s : Stage). λ (then_ : after ready calls ≡ some s).
      after-append slot.calls calls absent ready stage ∙ then_ in
    let same = all_ok-append slot.calls calls ok in
    (
      ret,
      record slot { calls = slot.calls ++ calls },
      rw at_port refl,
      elim (net_port_start-StartOk eth port.port_id) [
        | inl (zero_ret, up, on, all, then_, made) ↦
            inl (is_nonzero-zero ret zero_ret, ((port, at_port, joined started then_), same ∙ all))
        | inr (ne, not_all, inl (answer, down, then_)) ↦
            inr (is_nonzero-ne ret ne, (inl (port, at_port, joined ready then_), same ∙ not_all))
        | inr (ne, not_all, inr (answer, up, off, then_)) ↦
            inr (is_nonzero-ne ret ne, (inr (port, at_port, joined started then_), same ∙ not_all))
      ],
    )

-- DPDK does what closing a port asks for.
abbrev pub Closes : EthDev → Type 0
Closes eth =
    ((id : ℕ) → is_nonzero (eth.stop id) ≡ false)
    × ((id : ℕ) → is_nonzero (eth.close id) ≡ false)
    × Removes eth

abbrev closing_calls : List Call
closing_calls = (op_stop, true) ∷ (op_close, true) ∷ (op_uninit, true) ∷ []

close_slot_calls :
    (eth : EthDev) (slot : Slot) (port : Port)
    → Closes eth
    → slot.port ≡ some port
    → (close_slot eth slot).calls ≡ slot.calls ++ closing_calls
unfolding close_slot net_port_close
close_slot_calls eth slot port (stops, closes, removes) at_port =
    rw (at_port, net_port_close, stops port.port_id, closes port.port_id, removes port.dev_name)
      refl

-- A port whose device is ready or started is closed: no device is left.
close_slot-absent :
    (eth : EthDev) (slot : Slot)
    → Closes eth
    → At ready slot ⊎ At started slot
    → after absent (close_slot eth slot).calls ≡ some absent
unfolding after advance
close_slot-absent eth slot closes (inl (port, at_port, stage)) =
    rw (close_slot_calls eth slot port closes at_port)
      (after-append slot.calls closing_calls absent ready stage)
close_slot-absent eth slot closes (inr (port, at_port, stage)) =
    rw (close_slot_calls eth slot port closes at_port)
      (after-append slot.calls closing_calls absent started stage)

pub init_ports-InOrder :
    (eth : ℕ → EthDev) (ports : Trio)
    → ((i : ℕ) → Removes (eth i))
    → AllPorts Built ports
    → InOrder Built (UpTo ready) NotReady (init_ports eth ports)
unfolding init_ports
init_ports-InOrder eth ports removes (b1, b2, b3) =
    any_fails-InOrder Built (UpTo ready) NotReady (λ i. init_slot (eth i)) ports
      (λ i slot b. init_slot-Answers (eth i) slot (removes i) b) b1 b2 b3

pub start_ports-InOrder :
    (eth : ℕ → EthDev) (ports : Trio)
    → AllPorts (UpTo ready) ports
    → InOrder (UpTo ready) (UpTo started) NotStarted (start_ports eth ports)
unfolding start_ports
start_ports-InOrder eth ports (b1, b2, b3) =
    any_fails-InOrder (UpTo ready) (UpTo started) NotStarted (λ i. start_slot (eth (3 + i))) ports
      (λ i slot b. start_slot-Answers (eth (3 + i)) slot b) b1 b2 b3

-- no device and no port is left, after allowed calls
abbrev pub Gone : Slot → Type 0
Gone slot = (slot.port ≡ none) × (after absent slot.calls ≡ some absent)

pub close_ports-Gone :
    (eth : ℕ → EthDev) (ports : Trio)
    → ((i : ℕ) → Closes (eth i))
    → AllPorts HalfStarted ports
    → AllPorts Gone (close_ports eth ports)
unfolding close_ports
close_ports-Gone eth ports closes (b1, b2, b3) = (
  (refl, close_slot-absent (eth 6) ports.port_in (closes 6) b1),
  (refl, close_slot-absent (eth 7) ports.port_out (closes 7) b2),
  (refl, close_slot-absent (eth 8) ports.port_exception (closes 8) b3),
)
