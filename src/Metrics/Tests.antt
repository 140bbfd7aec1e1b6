-- ===== src/Metrics/Tests.antt =====
-- The theorems on the collector at small files.
use grpc_server.Base.{
  ℕ, inl, ◌^◌, ◌<◌, ◌+◌, ◌*◌, ◌≤◌, ◌≡◌, refl, true, false, none, some, [], List, ◌∷◌, ◌++◌, Bytes,
  memcmp_eq, if◌then◌else◌, arith,
}
use grpc_server.Base.Run.{done, no_fuel}
use grpc_server.Metrics.{
  decimal, decimal_from, is_cpu, limits, Times, CpuInfo, CpuUsage, fresh_cpu, no_usage, set_cpu,
  Gauges, Tick, open_cpus, texts_of, collect,
}
use grpc_server.Metrics.Streams.{Fits, AreNumbers, AreCpus, ReadsAll}
use grpc_server.Metrics.Opened.{is_listed, open_cpus-registers, open_cpus_hangs}
use grpc_server.Metrics.Lines.{IsLong, Shows}
use grpc_server.Metrics.Measured.{share_between, failed_pushes, collect_measures}

abbrev cpu : Bytes
cpu = b'c' ∷ b'p' ∷ b'u' ∷ []

abbrev cpu0 : Bytes
cpu0 = b'c' ∷ b'p' ∷ b'u' ∷ b'0' ∷ []

abbrev intr : Bytes
intr = b'i' ∷ b'n' ∷ b't' ∷ b'r' ∷ []

abbrev one : Bytes
one = b'1' ∷ []

abbrev two : Bytes
two = b'2' ∷ b'0' ∷ []

abbrev ones : List Bytes
ones = one ∷ one ∷ one ∷ one ∷ one ∷ one ∷ one ∷ one ∷ one ∷ one ∷ []

abbrev twos : List Bytes
twos = two ∷ two ∷ two ∷ two ∷ two ∷ two ∷ two ∷ two ∷ two ∷ two ∷ []

-- 2147483648
abbrev large : Bytes
large = b'2' ∷ b'1' ∷ b'4' ∷ b'7' ∷ b'4' ∷ b'8' ∷ b'3' ∷ b'6' ∷ b'4' ∷ b'8' ∷ []

-- an `iowait` of 2 ^ 31
abbrev long_wait : List Bytes
long_wait = one ∷ one ∷ one ∷ one ∷ large ∷ one ∷ one ∷ one ∷ one ∷ one ∷ []

abbrev two_cpus : List (List Bytes)
two_cpus = (cpu ∷ ones) ∷ (cpu0 ∷ twos) ∷ []

Fits-one : (limit : ℕ) → 1 < limit → Fits limit one
unfolding decimal decimal_from
Fits-one limit lt = (1, refl, lt)

Fits-two : (limit : ℕ) → 20 < limit → Fits limit two
unfolding decimal decimal_from
Fits-two limit lt = (20, refl, lt)

ones-AreNumbers : AreNumbers limits ones
ones-AreNumbers =
    let l = Fits-one (2 ^ 64) (omega arith) in
    let i = Fits-one (2 ^ 31) (omega arith) in (l, (l, (l, (l, (i, (i, (i, (i, (i, (i, tt))))))))))

twos-AreNumbers : AreNumbers limits twos
twos-AreNumbers =
    let l = Fits-two (2 ^ 64) (omega arith) in
    let i = Fits-two (2 ^ 31) (omega arith) in (l, (l, (l, (l, (i, (i, (i, (i, (i, (i, tt))))))))))

is_cpu-cpu : is_cpu cpu ≡ true
unfolding is_cpu
is_cpu-cpu = refl

is_cpu-cpu0 : is_cpu cpu0 ≡ true
unfolding is_cpu
is_cpu-cpu0 = refl

is_cpu-intr : is_cpu intr ≡ false
unfolding is_cpu
is_cpu-intr = refl

two_cpus-AreCpus : AreCpus two_cpus
two_cpus-AreCpus = (is_cpu-cpu, ones-AreNumbers, (is_cpu-cpu0, twos-AreNumbers, tt))

open_cpus-registers_example :
    (usage : CpuUsage) × (open_cpus 3 (some (two_cpus ++ ((intr ∷ one ∷ []) ∷ []))) ≡ done usage)
    × ((name : Bytes) → usage name ≡ (if is_listed name two_cpus then some fresh_cpu else none))
open_cpus-registers_example =
    open_cpus-registers two_cpus [] intr (one ∷ []) 3 two_cpus-AreCpus is_cpu-intr (omega arith)

decimal-large : decimal large ≡ some 2147483648
unfolding decimal decimal_from
decimal-large = refl

long_wait-unfit : ¬ ReadsAll limits (long_wait ++ texts_of ((intr ∷ one ∷ []) ∷ []))
long_wait-unfit (a, (b, (c, (d, ((n, at_n, lt), rest))))) =
    let e : ◌≡◌ {A = ℕ} 2147483648 n = ground (arith, decimal-large) in
    absurd (omega (arith, e, lt))

open_cpus_hangs_example :
    open_cpus 1000 (some (((cpu ∷ ones) ∷ []) ++ ((cpu0 ∷ long_wait) ∷ (intr ∷ one ∷ []) ∷ [])))
    ≡ no_fuel
open_cpus_hangs_example =
    open_cpus_hangs ((cpu ∷ ones) ∷ []) ((intr ∷ one ∷ []) ∷ []) cpu0 long_wait 1000
      (is_cpu-cpu, ones-AreNumbers, tt) is_cpu-cpu0 long_wait-unfit

abbrev all_of : ℕ → Times
all_of n = record {
  user = n;
  nice = n;
  sys = n;
  idle = n;
  iowait = n;
  irq = n;
  softirq = n;
  steal = n;
}

abbrev tick : List (List Bytes) → Tick
tick lines = record { statm = none; stat = some lines; garbage = λ i. all_of 9; status = 500 }

abbrev gauges : Gauges
gauges = record {
  cpu_usage = set_cpu cpu fresh_cpu no_usage;
  memory_used = 0;
  push_errors_total = 0;
}

gauges_known : gauges.cpu_usage cpu ≡ some fresh_cpu
unfolding memcmp_eq
gauges_known = refl

one-IsLong : IsLong one 1
unfolding decimal decimal_from
one-IsLong = (refl, omega arith)

two-IsLong : IsLong two 20
unfolding decimal decimal_from
two-IsLong = (refl, omega arith)

Shows-ones : Shows cpu (all_of 1) ((cpu ∷ ones) ∷ [])
Shows-ones = let l = one-IsLong in (is_cpu-cpu, inl (refl, (l, l, l, l, l, l, l, l), tt))

Shows-twos : Shows cpu (all_of 20) ((cpu ∷ twos) ∷ [])
Shows-twos = let l = two-IsLong in (is_cpu-cpu, inl (refl, (l, l, l, l, l, l, l, l), tt))

collect_measures_example :
    let g' = collect 4096 ([] ++ tick ((cpu ∷ ones) ∷ []) ∷ tick ((cpu ∷ twos) ∷ []) ∷ []) gauges in
    (cpu' : CpuInfo) × (g'.cpu_usage cpu ≡ some cpu')
    × (cpu'.gauge ≡ share_between (all_of 1) (all_of 20))
    × (cpu'.gauge.part ≤ 100 * cpu'.gauge.whole)
    × (g'.push_errors_total
        ≡ 0 + failed_pushes ([] ++ tick ((cpu ∷ ones) ∷ []) ∷ tick ((cpu ∷ twos) ∷ []) ∷ []))
collect_measures_example =
    collect_measures 4096 [] (tick ((cpu ∷ ones) ∷ [])) (tick ((cpu ∷ twos) ∷ [])) gauges cpu
      (all_of 1) (all_of 20) ((cpu ∷ ones) ∷ []) ((cpu ∷ twos) ∷ []) fresh_cpu gauges_known refl
      Shows-ones refl Shows-twos (omega arith) (omega arith) (omega arith) (omega arith)
