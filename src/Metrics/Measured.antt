-- ===== src/Metrics/Measured.antt =====
-- What the gauge of a CPU shows after two readings, and what the collector counts.
use grpc_server.Base.{
  ℕ, ◌+◌, ◌-◌, ◌*◌, ◌^◌, ◌≤◌, ◌<◌, ◌≡◌, refl, true, some, List, [], ◌∷◌, ◌++◌, Bytes, ltb, ◌==◌,
  Bool-cases, Option-cases, inl, inr, arith, if◌then◌else◌,
}
use grpc_server.Metrics.{
  Share, no_share, CpuInfo, Times, non_idle_of, total_of, sub64, measure, get_cpu_usage, Gauges,
  Tick, push_metrics, collect_round, collect,
}
use grpc_server.Metrics.Lines.{Shows, busy, waiting, measure_lines-Shows, measure_lines-known}

collect_round_usage :
    (pagesize : ℕ) (r : Tick) (g : Gauges)
    → (collect_round pagesize r g).cpu_usage ≡ get_cpu_usage r.garbage r.stat g.cpu_usage
unfolding collect_round push_metrics
collect_round_usage pagesize r g = elim (Bool-cases (r.status == 200)) [
  | inl e ↦ rw e refl
  | inr e ↦ rw e refl
]

collect_round-known :
    (pagesize : ℕ) (r : Tick) (g : Gauges) (name : Bytes) (cpu : CpuInfo)
    → g.cpu_usage name ≡ some cpu
    → (cpu' : CpuInfo) × ((collect_round pagesize r g).cpu_usage name ≡ some cpu')
unfolding get_cpu_usage
collect_round-known pagesize r g name cpu known =
    rw (collect_round_usage pagesize r g) (elim (Option-cases r.stat) [
      | inl e ↦ (cpu, rw (e, get_cpu_usage) known)
      | inr (lines, e) ↦
          let (cpu', known') = measure_lines-known r.garbage 0 name lines g.cpu_usage cpu known in
          (cpu', rw (e, get_cpu_usage) known')
    ])

collect_round-Shows :
    (pagesize : ℕ) (r : Tick) (g : Gauges) (name : Bytes) (t : Times) (lines : List (List Bytes))
    (cpu : CpuInfo)
    → r.stat ≡ some lines
    → Shows name t lines
    → g.cpu_usage name ≡ some cpu
    → (collect_round pagesize r g).cpu_usage name ≡ some (measure t cpu)
unfolding get_cpu_usage
collect_round-Shows pagesize r g name t lines cpu at_stat shows known =
    rw (collect_round_usage pagesize r g) (
      rw (at_stat, get_cpu_usage)
        (measure_lines-Shows r.garbage 0 name t lines g.cpu_usage cpu shows known))

-- the pushes that the gateway did not answer by 200
abbrev pub failed_pushes : List Tick → ℕ
failed_pushes [] = 0
failed_pushes (r ∷ rounds) = (if r.status == 200 then 0 else 1) + failed_pushes rounds

collect-known :
    (pagesize : ℕ) (rounds : List Tick) (g : Gauges) (name : Bytes) (cpu : CpuInfo)
    → g.cpu_usage name ≡ some cpu
    → (cpu' : CpuInfo) × ((collect pagesize rounds g).cpu_usage name ≡ some cpu')
unfolding collect
collect-known pagesize [] g name cpu known = (cpu, known)
collect-known pagesize (r ∷ rounds) g name cpu known =
    let (cpu1, known1) = collect_round-known pagesize r g name cpu known in
    collect-known pagesize rounds (collect_round pagesize r g) name cpu1 known1

collect-append :
    (pagesize : ℕ) (before after : List Tick) (g : Gauges)
    → collect pagesize (before ++ after) g ≡ collect pagesize after (collect pagesize before g)
unfolding collect
collect-append pagesize [] after g = refl
collect-append pagesize (r ∷ before) after g =
    collect-append pagesize before after (collect_round pagesize r g)

collect_round_errors :
    (pagesize : ℕ) (r : Tick) (g : Gauges)
    → (collect_round pagesize r g).push_errors_total
      ≡ g.push_errors_total + (if r.status == 200 then 0 else 1)
unfolding collect_round push_metrics
collect_round_errors pagesize r g = ground arith

collect_errors :
    (pagesize : ℕ) (rounds : List Tick) (g : Gauges)
    → (collect pagesize rounds g).push_errors_total ≡ g.push_errors_total + failed_pushes rounds
unfolding collect
collect_errors pagesize [] g = omega arith
collect_errors pagesize (r ∷ rounds) g = omega (
  arith,
  collect_errors pagesize rounds (collect_round pagesize r g),
  collect_round_errors pagesize r g,
)

-- the percentage of the time between two readings in which a CPU was busy
abbrev pub share_between : Times → Times → Share
share_between a b = if busy a + waiting a == busy b + waiting b then no_share else record {
  part = 100 * (busy b - busy a);
  whole = busy b + waiting b - (busy a + waiting a);
}

measure_twice :
    (a b : Times) (cpu : CpuInfo)
    → 0 < busy a + waiting a
    → busy a ≤ busy b
    → waiting a ≤ waiting b
    → busy b + waiting b < 2 ^ 64
    → (measure b (measure a cpu)).gauge ≡ share_between a b
unfolding measure
measure_twice a b cpu positive busier later bounded =
    let ta : total_of a ≡ busy a + waiting a = omega arith in
    let tb : total_of b ≡ busy b + waiting b = omega arith in
    let na : non_idle_of a ≡ busy a = omega arith in
    let nb : non_idle_of b ≡ busy b = omega arith in
    let dt : sub64 (busy b + waiting b) (busy a + waiting a)
        ≡ busy b + waiting b - (busy a + waiting a) =
      omega arith in
    let dn : sub64 (busy b) (busy a) ≡ busy b - busy a = omega arith in
    let started : ltb 0 (busy a + waiting a) ≡ true = ground arith in
    rw (ta, started, tb, na, nb, dt, dn) (ground arith)

-- The collector ran for any number of rounds, over any files and answers, and then for two rounds whose
-- files each have one line of a registered CPU, behind lines of CPUs alone, and whose eight times are
-- numbers of a `long`. If the busy time and the waiting time of the CPU did not fall between the two
-- readings, the first reading was not all 0 and the sums stay below 2 ^ 64, its gauge shows the busy
-- percentage of the time between the two readings, which is at most 100, or 0 where no time has passed. The
-- failed pushes of all rounds are counted.
pub collect_measures :
    (pagesize : ℕ) (before : List Tick) (r1 r2 : Tick) (g : Gauges) (name : Bytes) (a b : Times)
    (lines1 lines2 : List (List Bytes)) (cpu : CpuInfo)
    → g.cpu_usage name ≡ some cpu
    → r1.stat ≡ some lines1
    → Shows name a lines1
    → r2.stat ≡ some lines2
    → Shows name b lines2
    → 0 < busy a + waiting a
    → busy a ≤ busy b
    → waiting a ≤ waiting b
    → busy b + waiting b < 2 ^ 64
    → let g' = collect pagesize (before ++ r1 ∷ r2 ∷ []) g in
      (cpu' : CpuInfo) × (g'.cpu_usage name ≡ some cpu')
      × (cpu'.gauge ≡ share_between a b)
      × (cpu'.gauge.part ≤ 100 * cpu'.gauge.whole)
      × (g'.push_errors_total ≡ g.push_errors_total + failed_pushes (before ++ r1 ∷ r2 ∷ []))
unfolding collect
collect_measures pagesize before r1 r2 g name a b lines1 lines2 cpu known at1 shows1 at2 shows2
      positive busier later bounded =
    let (cpu0, known0) = collect-known pagesize before g name cpu known in
    let g0 = collect pagesize before g in
    let known1 = collect_round-Shows pagesize r1 g0 name a lines1 cpu0 at1 shows1 known0 in
    let g1 = collect_round pagesize r1 g0 in
    let known2 =
      collect_round-Shows pagesize r2 g1 name b lines2 (measure a cpu0) at2 shows2 known1 in
    let shown = measure_twice a b cpu0 positive busier later bounded in
    (
      measure b (measure a cpu0),
      rw (collect-append pagesize before (r1 ∷ r2 ∷ []) g) known2,
      shown,
      rw shown (ground arith),
      collect_errors pagesize (before ++ r1 ∷ r2 ∷ []) g,
    )
