-- ===== src/Metrics.antt =====
-- worker/src/metrics_collector.cpp: the gauges of the collector and its loop. A file of /proc is its
-- lines, and a line is the texts between its blanks; a number is a text of decimal digits, and no
-- line begins with a blank. A percentage that the code computes as a double is the two integers
-- whose quotient it is, without the rounding. The gateway and the registry are outside: a push is its HTTP status.
pub mod Streams
pub mod Opened
pub mod Lines
pub mod Measured
mod Tests
use grpc_server.Base.{
  ℕ, zero, suc, ◌+◌, ◌-◌, ◌*◌, ◌%◌, ◌^◌, Bool, true, false, not, ◌&&◌, Option, none, some, List, [],
  ◌∷◌, ◌++◌, Bytes, memcmp_eq, ltb, leb, ◌==◌, if◌then◌else◌,
}
use grpc_server.Base.Run.{Run, done, no_fuel}

abbrev pub is_digit : ℕ → Bool
is_digit c = leb b'0' c && leb c b'9'

-- the number of a text of digits, after the digits of `n`
unfoldable pub decimal_from : ℕ → Bytes → Option ℕ
decimal_from n [] = some n
decimal_from n (c ∷ cs) =
    let rest = decimal_from (10 * n + (c - b'0')) cs in if is_digit c then rest else none

unfoldable pub decimal : Bytes → Option ℕ
unfolding decimal_from
decimal [] = none
decimal (c ∷ cs) = decimal_from 0 (c ∷ cs)

-- An input stream: whether it is in no error state, and the texts that are left. Nothing is read from
-- a stream in an error state, and a failed reading leaves one.
pub record Stream : Type 0 where
  pub good : Bool
  pub rest : List Bytes

abbrev pub failed : Stream → Stream
failed s = record s { good = false }

-- `file >> text`, where the text holds `old`
unfoldable pub read_text : Bytes → Stream → Bytes × Stream
read_text old s = elim s.rest [
  | [] ↦ (old, failed s)
  | text ∷ rest ↦ if s.good then (text, record s { rest = rest }) else (old, s)
]

-- a number that is read from the next text, where there is one
abbrev pub number_of : ℕ → Option ℕ → Stream → List Bytes → ℕ × Stream
number_of limit none s rest = (0, failed s)
number_of limit (some n) s rest =
    if ltb n limit then (n, record s { rest = rest }) else (limit - 1, failed s)

-- `file >> number` for a type with the values below `limit`, where the variable holds `old`
unfoldable pub read_number : ℕ → ℕ → Stream → ℕ × Stream
read_number limit old s = elim s.rest [
  | [] ↦ (old, failed s)
  | text ∷ rest ↦ if s.good then number_of limit (decimal text) s rest else (old, s)
]

-- `text.find("cpu") == 0`
unfoldable pub is_cpu : Bytes → Bool
is_cpu (a ∷ b ∷ c ∷ rest) = a == b'c' && b == b'p' && c == b'u'
is_cpu (a ∷ b ∷ []) = false
is_cpu (a ∷ []) = false
is_cpu [] = false

-- The value of a gauge, in percent: `part / whole`, where `part` has the factor 100 of
-- `non_idle_diff / total_diff * 100.0`.
pub record Share : Type 0 where
  pub part : ℕ
  pub whole : ℕ

-- 0.0
abbrev pub no_share : Share
no_share = record { part = 0; whole = 1 }

-- What the code uses of a CPUInfo. The times that the constructor reads are never used.
pub record CpuInfo : Type 0 where
  pub gauge : Share
  pub last_total : ℕ
  pub last_non_idle : ℕ

abbrev pub CpuUsage : Type 0
CpuUsage = Bytes → Option CpuInfo

abbrev pub no_usage : CpuUsage
no_usage name = none

abbrev pub set_cpu : Bytes → CpuInfo → CpuUsage → CpuUsage
set_cpu name cpu usage other = if memcmp_eq name other then some cpu else usage other

abbrev pub fresh_cpu : CpuInfo
fresh_cpu = record { gauge = no_share; last_total = 0; last_non_idle = 0 }

-- `cpu_usage.insert`: a name that is there keeps its entry
unfoldable pub insert_cpu : Bytes → CpuUsage → CpuUsage
insert_cpu name usage = elim (usage name) [ some cpu ↦ usage | none ↦ set_cpu name fresh_cpu usage ]

-- The types of the numbers behind a name, as the constructor reads them: four of 64 bits, and then six
-- times an `int`.
abbrev pub limits : List ℕ
limits =
    2 ^ 64 ∷ 2 ^ 64 ∷ 2 ^ 64 ∷ 2 ^ 64 ∷ 2 ^ 31 ∷ 2 ^ 31 ∷ 2 ^ 31 ∷ 2 ^ 31 ∷ 2 ^ 31 ∷ 2 ^ 31 ∷ []

unfoldable pub read_all : List ℕ → Stream → Stream
unfolding read_number
read_all [] s = s
read_all (limit ∷ rest) s = read_all rest (read_number limit 0 s).1

-- The loop of the constructor, with the name that the last round has left: until a name is no CPU.
unfoldable pub read_cpus : ℕ → Bytes → Stream → CpuUsage → Run CpuUsage
unfolding read_text read_all insert_cpu
read_cpus zero cpu_name file usage = no_fuel
read_cpus (suc fuel) cpu_name file usage =
    let (name, file') = read_text cpu_name file in
    let rest = read_cpus fuel name (read_all limits file') (insert_cpu name usage) in
    if is_cpu name then rest else done usage

abbrev pub texts_of : List (List Bytes) → List Bytes
texts_of [] = []
texts_of (line ∷ lines) = line ++ texts_of lines

-- The constructor, over the lines of /proc/stat. A file that cannot be opened is a stream in an
-- error state.
unfoldable pub open_cpus : ℕ → Option (List (List Bytes)) → Run CpuUsage
unfolding read_cpus
open_cpus fuel none = read_cpus fuel [] (record { good = false; rest = [] }) no_usage
open_cpus fuel (some lines) =
    read_cpus fuel [] (record { good = true; rest = texts_of lines }) no_usage

-- The times that the code adds up, in the order of the line.
pub record Times : Type 0 where
  pub user : ℕ
  pub nice : ℕ
  pub sys : ℕ
  pub idle : ℕ
  pub iowait : ℕ
  pub irq : ℕ
  pub softirq : ℕ
  pub steal : ℕ

-- The numbers behind the name of a line, each a `long`; `old` is what the variables hold before.
unfoldable pub read_line : Times → Stream → Times
unfolding read_number
read_line old s =
    let (user, s1) = read_number (2 ^ 63) old.user s in
    let (nice, s2) = read_number (2 ^ 63) old.nice s1 in
    let (sys, s3) = read_number (2 ^ 63) old.sys s2 in
    let (idle, s4) = read_number (2 ^ 63) old.idle s3 in
    let (iowait, s5) = read_number (2 ^ 63) old.iowait s4 in
    let (irq, s6) = read_number (2 ^ 63) old.irq s5 in
    let (softirq, s7) = read_number (2 ^ 63) old.softirq s6 in
    let (steal, s8) = read_number (2 ^ 63) old.steal s7 in
    record {
      user = user;
      nice = nice;
      sys = sys;
      idle = idle;
      iowait = iowait;
      irq = irq;
      softirq = softirq;
      steal = steal;
    }

-- sums over 64 bits
abbrev pub non_idle_of : Times → ℕ
non_idle_of t = (t.user + t.nice + t.sys + t.irq + t.softirq + t.steal) % 2 ^ 64

abbrev pub total_of : Times → ℕ
total_of t = (non_idle_of t + t.idle + t.iowait) % 2 ^ 64

-- `uint64_t` subtraction
abbrev pub sub64 : ℕ → ℕ → ℕ
sub64 a b = (a + 2 ^ 64 - b) % 2 ^ 64

-- what a reading makes of the entry of its CPU
unfoldable pub measure : Times → CpuInfo → CpuInfo
measure t cpu =
    let total_diff = sub64 (total_of t) cpu.last_total in
    let non_idle_diff = sub64 (non_idle_of t) cpu.last_non_idle in
    record {
      gauge =
          if ltb 0 cpu.last_total
          then if total_diff == 0
            then no_share
            else record { part = 100 * non_idle_diff; whole = total_diff }
          else cpu.gauge;
      last_total = total_of t;
      last_non_idle = non_idle_of t;
    }

unfoldable pub measure_line : Times → Bytes → List Bytes → CpuUsage → CpuUsage
unfolding read_line measure
measure_line old cpu_name numbers usage = elim (usage cpu_name) [
  | none ↦ usage
  | some cpu ↦
      set_cpu cpu_name (measure (read_line old (record { good = true; rest = numbers })) cpu) usage
]

-- The loop of `GetCPUUsage`, from line `i`; `garbage` is what its variables hold before a line is read.
unfoldable pub measure_lines : (ℕ → Times) → ℕ → List (List Bytes) → CpuUsage → CpuUsage
unfolding measure_line
measure_lines garbage i [] usage = usage
measure_lines garbage i ([] ∷ lines) usage = usage
measure_lines garbage i ((cpu_name ∷ numbers) ∷ lines) usage =
    if is_cpu cpu_name
    then measure_lines garbage (i + 1) lines (measure_line (garbage i) cpu_name numbers usage)
    else usage

unfoldable pub get_cpu_usage : (ℕ → Times) → Option (List (List Bytes)) → CpuUsage → CpuUsage
unfolding measure_lines
get_cpu_usage garbage none usage = usage
get_cpu_usage garbage (some lines) usage = measure_lines garbage 0 lines usage

-- the bytes that are resident, from the texts of /proc/self/statm
unfoldable pub get_memory_used : ℕ → Option (List Bytes) → ℕ
unfolding read_number
get_memory_used pagesize none = 0
get_memory_used pagesize (some texts) =
    let (total_pages, s) = read_number (2 ^ 63) 0 (record { good = true; rest = texts }) in
    (read_number (2 ^ 63) 0 s).0 * pagesize

pub record Gauges : Type 0 where
  pub cpu_usage : CpuUsage
  pub memory_used : ℕ
  pub push_errors_total : ℕ

-- one second of the collector: the two files that it reads, what the variables of `GetCPUUsage` hold
-- before, and the answer of the gateway
pub record Tick : Type 0 where
  pub statm : Option (List Bytes)
  pub stat : Option (List (List Bytes))
  pub garbage : ℕ → Times
  pub status : ℕ

unfoldable pub push_metrics : ℕ → Gauges → Gauges
push_metrics status g =
    if status == 200 then g else record g { push_errors_total = g.push_errors_total + 1 }

-- a round of `MetricsCollector::MainLoop`
unfoldable pub collect_round : ℕ → Tick → Gauges → Gauges
unfolding get_cpu_usage get_memory_used push_metrics
collect_round pagesize r g = push_metrics r.status (record g {
  cpu_usage = get_cpu_usage r.garbage r.stat g.cpu_usage;
  memory_used = get_memory_used pagesize r.statm;
})

-- the rounds until `is_running` is cleared
unfoldable pub collect : ℕ → List Tick → Gauges → Gauges
unfolding collect_round
collect pagesize [] g = g
collect pagesize (r ∷ rounds) g = collect pagesize rounds (collect_round pagesize r g)
