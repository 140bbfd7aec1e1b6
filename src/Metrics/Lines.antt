-- ===== src/Metrics/Lines.antt =====
-- What a reading makes of the entry of a CPU, line by line.
use grpc_server.Base.{
  ℕ, ◌+◌, ◌^◌, ◌<◌, ◌≡◌, ◌≢◌, ◌⊎◌, refl, ap, ◌∙◌, true, some, List, [], ◌∷◌, Bytes, memcmp_eq,
  memcmp_eq_iff, ltb, Bool-cases, Option-cases, inl, inr, arith,
}
use grpc_server.Metrics.{
  decimal, read_number, is_cpu, CpuInfo, CpuUsage, Times, read_line, measure, measure_line,
  measure_lines,
}

-- a text that is read as the `long` `n`
abbrev pub IsLong : Bytes → ℕ → Type 0
IsLong text n = (decimal text ≡ some n) × (n < 2 ^ 63)

-- The texts begin with the eight times.
abbrev pub IsTimes : Times → List Bytes → Type 0
IsTimes t (a ∷ b ∷ c ∷ d ∷ e ∷ f ∷ g ∷ h ∷ rest) =
    IsLong a t.user
    × IsLong b t.nice
    × IsLong c t.sys
    × IsLong d t.idle
    × IsLong e t.iowait
    × IsLong f t.irq
    × IsLong g t.softirq
    × IsLong h t.steal
IsTimes t texts = ⊥

-- no line has the name
abbrev pub Absent : Bytes → List (List Bytes) → Type 0
Absent name [] = Unit
Absent name ([] ∷ lines) = Absent name lines
Absent name ((other ∷ numbers) ∷ lines) = (other ≢ name) × Absent name lines

-- One line has the name and the times, and all before it are of CPUs.
abbrev pub Shows : Bytes → Times → List (List Bytes) → Type 0
Shows name t [] = ⊥
Shows name t ([] ∷ lines) = ⊥
Shows name t ((other ∷ numbers) ∷ lines) =
    (is_cpu other ≡ true)
    × (((other ≡ name) × IsTimes t numbers × Absent name lines)
        ⊎ ((other ≢ name) × Shows name t lines))

-- the times without a bound
abbrev pub busy : Times → ℕ
busy t = t.user + t.nice + t.sys + t.irq + t.softirq + t.steal

abbrev pub waiting : Times → ℕ
waiting t = t.idle + t.iowait

read_number-IsLong :
    (old n : ℕ) (text : Bytes) (rest : List Bytes)
    → IsLong text n
    → read_number (2 ^ 63) old (record { good = true; rest = text ∷ rest })
      ≡ (n, record { good = true; rest = rest })
unfolding read_number
read_number-IsLong old n text rest (e, lt) =
    let small : ltb n (2 ^ 63) ≡ true = ground arith in rw (e, small) refl

read_line-IsTimes :
    (old t : Times) (numbers : List Bytes)
    → IsTimes t numbers
    → read_line old (record { good = true; rest = numbers }) ≡ t
unfolding read_line
read_line-IsTimes old t (a ∷ b ∷ c ∷ d ∷ e ∷ f ∷ g ∷ h ∷ rest) (pa, pb, pc, pd, pe, pf, pg, ph) =
    rw
      (
        read_number-IsLong old.user t.user a _ pa,
        read_number-IsLong old.nice t.nice b _ pb,
        read_number-IsLong old.sys t.sys c _ pc,
        read_number-IsLong old.idle t.idle d _ pd,
        read_number-IsLong old.iowait t.iowait e _ pe,
        read_number-IsLong old.irq t.irq f _ pf,
        read_number-IsLong old.softirq t.softirq g _ pg,
        read_number-IsLong old.steal t.steal h _ ph,
      )
      refl
read_line-IsTimes old t _ h = absurd h

measure_line-same :
    (old t : Times) (name : Bytes) (numbers : List Bytes) (usage : CpuUsage) (cpu : CpuInfo)
    → IsTimes t numbers
    → usage name ≡ some cpu
    → measure_line old name numbers usage name ≡ some (measure t cpu)
unfolding measure_line
measure_line-same old t name numbers usage cpu times known =
    rw (measure_line, known, (memcmp_eq_iff name name).1 refl)
      (ap (λ (read : Times). some (measure read cpu)) (read_line-IsTimes old t numbers times))

measure_line-other :
    (old : Times) (other name : Bytes) (numbers : List Bytes) (usage : CpuUsage)
    → other ≢ name
    → measure_line old other numbers usage name ≡ usage name
unfolding measure_line
measure_line-other old other name numbers usage ne = ground (arith, memcmp_eq_iff other name)

measure_line-known :
    (old : Times) (other name : Bytes) (numbers : List Bytes) (usage : CpuUsage) (cpu : CpuInfo)
    → usage name ≡ some cpu
    → (cpu' : CpuInfo) × (measure_line old other numbers usage name ≡ some cpu')
unfolding measure_line
measure_line-known old other name numbers usage cpu known = elim (Option-cases (usage other)) [
  | inl e ↦ (cpu, rw (measure_line, e) known)
  | inr (cpu1, e) ↦ elim (Bool-cases (memcmp_eq other name)) [
    | inl same ↦ (
      measure (read_line old (record { good = true; rest = numbers })) cpu1,
      rw (measure_line, e, same) refl,
    )
    | inr differ ↦ (cpu, rw (measure_line, e, differ) known)
  ]
]

measure_lines-Absent :
    (garbage : ℕ → Times) (i : ℕ) (name : Bytes) (lines : List (List Bytes)) (usage : CpuUsage)
    → Absent name lines
    → measure_lines garbage i lines usage name ≡ usage name
unfolding measure_lines
measure_lines-Absent garbage i name [] usage absent = refl
measure_lines-Absent garbage i name ([] ∷ lines) usage absent = refl
measure_lines-Absent garbage i name ((other ∷ numbers) ∷ lines) usage (ne, absent) =
    elim (Bool-cases (is_cpu other)) [
      | inr e ↦ rw e refl
      | inl e ↦ rw e (
          measure_lines-Absent garbage (i + 1) name lines
            (measure_line (garbage i) other numbers usage) absent
          ∙ measure_line-other (garbage i) other name numbers usage ne)
    ]

pub measure_lines-Shows :
    (garbage : ℕ → Times) (i : ℕ) (name : Bytes) (t : Times) (lines : List (List Bytes))
    (usage : CpuUsage) (cpu : CpuInfo)
    → Shows name t lines
    → usage name ≡ some cpu
    → measure_lines garbage i lines usage name ≡ some (measure t cpu)
unfolding measure_lines
measure_lines-Shows garbage i name t [] usage cpu h known = absurd h
measure_lines-Shows garbage i name t ([] ∷ lines) usage cpu h known = absurd h
measure_lines-Shows garbage i name t ((other ∷ numbers) ∷ lines) usage cpu
      (is, inl (same, times, absent)) known =
    rw is (
      measure_lines-Absent garbage (i + 1) name lines (measure_line (garbage i) other numbers usage)
        absent
      ∙ (rw same (measure_line-same (garbage i) t name numbers usage cpu times known)))
measure_lines-Shows garbage i name t ((other ∷ numbers) ∷ lines) usage cpu (is, inr (ne, shows))
      known =
    rw is (
      measure_lines-Shows garbage (i + 1) name t lines
        (measure_line (garbage i) other numbers usage) cpu shows
        (measure_line-other (garbage i) other name numbers usage ne ∙ known))

-- A CPU that is registered stays so.
pub measure_lines-known :
    (garbage : ℕ → Times) (i : ℕ) (name : Bytes) (lines : List (List Bytes)) (usage : CpuUsage)
    (cpu : CpuInfo)
    → usage name ≡ some cpu
    → (cpu' : CpuInfo) × (measure_lines garbage i lines usage name ≡ some cpu')
unfolding measure_lines
measure_lines-known garbage i name [] usage cpu known = (cpu, known)
measure_lines-known garbage i name ([] ∷ lines) usage cpu known = (cpu, known)
measure_lines-known garbage i name ((other ∷ numbers) ∷ lines) usage cpu known =
    elim (Bool-cases (is_cpu other)) [
      | inr e ↦ (cpu, rw e known)
      | inl e ↦
          let (cpu1, known1) = measure_line-known (garbage i) other name numbers usage cpu known in
          let (cpu2, known2) =
            measure_lines-known garbage (i + 1) name lines
              (measure_line (garbage i) other numbers usage) cpu1 known1 in
          (cpu2, rw e known2)
    ]
