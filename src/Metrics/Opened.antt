-- ===== src/Metrics/Opened.antt =====
-- The loop of the constructor over /proc/stat: where it ends, and where it does not.
use mathlib.Core.List.{append_assoc}
use native.Mathlib.Nat.{zero-add, suc-add}
use grpc_server.Base.{
  ◌-◌, ◌||◌, sym, ap, ◌∙◌, ◌+◌, ℕ, zero, suc, ◌<◌, ◌≡◌, refl, Bool, true, false, none, some, List,
  [], ◌∷◌, ◌++◌, Bytes, memcmp_eq, memcmp_eq_iff, length, Bool-cases, inl, inr, arith,
  if◌then◌else◌,
}
use grpc_server.Base.Run.{done, no_fuel}
use grpc_server.Metrics.{
  Stream, read_text, is_cpu, CpuUsage, no_usage, fresh_cpu, insert_cpu, limits, read_all, read_cpus,
  texts_of, open_cpus,
}
use grpc_server.Metrics.Streams.{read_cpus-round, ReadsAll, AreCpus, read_all-unfit, read_cpus-bad}

read_cpus-zero :
    (old : Bytes) (s : Stream) (usage : CpuUsage) → read_cpus zero old s usage ≡ no_fuel
unfolding read_cpus
read_cpus-zero old s usage = refl

-- a round that meets a CPU, and the last round
read_cpus-first :
    (fuel : ℕ) (old name : Bytes) (rest : List Bytes) (usage : CpuUsage)
    → is_cpu name ≡ true
    → read_cpus (suc fuel) old (record { good = true; rest = name ∷ rest }) usage
      ≡ read_cpus fuel name
          (read_all limits (record { good = true; rest = rest }))
          (insert_cpu name usage)
unfolding read_cpus read_text
read_cpus-first fuel old name rest usage cpu = rw cpu refl

read_cpus-other :
    (fuel : ℕ) (old name : Bytes) (rest : List Bytes) (usage : CpuUsage)
    → is_cpu name ≡ false
    → read_cpus (suc fuel) old (record { good = true; rest = name ∷ rest }) usage ≡ done usage
unfolding read_cpus read_text
read_cpus-other fuel old name rest usage other = rw other refl

-- The rounds over the lines of CPUs leave their names and the rest of the file.
register : List (List Bytes) → CpuUsage → CpuUsage
register [] usage = usage
register ([] ∷ lines) usage = usage
register ((name ∷ numbers) ∷ lines) usage = register lines (insert_cpu name usage)

-- the name in the variable after the lines
last_name : Bytes → List (List Bytes) → Bytes
last_name name [] = name
last_name name ([] ∷ lines) = last_name name lines
last_name name ((c ∷ numbers) ∷ lines) = last_name c lines

read_cpus-AreCpus :
    (cpus : List (List Bytes)) (fuel : ℕ) (old : Bytes) (rest : List Bytes) (usage : CpuUsage)
    → AreCpus cpus
    → read_cpus
        (length cpus + fuel)
        old
        (record { good = true; rest = texts_of cpus ++ rest })
        usage
      ≡ read_cpus fuel
          (last_name old cpus)
          (record { good = true; rest = rest })
          (register cpus usage)
unfolding last_name register
read_cpus-AreCpus [] fuel old rest usage ok = rw (zero-add fuel) refl
read_cpus-AreCpus ([] ∷ lines) fuel old rest usage ok = elim ok [ ]
read_cpus-AreCpus ((name ∷ numbers) ∷ lines) fuel old rest usage (cpu, numeric, ok) =
    rw (suc-add (length lines) fuel, append_assoc numbers (texts_of lines) rest)
      (read_cpus-round (length lines + fuel) old name numbers (texts_of lines ++ rest) usage cpu
          numeric
        ∙ read_cpus-AreCpus lines fuel name rest (insert_cpu name usage) ok)

-- a line of `lines` has the name
abbrev pub is_listed : Bytes → List (List Bytes) → Bool
is_listed name [] = false
is_listed name ([] ∷ lines) = false
is_listed name ((other ∷ numbers) ∷ lines) = memcmp_eq other name || is_listed name lines

insert_cpu_lem :
    (other name : Bytes) (usage : CpuUsage)
    → insert_cpu other usage name ≡ elim (usage name) [
      | some cpu ↦ some cpu
      | none ↦ if memcmp_eq other name then some fresh_cpu else none
    ]
unfolding insert_cpu
insert_cpu_lem other name usage = elim (Bool-cases (memcmp_eq other name)) [
  | inl same ↦
      let e : other ≡ name = (memcmp_eq_iff other name).0 same in ground (arith, ap usage e)
  | inr differ ↦ ground arith
]

register_lem :
    (lines : List (List Bytes)) (name : Bytes) (usage : CpuUsage)
    → register lines usage name ≡ elim (usage name) [
      | some cpu ↦ some cpu
      | none ↦ if is_listed name lines then some fresh_cpu else none
    ]
unfolding register
register_lem [] name usage = ground arith
register_lem ([] ∷ lines) name usage = ground arith
register_lem ((other ∷ numbers) ∷ lines) name usage =
    ground
      (arith, register_lem lines name (insert_cpu other usage), insert_cpu_lem other name usage)

texts_of-append : (xs ys : List (List Bytes)) → texts_of (xs ++ ys) ≡ texts_of xs ++ texts_of ys
texts_of-append [] ys = refl
texts_of-append (x ∷ xs) ys =
    ap (λ (t : List Bytes). x ++ t) (texts_of-append xs ys)
    ∙ sym (append_assoc x (texts_of xs) (texts_of ys))

-- If /proc/stat begins with lines that are the name of a CPU and ten numbers that fit their types, and
-- goes on with a line of another name, the loop of the constructor ends after one round for each of
-- these lines and one more, and the CPUs of these lines are registered, and no others.
pub open_cpus-registers :
    (cpus others : List (List Bytes)) (word : Bytes) (rest : List Bytes) (fuel : ℕ)
    → AreCpus cpus
    → is_cpu word ≡ false
    → length cpus < fuel
    → (usage : CpuUsage) × (open_cpus fuel (some (cpus ++ ((word ∷ rest) ∷ others))) ≡ done usage)
      × ((name : Bytes) → usage name ≡ (if is_listed name cpus then some fresh_cpu else none))
unfolding open_cpus
open_cpus-registers cpus others word rest fuel ok other enough =
    let texts = rest ++ texts_of others in
    let more : fuel ≡ length cpus + suc (fuel - suc (length cpus)) = omega arith in
    (
      register cpus no_usage,
      rw (more, texts_of-append cpus ((word ∷ rest) ∷ others))
          (read_cpus-AreCpus cpus (suc (fuel - suc (length cpus))) [] (word ∷ texts) no_usage ok
            ∙ read_cpus-other (fuel - suc (length cpus)) (last_name [] cpus) word texts
                (register cpus no_usage) other),
      λ name. register_lem cpus name no_usage,
    )

read_cpus-hangs :
    (cpus : List (List Bytes)) (fuel : ℕ) (old name : Bytes) (rest : List Bytes) (usage : CpuUsage)
    → AreCpus cpus
    → is_cpu name ≡ true
    → ¬ ReadsAll limits rest
    → read_cpus fuel old (record { good = true; rest = texts_of cpus ++ (name ∷ rest) }) usage
      ≡ no_fuel
read_cpus-hangs cpus zero old name rest usage ok cpu unfit = read_cpus-zero old _ usage
read_cpus-hangs [] (suc fuel) old name rest usage ok cpu unfit =
    rw (read_cpus-first fuel old name rest usage cpu) (
      read_cpus-bad fuel name (read_all limits (record { good = true; rest = rest })) _ cpu
        (read_all-unfit limits rest unfit))
read_cpus-hangs ([] ∷ cpus) (suc fuel) old name rest usage ok cpu unfit = elim ok [ ]
read_cpus-hangs ((c ∷ numbers) ∷ cpus) (suc fuel) old name rest usage (is, numeric, ok) cpu unfit =
    rw (append_assoc numbers (texts_of cpus) (name ∷ rest)) (
      read_cpus-round fuel old c numbers (texts_of cpus ++ (name ∷ rest)) usage is numeric
      ∙ read_cpus-hangs cpus fuel c name rest (insert_cpu c usage) ok cpu unfit)

-- If one of the ten texts behind the name of a CPU is no number that fits its type, a number of 2 ^ 31
-- or more from the fifth on included, or if there are fewer, the loop of the constructor never ends.
pub open_cpus_hangs :
    (cpus others : List (List Bytes)) (name : Bytes) (numbers : List Bytes) (fuel : ℕ)
    → AreCpus cpus
    → is_cpu name ≡ true
    → ¬ ReadsAll limits (numbers ++ texts_of others)
    → open_cpus fuel (some (cpus ++ ((name ∷ numbers) ∷ others))) ≡ no_fuel
unfolding open_cpus
open_cpus_hangs cpus others name numbers fuel ok cpu unfit =
    rw (texts_of-append cpus ((name ∷ numbers) ∷ others))
      (read_cpus-hangs cpus fuel [] name (numbers ++ texts_of others) no_usage ok cpu unfit)
