-- ===== src/Metrics/Streams.antt =====
-- Reading numbers from a stream, and what an error state does to the loop of the constructor.
use grpc_server.Base.{
  ℕ, zero, suc, ◌<◌, ◌≡◌, ◌⊎◌, refl, true, false, some, List, [], ◌∷◌, ◌++◌, Bytes, ltb, Bool-cases,
  Option-cases, inl, inr, arith,
}
use grpc_server.Base.Run.{no_fuel}
use grpc_server.Metrics.{
  decimal, Stream, read_text, read_number, is_cpu, CpuUsage, insert_cpu, limits, read_all,
  read_cpus,
}

-- a text that is read as a number below `limit`
abbrev pub Fits : ℕ → Bytes → Type 0
Fits limit text = (n : ℕ) × (decimal text ≡ some n) × (n < limit)

-- The texts begin with a number for each limit.
abbrev pub ReadsAll : List ℕ → List Bytes → Type 0
ReadsAll [] texts = Unit
ReadsAll (limit ∷ ls) [] = ⊥
ReadsAll (limit ∷ ls) (text ∷ texts) = Fits limit text × ReadsAll ls texts

-- The texts are a number for each limit.
abbrev pub AreNumbers : List ℕ → List Bytes → Type 0
AreNumbers [] [] = Unit
AreNumbers [] (text ∷ texts) = ⊥
AreNumbers (limit ∷ ls) [] = ⊥
AreNumbers (limit ∷ ls) (text ∷ texts) = Fits limit text × AreNumbers ls texts

-- Each line is the name of a CPU and ten numbers that fit.
abbrev pub AreCpus : List (List Bytes) → Type 0
AreCpus [] = Unit
AreCpus ([] ∷ lines) = ⊥
AreCpus ((name ∷ numbers) ∷ lines) =
    (is_cpu name ≡ true) × AreNumbers limits numbers × AreCpus lines

read_number-Fits :
    (limit old : ℕ) (text : Bytes) (rest : List Bytes)
    → Fits limit text
    → (read_number limit old (record { good = true; rest = text ∷ rest })).1
      ≡ record { good = true; rest = rest }
unfolding read_number
read_number-Fits limit old text rest (n, e, lt) =
    let small : ltb n limit ≡ true = ground arith in rw (e, small) refl

pub read_all-AreNumbers :
    (ls : List ℕ) (numbers rest : List Bytes)
    → AreNumbers ls numbers
    → read_all ls (record { good = true; rest = numbers ++ rest })
      ≡ record { good = true; rest = rest }
unfolding read_all
read_all-AreNumbers [] [] rest ok = refl
read_all-AreNumbers [] (text ∷ texts) rest ok = elim ok [ ]
read_all-AreNumbers (l ∷ ls) [] rest ok = elim ok [ ]
read_all-AreNumbers (l ∷ ls) (text ∷ texts) rest (fits, ok) =
    rw (read_number-Fits l 0 text (texts ++ rest) fits) (read_all-AreNumbers ls texts rest ok)

read_number-bad :
    (limit old : ℕ) (s : Stream) → s.good ≡ false → (read_number limit old s).1.good ≡ false
unfolding read_number
read_number-bad limit old s bad = ground arith

pub read_all-bad : (ls : List ℕ) (s : Stream) → s.good ≡ false → (read_all ls s).good ≡ false
unfolding read_all
read_all-bad [] s bad = bad
read_all-bad (l ∷ ls) s bad = read_all-bad ls (read_number l 0 s).1 (read_number-bad l 0 s bad)

-- a text that does not fit
read_number-unfit :
    (limit old : ℕ) (text : Bytes) (rest : List Bytes)
    → ¬ Fits limit text
    → (read_number limit old (record { good = true; rest = text ∷ rest })).1.good ≡ false
unfolding read_number
read_number-unfit limit old text rest unfit = elim (Option-cases (decimal text)) [
  | inl e ↦ rw e refl
  | inr (n, e) ↦ elim (Bool-cases (ltb n limit)) [
    | inl small ↦ absurd (unfit (n, e, ground arith))
    | inr large ↦ rw (e, large) refl
  ]
]

read_number-end :
    (limit old : ℕ) → (read_number limit old (record { good = true; rest = [] })).1.good ≡ false
unfolding read_number
read_number-end limit old = refl

Fits-cases : (limit : ℕ) (text : Bytes) → Fits limit text ⊎ (¬ Fits limit text)
Fits-cases limit text = elim (Option-cases (decimal text)) [
  | inl e ↦ inr (λ (n, at_n, lt). cc)
  | inr (n, e) ↦ elim (Bool-cases (ltb n limit)) [
    | inl small ↦ inl (n, e, ground arith)
    | inr large ↦ inr (λ (m, at_m, lt). ground arith)
  ]
]

pub read_all-unfit :
    (ls : List ℕ) (texts : List Bytes)
    → ¬ ReadsAll ls texts
    → (read_all ls (record { good = true; rest = texts })).good ≡ false
unfolding read_all
read_all-unfit [] texts unfit = absurd (unfit tt)
read_all-unfit (l ∷ ls) [] unfit = read_all-bad ls _ (read_number-end l 0)
read_all-unfit (l ∷ ls) (text ∷ texts) unfit = elim (Fits-cases l text) [
  | inl fits ↦
      rw (read_all, read_number-Fits l 0 text texts fits)
        (read_all-unfit ls texts (λ all. unfit (fits, all)))
  | inr unfit' ↦ read_all-bad ls _ (read_number-unfit l 0 text texts unfit')
]

pub read_text-bad :
    (name : Bytes) (s : Stream)
    → s.good ≡ false
    → ((read_text name s).0 ≡ name) × ((read_text name s).1.good ≡ false)
unfolding read_text
read_text-bad name s bad = ground arith

-- In an error state the name of the last CPU is never replaced.
pub read_cpus-bad :
    (fuel : ℕ) (name : Bytes) (s : Stream) (usage : CpuUsage)
    → is_cpu name ≡ true
    → s.good ≡ false
    → read_cpus fuel name s usage ≡ no_fuel
unfolding read_cpus
read_cpus-bad zero name s usage cpu bad = refl
read_cpus-bad (suc fuel) name s usage cpu bad =
    let (same, bad') = read_text-bad name s bad in
    rw (read_cpus, same, cpu)
      (read_cpus-bad fuel name (read_all limits (read_text name s).1) (insert_cpu name usage) cpu
        (read_all-bad limits (read_text name s).1 bad'))

-- a round over the line of a CPU
pub read_cpus-round :
    (fuel : ℕ) (old name : Bytes) (numbers rest : List Bytes) (usage : CpuUsage)
    → is_cpu name ≡ true
    → AreNumbers limits numbers
    → read_cpus (suc fuel) old (record { good = true; rest = name ∷ (numbers ++ rest) }) usage
      ≡ read_cpus fuel name (record { good = true; rest = rest }) (insert_cpu name usage)
unfolding read_cpus read_text
read_cpus-round fuel old name numbers rest usage cpu numeric =
    rw (cpu, read_all-AreNumbers limits numbers rest numeric) refl
