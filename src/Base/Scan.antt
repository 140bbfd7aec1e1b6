-- ===== src/Base/Scan.antt =====
-- The loops `for (i...) { if (stop) break; if (hit) return true; } return false;` over an array.
use Prim.Native.Nat.{ℕ, zero, suc, ◌≤◌}
use mathlib.Core.Path.{◌≡◌, refl}
use mathlib.Core.Logic.{◌↔◌, inl, inr}
use mathlib.Core.Bool.{Bool, true, false}
use mathlib.Core.Option.{some}
use mathlib.Core.List.{List, [], ◌∷◌, ◌++◌}
use native.Mathlib.Omega.{arith}
use grpc_server.Base.Tests.{if◌then◌else◌, Bool-cases}
use grpc_server.Base.Lists.{get_elem?, take}

module _ {A : Type 0} where
  unfoldable pub scan_rows : (A → Bool) → (A → Bool) → List A → Bool
  scan_rows stop hit [] = false
  scan_rows stop hit (r ∷ rows) =
      let rest = scan_rows stop hit rows in if stop r then false else if hit r then true else rest

  -- Row `i` is a hit, and no row up to it is a stop row.
  abbrev pub Found : (A → Bool) → (A → Type 0) → List A → Type 0
  Found stop Hit rows =
      (i : ℕ) × (r : A) × (get_elem? rows i ≡ some r)
      × Hit r
      × ((j : ℕ) (s : A) → j ≤ i → get_elem? rows j ≡ some s → stop s ≡ false)

module _ {A : Type 0} (stop hit : A → Bool) (Hit : A → Type 0)
    (hit_iff : (r : A) → (hit r ≡ true) ↔ Hit r) where
  Found-here : (r : A) (rows : List A) → stop r ≡ false → Hit r → Found stop Hit (r ∷ rows)
  Found-here r rows go h = (0, r, refl, h, before)
    where
      before : (j : ℕ) (s : A) → j ≤ 0 → get_elem? (r ∷ rows) j ≡ some s → stop s ≡ false
      before zero s le e = ground arith
      before (suc j) s le e = absurd (omega arith)

  Found-there :
      (r : A) (rows : List A) → stop r ≡ false → Found stop Hit rows → Found stop Hit (r ∷ rows)
  Found-there r rows go (i, s, e, h, before) = (suc i, s, e, h, before')
    where
      before' : (j : ℕ) (s' : A) → j ≤ suc i → get_elem? (r ∷ rows) j ≡ some s' → stop s' ≡ false
      before' zero s' le e' = ground arith
      before' (suc j) s' le e' = before j s' (omega arith) e'

  Found-scan : (rows : List A) → scan_rows stop hit rows ≡ true → Found stop Hit rows
  unfolding scan_rows
  Found-scan [] e = cc
  Found-scan (r ∷ rows) e = elim (Bool-cases (stop r)) [
    | inl halt ↦ cc (rw halt at e)
    | inr go ↦ elim (Bool-cases (hit r)) [
      | inl yes_hit ↦ Found-here r rows go ((hit_iff r).0 yes_hit)
      | inr no_hit ↦ Found-there r rows go (Found-scan rows (ground arith))
    ]
  ]

  scan-Found : (rows : List A) → Found stop Hit rows → scan_rows stop hit rows ≡ true
  unfolding scan_rows
  scan-Found [] (i, r, e, h, before) = cc
  scan-Found (r ∷ rows) (zero, s, e, h, before) =
      ground (arith, before 0 r (omega arith) refl, (hit_iff s).1 h)
  scan-Found (r ∷ rows) (suc i, s, e, h, before) = ground (
    arith,
    before 0 r (omega arith) refl,
    scan-Found rows (i, s, e, h, λ j s' le e'. before (suc j) s' (omega arith) e'),
  )

  pub scan_rows_iff : (rows : List A) → (scan_rows stop hit rows ≡ true) ↔ Found stop Hit rows
  scan_rows_iff rows = (Found-scan rows, scan-Found rows)

module _ {A : Type 0} (stop hit : A → Bool) where
  -- What stands behind a stop row is never read, however many rows the loop may take.
  pub scan_rows_hidden :
      (n : ℕ) (pre : List A) (z : A) (post : List A)
      → stop z ≡ true
      → scan_rows stop hit (take n (pre ++ z ∷ post)) ≡ scan_rows stop hit (take n pre)
  unfolding scan_rows
  scan_rows_hidden zero pre z post h = refl
  scan_rows_hidden (suc n) [] z post h = rw h
  scan_rows_hidden (suc n) (r ∷ pre) z post h = rw (scan_rows_hidden n pre z post h)

  -- Rows that stop the loop are never hits, so a value that matches only such rows is not found.
  pub scan_rows_stop :
      (n : ℕ) (rows : List A)
      → ((r : A) → hit r ≡ true → stop r ≡ true)
      → scan_rows stop hit (take n rows) ≡ false
  unfolding scan_rows
  scan_rows_stop zero rows h = refl
  scan_rows_stop (suc n) [] h = refl
  scan_rows_stop (suc n) (r ∷ rows) h = ground (arith, h r, scan_rows_stop n rows h)
