-- ===== src/Base/Run.antt =====
-- The outcome of a piece of C: a value, an access outside an object, or fuel that ran out.
use mathlib.Core.Path.{◌≡◌, refl}
use mathlib.Core.Logic.{◌≢◌}
use mathlib.Core.Bool.{Bool, true, false}
use grpc_server.Base.Tests.{if◌then◌else◌}
use mathlib.Core.Option.{Option, none, some}

pub data Run {ℓ} (A : Type ℓ) : Type ℓ where
  done : A → Run A
  fault : Run A
  no_fuel : Run A

infixl 5 ◌>>=◌
abbrev pub ◌>>=◌ {ℓ κ} : {A : Type ℓ} {B : Type κ} → Run A → (A → Run B) → Run B
done a >>= f = f a
fault >>= f = fault
no_fuel >>= f = no_fuel

-- A value that may be missing because it lies outside an object.
abbrev pub or_fault {ℓ} : {A : Type ℓ} → Option A → Run A
or_fault none = fault
or_fault (some a) = done a

-- What a piece of code may return: not `no_fuel`, and a value only with `P`.
abbrev pub Gives {ℓ} : {A : Type ℓ} → (A → Type 0) → Run A → Type 0
Gives P (done a) = P a
Gives P fault = Unit
Gives P no_fuel = ⊥

pub Gives-bind {ℓ} :
    {A B : Type ℓ} (P : B → Type 0) (m : Run A) (f : A → Run B)
    → Gives (λ a. Gives P (f a)) m
    → Gives P (m >>= f)
Gives-bind P (done a) f h = h
Gives-bind P fault f h = tt
Gives-bind P no_fuel f h = h

pub Gives-all {ℓ} :
    {A : Type ℓ} (P : A → Type 0) (m : Run A)
    → m ≢ no_fuel
    → ((a : A) → m ≡ done a → P a)
    → Gives P m
Gives-all P (done a) total h = h a refl
Gives-all P fault total h = tt
Gives-all P no_fuel total h = absurd (total refl)

pub Gives-if {ℓ} :
    {A : Type ℓ} (P : A → Type 0) (b : Bool) (m n : Run A)
    → (b ≡ true → Gives P m)
    → (b ≡ false → Gives P n)
    → Gives P (if b then m else n)
Gives-if P true m n hm hn = hm refl
Gives-if P false m n hm hn = hn refl

pub Gives-weaken {ℓ} :
    {A : Type ℓ} (P Q : A → Type 0) (m : Run A) → Gives P m → ((a : A) → P a → Q a) → Gives Q m
Gives-weaken P Q (done a) h k = k a h
Gives-weaken P Q fault h k = tt
Gives-weaken P Q no_fuel h k = h

pub Gives-or_fault {ℓ} :
    {A : Type ℓ} (P : A → Type 0) (o : Option A) → ((a : A) → P a) → Gives P (or_fault o)
Gives-or_fault P none h = tt
Gives-or_fault P (some a) h = h a

-- Anything but `no_fuel`.
abbrev pub Ends {ℓ} : {A : Type ℓ} → Run A → Type 0
Ends = Gives (λ _. Unit)

-- A step that gives `P`, and what follows it.
pub Gives-then {ℓ} :
    {A B : Type ℓ} (P : A → Type 0) (Q : B → Type 0) (m : Run A) (f : A → Run B)
    → Gives P m
    → ((a : A) → P a → Gives Q (f a))
    → Gives Q (m >>= f)
Gives-then P Q (done a) f h k = k a h
Gives-then P Q fault f h k = tt
Gives-then P Q no_fuel f h k = h

-- a step that ends, and what follows it
pub Gives-bind-Ends {ℓ} :
    {A B : Type ℓ} (P : B → Type 0) (m : Run A) (f : A → Run B)
    → Ends m
    → ((a : A) → Gives P (f a))
    → Gives P (m >>= f)
Gives-bind-Ends P m f e k = Gives-then (λ _. Unit) P m f e (λ a _. k a)

-- two results of one run
pub Gives-both {ℓ} :
    {A : Type ℓ} (P Q : A → Type 0) (m : Run A) → Gives P m → Gives Q m → Gives (λ a. P a × Q a) m
Gives-both P Q (done a) p q = (p, q)
Gives-both P Q fault p q = tt
Gives-both P Q no_fuel p q = p
