-- ===== src/Base/CString.antt =====
-- C strings and byte arrays. A `char` buffer is the list of its bytes; a string is what stands
-- before the first NUL.
use Prim.Native.Nat.{ℕ}
use mathlib.Core.Path.{◌≡◌}
use mathlib.Core.Logic.{◌↔◌}
use mathlib.Core.Bool.{Bool, true, false, ◌&&◌}
use mathlib.Core.List.{List, [], ◌∷◌}
use native.Mathlib.Omega.{arith}
use grpc_server.Base.Tests.{◌==◌, if◌then◌else◌}

abbrev pub Bytes : Type 0
Bytes = List ℕ

-- The string that a buffer holds. A buffer of the program has a NUL; the end of one that has
-- none is read as a NUL.
unfoldable pub c_str : Bytes → Bytes
c_str [] = []
c_str (b ∷ bs) = let rest = c_str bs in if b == 0 then [] else b ∷ rest

-- memcmp(a, b, n) == 0 for two arrays of n bytes
unfoldable pub memcmp_eq : Bytes → Bytes → Bool
memcmp_eq [] [] = true
memcmp_eq [] (b ∷ bs) = false
memcmp_eq (a ∷ as') [] = false
memcmp_eq (a ∷ as') (b ∷ bs) = a == b && memcmp_eq as' bs

-- strcmp(a, b) == 0
unfoldable pub strcmp_eq : Bytes → Bytes → Bool
strcmp_eq a b = memcmp_eq (c_str a) (c_str b)

-- buffer[0] == '\0'
unfoldable pub starts_nul : Bytes → Bool
starts_nul [] = true
starts_nul (b ∷ bs) = b == 0

pub memcmp_eq_iff : (a b : Bytes) → (memcmp_eq a b ≡ true) ↔ (a ≡ b)
unfolding memcmp_eq
memcmp_eq_iff [] [] = ground arith
memcmp_eq_iff [] (b ∷ bs) = ground arith
memcmp_eq_iff (a ∷ as') [] = ground arith
memcmp_eq_iff (a ∷ as') (b ∷ bs) = ground (arith, memcmp_eq_iff as' bs)

pub strcmp_eq_iff : (a b : Bytes) → (strcmp_eq a b ≡ true) ↔ (c_str a ≡ c_str b)
unfolding strcmp_eq
strcmp_eq_iff a b = memcmp_eq_iff (c_str a) (c_str b)
