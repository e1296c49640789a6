-- ===== src/Base/Equality.antt =====
-- Decidable equality of keys as an instance, for the hash maps.
use Prim.Native.Nat.{ℕ}
use mathlib.Core.Path.{◌≡◌}
use mathlib.Core.Logic.{◌↔◌}
use mathlib.Core.Bool.{Bool, true, false, ◌&&◌}
use mathlib.Core.List.{List, [], ◌∷◌}
use native.Mathlib.Omega.{arith}
use async_event_loop.Base.Tests.{◌==◌}
use async_event_loop.Base.Int.{ℤ, int_eqb, int_eqb_iff}

pub record Eq {ℓ} (A : Type ℓ) : Type ℓ where
  pub beq : A → A → Bool
  pub beq_iff : (a b : A) → (beq a b ≡ true) ↔ (a ≡ b)

instance abbrev pub int_eq : Eq ℤ
int_eq = record { beq = int_eqb; beq_iff = int_eqb_iff }

-- `std::string`, `std::vector<char>` and the buffers: a list of bytes.
abbrev pub Bytes : Type 0
Bytes = List ℕ

abbrev pub bytes_eqb : Bytes → Bytes → Bool
bytes_eqb [] [] = true
bytes_eqb [] (b ∷ bs) = false
bytes_eqb (a ∷ xs) [] = false
bytes_eqb (a ∷ xs) (b ∷ ys) = (a == b) && bytes_eqb xs ys

pub bytes_eqb_iff : (xs ys : Bytes) → (bytes_eqb xs ys ≡ true) ↔ (xs ≡ ys)
bytes_eqb_iff [] [] = ground arith
bytes_eqb_iff [] (b ∷ bs) = ground arith
bytes_eqb_iff (a ∷ xs) [] = ground arith
bytes_eqb_iff (a ∷ xs) (b ∷ ys) = ground (arith, bytes_eqb_iff xs ys)

instance abbrev pub bytes_eq : Eq Bytes
bytes_eq = record { beq = bytes_eqb; beq_iff = bytes_eqb_iff }
