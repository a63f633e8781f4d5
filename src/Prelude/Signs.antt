-- ===== src/Prelude/Signs.antt =====
-- Tests on numbers whose sign is known.
use Prim.Native.Nat.{ℕ, ◌<◌}
use mathlib.Core.Path.{◌≡◌, refl}
use mathlib.Core.Bool.{true, false}
use native.Mathlib.Omega.{arith}
use fifo.Prelude.Tests.{◌==◌}
use fifo.Prelude.Int.{ℤ, pos, negsuc, ltb_ℤ, eqb_ℤ}

pub some-ltb : (m : ℕ) → 0 < m → ltb_ℤ (pos 0) (pos m) ≡ true
some-ltb m h = ground arith

pub not_positive : (n : ℕ) → ltb_ℤ (pos 0) (negsuc n) ≡ false
not_positive n = ground arith

pub negative : (n : ℕ) → ltb_ℤ (negsuc n) (pos 0) ≡ true
negative n = ground arith

pub not_negative : (n : ℕ) → ltb_ℤ (pos n) (pos 0) ≡ false
not_negative n = ground arith

pub positive-cases : (n : ℤ) → ltb_ℤ (pos 0) n ≡ true → (k : ℕ) × (n ≡ pos k) × (0 < k)
positive-cases (pos k) h = (k, refl, ground arith)
positive-cases (negsuc k) h = absurd (ground arith)

pub same_int : (n : ℤ) → eqb_ℤ n n ≡ true
same_int (pos n) = ground arith
same_int (negsuc n) = ground arith

pub pos-ne_zero : (n : ℕ) → 0 < n → (n == 0) ≡ false
pos-ne_zero n h = ground arith

pub all_done : (a b : ℕ) → a ≡ b → (a == b) ≡ true
all_done a b h = ground arith
