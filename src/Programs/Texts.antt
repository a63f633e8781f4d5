-- ===== src/Programs/Texts.antt =====
-- What the client program says, written down without its code.
use fifo.Prelude.{ℕ, zero, suc, ◌+◌, ◌^◌, ◌<◌, ◌≡◌, refl, List, [], ◌∷◌, ◌++◌}
use fifo.Prelude.Int.{ℤ}
use fifo.CString.{codes, decimal}
use fifo.CString.Decimals.{IsDecimal, decimal-IsDecimal}
use fifo.Programs.{hello}

-- "[", decimal digits of `i`, and the rest
pub record SaysHello (i : ℕ) (text : List ℕ) : Type 0 where
  pub ds : List ℕ
  pub is_text : text ≡ 91 ∷ ds ++ codes "] hello from client"
  pub is_decimal : IsDecimal i ds

-- `n` texts written to `fd`, the first with the number `i` and each with the next one
abbrev pub SaysHellos : ℤ → (n i : ℕ) → List (ℤ × List ℕ) → Type 0
SaysHellos fd zero i [] = Unit {0}
SaysHellos fd zero i (x ∷ rest) = ⊥
SaysHellos fd (suc n) i [] = ⊥
SaysHellos fd (suc n) i ((to, text) ∷ rest) =
    (to ≡ fd) × SaysHello i text × SaysHellos fd n (i + 1) rest

pub hello-SaysHello : (i : ℕ) → i < 10 ^ 10 → SaysHello i (hello i)
unfolding hello
hello-SaysHello i less = record {
  ds = decimal i;
  is_text = refl;
  is_decimal = decimal-IsDecimal i less;
}
