-- ===== src/CString/Strings.antt =====
-- Strings without a NUL, and the digits of a number.
use fifo.Prelude.{
  ℕ, zero, suc, ◌+◌, ◌/◌, ◌%◌, ◌≤◌, ◌≡◌, refl, List, [], ◌∷◌, ◌++◌, length, take, ltb, ◌==◌, false,
  Bool-cases, inl, inr, length-append, arith,
}
use fifo.CString.{until_nul, digits}

abbrev pub NulFree : List ℕ → Type 0
NulFree [] = Unit {0}
NulFree (b ∷ bs) = ((b == 0) ≡ false) × NulFree bs

pub NulFree-append : (xs ys : List ℕ) → NulFree xs → NulFree ys → NulFree (xs ++ ys)
NulFree-append [] ys hx hy = hy
NulFree-append (x ∷ xs) ys (h, hx) hy = (h, NulFree-append xs ys hx hy)

pub NulFree-take : (n : ℕ) (xs : List ℕ) → NulFree xs → NulFree (take n xs)
NulFree-take zero xs h = tt
NulFree-take (suc n) [] h = tt
NulFree-take (suc n) (x ∷ xs) (h, hs) = (h, NulFree-take n xs hs)

-- A string without a NUL is read whole, with or without one behind it.
pub until_nul-NulFree : (xs : List ℕ) → NulFree xs → until_nul xs ≡ xs
unfolding until_nul
until_nul-NulFree [] h = refl
until_nul-NulFree (x ∷ xs) (h, hs) = rw (h, until_nul-NulFree xs hs)

pub until_nul-append_nul : (xs ys : List ℕ) → NulFree xs → until_nul (xs ++ 0 ∷ ys) ≡ xs
unfolding until_nul
until_nul-append_nul [] ys h = refl
until_nul-append_nul (x ∷ xs) ys (h, hs) = rw (h, until_nul-append_nul xs ys hs)

pub length-until_nul : (xs : List ℕ) → length (until_nul xs) ≤ length xs
unfolding until_nul
length-until_nul [] = omega arith
length-until_nul (x ∷ xs) = ground (arith, length-until_nul xs)

digit_pos : (n : ℕ) → ((48 + n) == 0) ≡ false
digit_pos n = ground arith

pub digits-NulFree : (fuel n : ℕ) → NulFree (digits fuel n)
unfolding digits
digits-NulFree zero n = tt
digits-NulFree (suc fuel) n = elim (Bool-cases (ltb n 10)) [
  | inl last ↦ rw last (digit_pos n, tt)
  | inr more ↦ rw more (
      NulFree-append (digits fuel (n / 10)) _ (digits-NulFree fuel (n / 10))
        (digit_pos (n % 10), tt))
]

pub length-digits : (fuel n : ℕ) → length (digits fuel n) ≤ fuel
unfolding digits
length-digits zero n = omega arith
length-digits (suc fuel) n = elim (Bool-cases (ltb n 10)) [
  | inl last ↦ rw last (omega arith)
  | inr more ↦ rw more (
      omega (
        arith,
        length-digits fuel (n / 10),
        length-append (digits fuel (n / 10)) ((48 + n % 10) ∷ []),
      ))
]
