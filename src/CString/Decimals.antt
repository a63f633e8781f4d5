-- ===== src/CString/Decimals.antt =====
-- Decimal numbers, read back.
use fifo.Prelude.{
  ℕ, zero, suc, ◌+◌, ◌-◌, ◌*◌, ◌/◌, ◌%◌, ◌^◌, ◌≤◌, ◌<◌, ◌≡◌, refl, ◌∙◌, List, [], ◌∷◌, ◌++◌,
  Bool-cases, inl, inr, ltb, ltb→lt, arith,
}
use fifo.CString.{digits, decimal}

-- the digits '0' to '9'
abbrev pub AllDigits : List ℕ → Type 0
AllDigits [] = Unit {0}
AllDigits (d ∷ ds) = (48 ≤ d) × (d < 58) × AllDigits ds

-- the number that decimal digits stand for, with `acc` in front of them
abbrev pub number_of : ℕ → List ℕ → ℕ
number_of acc [] = acc
number_of acc (d ∷ ds) = number_of (10 * acc + (d - 48)) ds

-- the decimal digits of `n`
pub record IsDecimal (n : ℕ) (ds : List ℕ) : Type 0 where
  pub all_digits : AllDigits ds
  pub is_number : number_of 0 ds ≡ n

AllDigits-append : (ds : List ℕ) (d : ℕ) → AllDigits ds → 48 ≤ d → d < 58 → AllDigits (ds ++ d ∷ [])
AllDigits-append [] d all low high = (low, high, tt)
AllDigits-append (x ∷ ds) d (l, h, all) low high = (l, h, AllDigits-append ds d all low high)

number_of-append :
    (acc : ℕ) (ds : List ℕ) (d : ℕ)
    → number_of acc (ds ++ d ∷ []) ≡ 10 * number_of acc ds + (d - 48)
number_of-append acc [] d = refl
number_of-append acc (x ∷ ds) d = number_of-append (10 * acc + (x - 48)) ds d

digits-AllDigits : (fuel n : ℕ) → AllDigits (digits fuel n)
unfolding digits
digits-AllDigits zero n = tt
digits-AllDigits (suc fuel) n = elim (Bool-cases (ltb n 10)) [
  | inl last ↦ let less : n < 10 = ltb→lt n 10 last in rw last (omega arith, omega arith, tt)
  | inr more ↦ rw more (
      AllDigits-append (digits fuel (n / 10)) (48 + n % 10) (digits-AllDigits fuel (n / 10))
        (omega arith) (omega arith))
]

-- The digits of a number stand for it.
number_of-digits : (fuel n : ℕ) → n < 10 ^ fuel → number_of 0 (digits fuel n) ≡ n
unfolding digits
number_of-digits zero n less = omega arith
number_of-digits (suc fuel) n less = elim (Bool-cases (ltb n 10)) [
  | inl last ↦ rw last (omega arith)
  | inr more ↦
      let front : n / 10 < 10 ^ fuel = omega arith in
      rw more (
        number_of-append 0 (digits fuel (n / 10)) (48 + n % 10)
        ∙ omega (arith, number_of-digits fuel (n / 10) front))
]

-- `decimal` prints the digits of any number of at most ten of them.
pub decimal-IsDecimal : (n : ℕ) → n < 10 ^ 10 → IsDecimal n (decimal n)
decimal-IsDecimal n less = record {
  all_digits = digits-AllDigits 10 n;
  is_number = number_of-digits 10 n less;
}
