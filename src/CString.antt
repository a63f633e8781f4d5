-- ===== src/CString.antt =====
-- What src/fifo.c uses of the C library's strings. A string is the list of its bytes before the NUL.
pub mod Strings
pub mod Decimals
use Prim.Native.Char.{code}
use Prim.Native.String
use Prim.Native.String.{String}
use fifo.Prelude.{
  ℕ, zero, suc, ◌+◌, ◌-◌, ◌/◌, ◌%◌, Option, none, some, List, [], ◌∷◌, ◌++◌, min, length, take, ltb,
  ◌==◌, if◌then◌else◌,
}

abbrev pub strnlen : List ℕ → ℕ → ℕ
strnlen s n = min (length s) n

-- the string at the start of a buffer
unfoldable pub until_nul : List ℕ → List ℕ
until_nul [] = []
until_nul (b ∷ bs) = if b == 0 then [] else b ∷ until_nul bs

-- What `snprintf(buf, size, ...)` leaves in `buf` where the whole output is `full`; it returns
-- `length full`.
abbrev pub snprintf : ℕ → List ℕ → List ℕ
snprintf size full = take (size - 1) full

-- `%.*s` reads at most `n` bytes of a buffer, and none behind the NUL.
abbrev pub precision : ℕ → List ℕ → List ℕ
precision n buf = until_nul (take n buf)

-- `strcat` into an array of `capacity` bytes; `none` where the result and its NUL do not fit.
abbrev pub strcat : ℕ → List ℕ → List ℕ → Option (List ℕ)
strcat capacity s t = if ltb (length s + length t) capacity then some (s ++ t) else none

-- The digits of a number below 10 ^ fuel, as `%d` prints it.
unfoldable pub digits : ℕ → ℕ → List ℕ
digits zero n = []
digits (suc fuel) n =
    let front = digits fuel (n / 10) in
    if ltb n 10 then (b'0' + n) ∷ [] else front ++ (b'0' + n % 10) ∷ []

-- `%d` of a `pid_t`, which is not negative and has ten digits at most
abbrev pub decimal : ℕ → List ℕ
decimal n = digits 10 n

-- the bytes of an ASCII text
abbrev pub codes : String → List ℕ
codes String.[] = []
codes (String.◌∷◌ c s) = code c ∷ codes s
