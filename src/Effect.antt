-- ===== src/Effect.antt =====
-- Runs of C code against a system. Every call stands in a trace with its answer, newest first; the
-- kind of the events is a parameter, since each system has its own calls.
pub mod Emits
pub mod Yields
pub mod Ends
pub mod Outcomes
use fifo.Prelude.{ℕ, ◌+◌, ◌≡◌, true, List, ◌∷◌, ltb, if◌then◌else◌, arith}

-- `exited` is `exit(EXIT_FAILURE)`; `fault` is an access outside its object.
pub data Run (E A : Type 0) : Type 0 where
  done : A → List E → Run E A
  exited : List E → Run E A
  fault : List E → Run E A
  out_of_fuel : List E → Run E A

abbrev pub Cmd : Type 0 → Type 0 → Type 0
Cmd E A = List E → Run E A

module _ {E : Type 0} where
  abbrev pub pure : {A : Type 0} → A → Cmd E A
  pure = done

  abbrev pub and_then : {A B : Type 0} → Run E A → (A → Cmd E B) → Run E B
  and_then (done a t) k = k a t
  and_then (exited t) k = exited t
  and_then (fault t) k = fault t
  and_then (out_of_fuel t) k = out_of_fuel t

  infixl 5 ◌>>=◌ ◌>>◌
  abbrev pub ◌>>=◌ : {A B : Type 0} → Cmd E A → (A → Cmd E B) → Cmd E B
  m >>= k = λ t. and_then (m t) k

  abbrev pub ◌>>◌ : {A B : Type 0} → Cmd E A → Cmd E B → Cmd E B
  m >> n = m >>= λ _. n

  abbrev pub log : E → Cmd E (Unit {0})
  log e t = done tt (e ∷ t)

  -- `memcpy` of the `namelen` bytes of a name to the end of a zeroed block of `size` bytes, behind the
  -- `fixed` bytes of its struct: outside the block unless a byte is left behind it for the NUL.
  abbrev pub copy_name : (size fixed namelen : ℕ) → Cmd E (Unit {0})
  copy_name size fixed namelen = if ltb (fixed + namelen) size then pure tt else fault

pub name_fits : (fixed namelen : ℕ) → ltb (fixed + namelen) (fixed + namelen + 1) ≡ true
name_fits fixed namelen = ground arith

pub name_fits_behind : (fixed namelen : ℕ) → ltb (fixed + namelen) (fixed + namelen + 10) ≡ true
name_fits_behind fixed namelen = ground arith
