-- ===== src/Unitypes/Checked.antt =====
-- The checked `snprintf` returns the length of the string that it leaves.
use fifo.Prelude.{Option, ℕ, suc, ◌≤◌, ◌<◌, ◌≡◌, some, List, [], ◌∷◌, ◌++◌, length, take}
use fifo.Prelude.Int.{negsuc, ℤ, pos}
use fifo.CString.{until_nul}
use fifo.Message.Store.{overlay}

-- What `vsnprintf` may return and leave in a buffer of `b` + 1 bytes for the output `full`. The C
-- standard's returns the length of the output and ends what it stores with a NUL; that of older
-- versions of Windows returns a negative number for an output that does not fit, and fills the buffer.
pub data Prints (b : ℕ) (full buf : List ℕ) : ℤ × List ℕ → Type 0 where
  whole : length full ≤ b → Prints b full buf (pos (length full), overlay (full ++ 0 ∷ []) buf)
  cut : b < length full → Prints b full buf (pos (length full), overlay (take b full ++ 0 ∷ []) buf)
  filled : (n : ℕ) → b < length full → Prints b full buf (negsuc n, overlay (take (suc b) full) buf)

-- what the function makes of a buffer whose first `b` bytes are the start of the output
Leaves : ℕ → List ℕ → Option (ℤ × List ℕ) → Type 0
Leaves b full r =
    (out : List ℕ) × (r ≡ some (pos (length (take b full)), out)) × (until_nul out ≡ take b full)
