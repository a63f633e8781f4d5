-- ===== src/Message/Store.antt =====
-- Bytes stored one run behind the other into a message.
use fifo.Prelude.{
  ℕ, ◌+◌, ◌≤◌, ◌≡◌, sym, ◌∙◌, ap, some, List, ◌++◌, append_assoc, length, drop, le→leb,
  length-append, length-drop, take-append_length, drop-append_length, drop-drop, arith,
}
use fifo.Prelude.Int.{pos}
use fifo.Message.{Pipemsg, store_bytes}

-- the message `old` with its first bytes overwritten by `front`
abbrev pub overlay : List ℕ → Pipemsg → Pipemsg
overlay front old = front ++ drop (length front) old

pub length-overlay :
    (front : List ℕ) (old : Pipemsg)
    → length front ≤ length old
    → length (overlay front old) ≡ length old
length-overlay front old h =
    omega (arith, length-append front (drop (length front) old), length-drop (length front) old)

drop-overlay :
    (front : List ℕ) (old : Pipemsg) (n : ℕ)
    → drop (length front + n) (overlay front old) ≡ drop (length front + n) old
drop-overlay front old n =
    sym (drop-drop n (length front) (overlay front old))
    ∙ ap (drop n) (drop-append_length front (drop (length front) old))
    ∙ drop-drop n (length front) old

-- A run of bytes stored right behind `front` extends it.
pub store_bytes-overlay :
    (front bytes : List ℕ) (old : Pipemsg)
    → length front + length bytes ≤ length old
    → store_bytes (pos (length front)) bytes (overlay front old)
      ≡ some (overlay (front ++ bytes) old)
unfolding store_bytes
store_bytes-overlay front bytes old h = rw (
  le→leb (length front + length bytes) (length (overlay front old))
      (omega (arith, length-overlay front old)),
  take-append_length front (drop (length front) old),
  drop-overlay front old (length bytes),
  length-append front bytes,
  append_assoc front bytes (drop (length front + length bytes) old),
)
