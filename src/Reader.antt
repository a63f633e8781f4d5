-- ===== src/Reader.antt =====
-- `readpipemsg_nb` of src/fifo.c: one message from a non-blocking descriptor.
pub mod Delivery
pub mod Again
pub mod Arrived
pub mod Assembly
pub mod Header
pub mod Rejects
pub mod Overflow
pub mod Rounds
pub mod Safety
use fifo.Prelude.{
  ℕ, zero, suc, ◌&&◌, Bool, true, false, Option, none, some, List, [], length, if◌then◌else◌,
}
use fifo.Prelude.Int.{ℤ, pos, minus_one, pos_part, ◌+ℤ◌, ◌-ℤ◌, ltb_ℤ, eqb_ℤ}
use fifo.Os.{Os, Errno, eagain, Cmd, fault, out_of_fuel, pure, ◌>>=◌, errno, read}
use fifo.Message.{Pipemsg, sizeof_msgsz, msgsz, store_bytes}

abbrev pub is_eagain : Errno → Bool
is_eagain eagain = true
is_eagain _ = false

-- the value of `read`
abbrev pub count_of : Option (List ℕ) → ℤ
count_of none = minus_one
count_of (some bytes) = pos (length bytes)

abbrev pub bytes_of : Option (List ℕ) → List ℕ
bytes_of none = []
bytes_of (some bytes) = bytes

abbrev pub store_received : Option Pipemsg → ℤ → Cmd (ℤ × Pipemsg)
store_received none count = fault
store_received (some msg) count = pure (count, msg)

module _ (os : Os) where
  -- read(fd, (char *)msg + offset, n)
  unfoldable pub read_into : ℤ → Pipemsg → ℤ → ℕ → Cmd (ℤ × Pipemsg)
  unfolding store_bytes
  read_into fd msg offset n = do
    got ← read os fd n
    store_received (store_bytes offset (bytes_of got) msg) (count_of got)

  -- The first loop; `none` is its `return (-1)`. After EAGAIN the test `offset == 0` is met with
  -- the -1 of the failed `read`.
  unfoldable pub header_loop : ℕ → ℤ → ℤ → Pipemsg → Cmd (Option ℤ × Pipemsg)
  unfolding read_into
  header_loop zero fd offset msg = out_of_fuel
  header_loop (suc fuel) fd offset msg =
      if eqb_ℤ offset (pos 0)
      then (do
        (offset', msg') ← read_into fd msg (pos 0) sizeof_msgsz
        if eqb_ℤ offset' (pos sizeof_msgsz) then pure (some offset', msg') else do
          e ← errno os
          if eqb_ℤ offset' minus_one && is_eagain e
              then header_loop fuel fd offset' msg'
              else pure (none, msg'))
      else pure (some offset, msg)

  -- The second loop and the returns behind it.
  unfoldable pub body_loop : ℕ → ℤ → Pipemsg → (offset msgsize : ℤ) → Cmd (ℤ × Pipemsg)
  unfolding read_into
  body_loop zero fd msg offset msgsize = out_of_fuel
  body_loop (suc fuel) fd msg offset msgsize =
      if ltb_ℤ offset msgsize
      then (do
        (count, msg') ← read_into fd msg offset (pos_part (msgsize -ℤ offset))
        if ltb_ℤ (pos 0) count
            then (if eqb_ℤ (offset +ℤ count) msgsize
                then pure (pos 0, msg')
                else body_loop fuel fd msg' (offset +ℤ count) msgsize)
            else do
              e ← errno os
              if eqb_ℤ count minus_one && is_eagain e
                  then body_loop fuel fd msg' offset msgsize
                  else pure (minus_one, msg'))
      else pure (minus_one, msg)

  -- what follows the first loop
  unfoldable pub after_header : ℕ → ℤ → Option ℤ → Pipemsg → Cmd (ℤ × Pipemsg)
  unfolding body_loop msgsz
  after_header fuel fd none msg = pure (minus_one, msg)
  after_header fuel fd (some offset) msg =
      if eqb_ℤ (msgsz msg) (pos 0)
      then pure (pos 0, msg)
      else body_loop fuel fd msg offset (offset +ℤ msgsz msg)

  -- The first loop makes two rounds at most, so its fuel is 2; `fuel` bounds the second.
  unfoldable pub readpipemsg_nb : ℕ → ℤ → Pipemsg → Cmd (ℤ × Pipemsg)
  unfolding header_loop after_header
  readpipemsg_nb fuel fd msg = do
    (offset, msg') ← header_loop 2 fd (pos 0) msg
    after_header fuel fd offset msg'
