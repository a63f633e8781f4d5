-- ===== src/Syslog/Send.antt =====
-- `vsyslog` of src/syslog-win32/syslog-client.c. `syslog` passes its arguments on to it.
pub mod Header
pub mod Sequence
pub mod Unopened
pub mod Datagram
use fifo.Prelude.{
  ℕ, suc, ◌+◌, ◌-◌, ◌/◌, ◌%◌, ◌^◌, not, Bool, Option, none, some, List, [], ◌∷◌, ◌++◌, length, take,
  replicate, ltb, ◌==◌, if◌then◌else◌,
}
use fifo.Prelude.Int.{ℤ, pos, negsuc, pos_part, sub_ℕ, ◌-ℤ◌}
use fifo.Effect.{fault, pure, log, ◌>>=◌, ◌>>◌}
use fifo.CString.{codes, decimal, digits}
use fifo.Message.{signed32}
use fifo.Syslog.Priority.{bit_or, facility_bits, is_logged}
use fifo.Syslog.System.{System, SystemTime, sent, Cmd, local_time}
use fifo.Syslog.Logger.{Logger, dgram_size, max_ident_length, max_app_name_length, split_at}
use fifo.Syslog.Connection.{openlog, as_size}

-- `%d`, and `%0wd` of a number that is not negative
unfoldable pub decimal_int : ℤ → List ℕ
decimal_int (pos n) = decimal n
decimal_int (negsuc n) = 45 ∷ decimal (suc n)

unfoldable pub padded : ℕ → ℕ → List ℕ
padded w n = replicate (w - length (decimal n)) 48 ++ decimal n

-- "%04d-%02d-%02dT%02d:%02d:%02d.%dZ"
unfoldable pub timestamp_of : SystemTime → List ℕ
unfolding padded
timestamp_of stm =
    padded 4 stm.year
    ++ 45 ∷ padded 2 stm.month
    ++ 45 ∷ padded 2 stm.day
    ++ 84 ∷ padded 2 stm.hour
    ++ 58 ∷ padded 2 stm.minute
    ++ 58 ∷ padded 2 stm.second
    ++ 46 ∷ decimal stm.milliseconds
    ++ 90 ∷ []

-- A `%s` of an array of `capacity` bytes, `none` where there is no NUL in it.
abbrev pub terminated : ℕ → List ℕ → Option (List ℕ)
terminated capacity s = if ltb (length s) capacity then some s else none

-- "<%d>%d %s %s %s %s %ld %s %s%s ", with the version 1 and an empty BOM
unfoldable pub header_of : ℕ → List ℕ → Logger → ℕ → List ℕ → List ℕ → List ℕ
unfolding decimal_int
header_of pri timestamp st mid app_name ident =
    60 ∷ decimal_int (signed32 pri)
    ++ 62 ∷ decimal 1
    ++ 32 ∷ timestamp
    ++ 32 ∷ st.hostname
    ++ 32 ∷ app_name
    ++ 32 ∷ st.str_pid
    ++ 32 ∷ decimal_int (signed32 mid)
    ++ 32 ∷ 32 ∷ ident
    ++ 32 ∷ []

-- The string behind `vsnprintf( datagramm + len, datagramm_size - len, ... )`; `none` where the code
-- leaves the array of SYSLOG_DGRAM_SIZE bytes.
unfoldable pub datagram_of : List ℕ → List ℕ → ℤ → Option (List ℕ)
datagram_of header text size =
    let room = as_size (size -ℤ pos (length header)) in
    let body = if room == 0 then [] else take (room - 1) text in
    if ltb (length header + length body) dgram_size then some (header ++ body) else none

-- up to the first newline, and then up to the first carriage return
unfoldable pub first_line_of : List ℕ → List ℕ
unfolding split_at
first_line_of datagram = (split_at 13 (split_at 10 datagram).0).0

abbrev pub send_datagram : Logger → Option (List ℕ) → Cmd (Unit {0})
send_datagram st none = fault
send_datagram st (some datagram) = log (sent st.sock (first_line_of datagram) st.address)

abbrev pub with_names :
    ℕ → List ℕ → List ℕ → Logger → Option (List ℕ) → Option (List ℕ) → Cmd (Unit {0})
with_names pri timestamp text st none ident = fault
with_names pri timestamp text st (some app_name) none = fault
with_names pri timestamp text st (some app_name) (some ident) =
    send_datagram st
      (datagram_of (header_of pri timestamp st st.mid app_name ident) text st.datagramm_size)

module _ (sys : System) where
  -- what follows the test that the log is open
  unfoldable pub send_message : ℕ → List ℕ → Logger → Cmd Logger
  unfolding facility_bits bit_or timestamp_of header_of datagram_of first_line_of
  send_message pri text st = do
    let pri' = if facility_bits pri == 0 then bit_or 32 pri st.facility else pri
    let st' = record st { mid = (st.mid + 1) % 2 ^ 32 }
    stm ← local_time sys
    with_names pri' (timestamp_of stm) text st' (terminated max_app_name_length st'.app_name)
        (terminated max_ident_length st'.ident)
    pure st'

  -- `text` is what the format and its arguments make.
  unfoldable pub vsyslog : ℕ → List ℕ → Logger → Cmd Logger
  unfolding is_logged facility_bits openlog send_message
  vsyslog pri text st =
      if is_logged pri st.log_mask
      then (do
        st' ← openlog sys none 0 (facility_bits pri) st
        if st'.initialized then send_message pri text st' else pure st')
      else pure st
