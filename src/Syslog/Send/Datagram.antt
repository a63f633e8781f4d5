-- ===== src/Syslog/Send/Datagram.antt =====
-- The datagram that `vsyslog` sends on an open log.
use fifo.Prelude.{
  ℕ, ◌+◌, ◌-◌, ◌%◌, ◌^◌, ◌≤◌, ◌<◌, ◌≡◌, true, false, ◌==◌, some, List, ◌∷◌, ◌++◌, length, take,
  lt→ltb, arith, length-append, length-take, if◌then◌else◌,
}
use fifo.Prelude.Int.{pos, ◌-ℤ◌}
use fifo.Effect.{done}
use fifo.Syslog.Priority.{bit_or, facility_bits, is_logged}
use fifo.Syslog.System.{System, Trace, sent}
use fifo.Syslog.Logger.{Logger, dgram_size, max_ident_length, max_app_name_length, split_at}
use fifo.Syslog.Logger.Split.{Lacks, split_at-length, split_at-Lacks, split_at-keeps}
use fifo.Syslog.Connection.{openlog, as_size}
use fifo.Syslog.Send.{timestamp_of, header_of, datagram_of, first_line_of, send_message, vsyslog}

-- the message and the number that it gets
abbrev pub tagged : ℕ → Logger → ℕ
tagged pri st = if facility_bits pri == 0 then bit_or 32 pri st.facility else pri

abbrev pub numbered : Logger → Logger
numbered st = record st { mid = (st.mid + 1) % 2 ^ 32 }

abbrev pub header : System → ℕ → Logger → Trace → List ℕ
header sys pri st t =
    header_of (tagged pri st) (timestamp_of (sys.local_time t)) (numbered st) (numbered st).mid
      st.app_name st.ident

-- what is sent: the first line of the header and of as much of the text as there is room for
abbrev pub line : List ℕ → List ℕ → ℕ → List ℕ
line head text size = first_line_of (head ++ take (size - length head - 1) text)

room_left : (size k : ℕ) → k < size → size ≤ 8192 → as_size (pos size -ℤ pos k) ≡ size - k
room_left size k less small = ground arith

some_room : (size k : ℕ) → k < size → ((size - k) == 0) ≡ false
some_room size k less = ground arith

datagram_of-some :
    (head text : List ℕ) (size : ℕ)
    → length head < size
    → size ≤ dgram_size
    → datagram_of head text (pos size) ≡ some (head ++ take (size - length head - 1) text)
unfolding datagram_of
datagram_of-some head text size less small =
    let body = take (size - length head - 1) text in
    let fits : length head + length body < dgram_size =
      omega (arith, length-take (size - length head - 1) text) in
    rw (
      room_left size (length head) less small,
      some_room size (length head) less,
      lt→ltb (length head + length body) dgram_size fits,
    )

line-length :
    (head text : List ℕ) (size : ℕ) → length head < size → length (line head text size) < size
unfolding first_line_of
line-length head text size less =
    let body = take (size - length head - 1) text in
    omega (
      arith,
      split_at-length 13 (split_at 10 (head ++ body)).0,
      split_at-length 10 (head ++ body),
      length-append head body,
      length-take (size - length head - 1) text,
    )

-- On an open log, a message that the mask lets through makes one datagram, to the logger's address:
-- the first line of a header with the priority, the time, the names and the number of the message,
-- and of as much of its text as there is room for. The datagram has no newline and no carriage
-- return, and fewer bytes than the size that was agreed on. The names end in their arrays, the
-- header fits, and the agreed size is at most SYSLOG_DGRAM_SIZE.
pub vsyslog-datagram :
    (sys : System) (pri size : ℕ) (text : List ℕ) (st : Logger) (t : Trace)
    → let head = header sys pri st t in
      let datagram = line head text size in
      st.initialized ≡ true
      → is_logged pri st.log_mask ≡ true
      → length st.app_name < max_app_name_length
      → length st.ident < max_ident_length
      → st.datagramm_size ≡ pos size
      → size ≤ dgram_size
      → length head < size
      → (vsyslog sys pri text st t ≡ done (numbered st) (sent st.sock datagram st.address ∷ t))
        × (length datagram < size)
        × Lacks 10 datagram
        × Lacks 13 datagram
unfolding vsyslog openlog send_message first_line_of
vsyslog-datagram sys pri size text st t opened logged app ident agreed small less =
    let head = header sys pri st t in
    let datagram = head ++ take (size - length head - 1) text in
    (
      simp (
        logged,
        opened,
        lt→ltb (length st.app_name) 48 app,
        lt→ltb (length st.ident) 128 ident,
        agreed,
        datagram_of-some head text size less small,
      ),
      line-length head text size less,
      split_at-keeps 13 10 (split_at 10 datagram).0 (split_at-Lacks 10 datagram),
      split_at-Lacks 13 (split_at 10 datagram).0,
    )
