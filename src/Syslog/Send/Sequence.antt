-- ===== src/Syslog/Send/Sequence.antt =====
-- Several messages on an open log, one after the other.
use fifo.Prelude.{
  zero, suc, ◌-◌, ◌/◌, ◌⊎◌, ◌==◌, take, ℕ, ◌+◌, ◌%◌, ◌^◌, ◌≤◌, ◌<◌, ◌≡◌, refl, ◌∙◌, sym, Bool-cases,
  inl, inr, true, false, List, [], ◌∷◌, ◌++◌, append-nil, append_assoc, length, arith,
  if◌then◌else◌,
}
use fifo.Syslog.Send.Header.{
  IsHeader, IsTime, IsFirstLine, header_of-IsHeader, first_line_of-IsFirstLine,
}
use fifo.Prelude.Int.{ℤ, pos}
use fifo.Effect.{done, pure, ◌>>=◌}
use fifo.Effect.Ends.{Ends}
use fifo.Syslog.Priority.{facility_bits, bit_or, is_logged}
use fifo.Syslog.System.{System, Address, Cmd, Trace, sent}
use fifo.Syslog.Logger.{Logger, dgram_size, max_ident_length, max_app_name_length}
use fifo.Syslog.Logger.Split.{Lacks}
use fifo.Syslog.Send.{vsyslog}
use fifo.Syslog.Send.Datagram.{tagged, numbered, header, line, vsyslog-datagram}

-- the priority and the text of a call
abbrev pub Message : Type 0
Message = ℕ × List ℕ

-- socket, bytes and address
abbrev pub Datagram : Type 0
Datagram = ℤ × List ℕ × Address

-- the datagrams of a run, oldest first
abbrev pub sent_of : Trace → List Datagram
sent_of [] = []
sent_of (sent sock bytes address ∷ t) = sent_of t ++ (sock, bytes, address) ∷ []
sent_of (_ ∷ t) = sent_of t

-- the messages that a mask lets through
unfoldable pub logged_count : ℕ → List Message → ℕ
logged_count mask [] = 0
logged_count mask ((pri, text) ∷ rest) =
    if is_logged pri mask then 1 + logged_count mask rest else logged_count mask rest

module _ (sys : System) where
  -- a program that logs these
  unfoldable pub vsyslog_all : List Message → Logger → Cmd Logger
  vsyslog_all [] st = pure st
  vsyslog_all ((pri, text) ∷ rest) st = vsyslog sys pri text st >>= vsyslog_all rest

  module _ (size : ℕ) where
    -- the datagrams of the messages that are let through
    unfoldable pub lines : List Message → Logger → Trace → List Datagram
    lines [] st t = []
    lines ((pri, text) ∷ rest) st t =
        let bytes = line (header sys pri st t) text size in
        let others = lines rest (numbered st) (sent st.sock bytes st.address ∷ t) in
        let same = lines rest st t in
        if is_logged pri st.log_mask then (st.sock, bytes, st.address) ∷ others else same

    -- The headers of the messages leave room for a byte of text.
    abbrev pub Fits : List Message → Logger → Trace → Type 0
    Fits [] st t = Unit {0}
    Fits ((pri, text) ∷ rest) st t =
        let bytes = line (header sys pri st t) text size in
        (length (header sys pri st t) < size)
        × Fits rest (numbered st) (sent st.sock bytes st.address ∷ t)
        × Fits rest st t

-- an open log whose names end in their arrays, with the size that was agreed on
pub record IsOpen (size : ℕ) (st : Logger) : Type 0 where
  pub open_log : st.initialized ≡ true
  pub app : length st.app_name < max_app_name_length
  pub ident : length st.ident < max_ident_length
  pub agreed : st.datagramm_size ≡ pos size
  pub number : st.mid < 2 ^ 32

numbered-IsOpen : {size : ℕ} {st : Logger} → IsOpen size st → IsOpen size (numbered st)
numbered-IsOpen is = record {
  open_log = is.open_log;
  app = is.app;
  ident = is.ident;
  agreed = is.agreed;
  number = omega arith;
}

vsyslog-masked :
    (sys : System) (pri : ℕ) (text : List ℕ) (st : Logger) (t : Trace)
    → is_logged pri st.log_mask ≡ false
    → vsyslog sys pri text st t ≡ done st t
unfolding vsyslog
vsyslog-masked sys pri text st t masked = rw masked

-- every datagram is one line, and shorter than the size
abbrev pub AllLines : ℕ → List Datagram → Type 0
AllLines size [] = Unit {0}
AllLines size ((sock, bytes, address) ∷ rest) =
    (length bytes < size) × Lacks 10 bytes × Lacks 13 bytes × AllLines size rest

module _ (sys : System) (size : ℕ) (small : size ≤ dgram_size) where
  lines-AllLines :
      (messages : List Message) (st : Logger) (t : Trace)
      → IsOpen size st
      → Fits sys size messages st t
      → AllLines size (lines sys size messages st t)
  unfolding lines
  lines-AllLines [] st t is fits = tt
  lines-AllLines ((pri, text) ∷ rest) st t is (less, fits, masked_fits) =
      let bytes = line (header sys pri st t) text size in
      elim (Bool-cases (is_logged pri st.log_mask)) [
        | inr masked ↦ rw masked (lines-AllLines rest st t is masked_fits)
        | inl logged ↦
            let one =
              vsyslog-datagram sys pri size text st t is.open_log logged is.app is.ident is.agreed
                small less in
            rw logged (
              one.1,
              one.2,
              one.3,
              lines-AllLines rest (numbered st) (sent st.sock bytes st.address ∷ t)
                  (numbered-IsOpen is) fits,
            )
      ]

  vsyslog_all-sends :
      (messages : List Message) (st : Logger) (t : Trace) (total : List Datagram) (last : ℕ)
      → IsOpen size st
      → Fits sys size messages st t
      → sent_of t ++ lines sys size messages st t ≡ total
      → (st.mid + logged_count st.log_mask messages) % 2 ^ 32 ≡ last
      → Ends (λ st' u. (sent_of u ≡ total) × (st'.mid ≡ last)) (vsyslog_all sys messages st t)
  unfolding lines vsyslog_all logged_count
  vsyslog_all-sends [] st t total last is fits same counted =
      (sym (append-nil (sent_of t)) ∙ same, omega (arith, is.number))
  vsyslog_all-sends ((pri, text) ∷ rest) st t total last is (less, fits, masked_fits) same counted =
      let bytes = line (header sys pri st t) text size in
      elim (Bool-cases (is_logged pri st.log_mask)) [
        | inr masked ↦ rw (vsyslog-masked sys pri text st t masked) (
            vsyslog_all-sends rest st t total last is masked_fits (rw masked at same)
              (rw masked at counted))
        | inl logged ↦
            let one =
              vsyslog-datagram sys pri size text st t is.open_log logged is.app is.ident is.agreed
                small less in
            let counted' = rw logged at counted in
            rw one.0 (
              vsyslog_all-sends rest (numbered st) (sent st.sock bytes st.address ∷ t) total last
                (numbered-IsOpen is) fits
                (append_assoc (sent_of t) ((st.sock, bytes, st.address) ∷ []) _ ∙ rw logged at same)
                (omega (arith, counted')))
      ]

-- The specification, without the code that makes a datagram. One line: the first line of a header and
-- of as much of the text as there is room for, with a NUL, behind the header.
pub record IsLine (sys : System) (size pri : ℕ) (text : List ℕ) (st : Logger) (t : Trace)
    (bytes : List ℕ) : Type 0 where
  pub head : List ℕ
  pub is_header : IsHeader (tagged pri st) (numbered st).mid (sys.local_time t) (numbered st) head
  pub is_line : IsFirstLine (head ++ take (size - length head - 1) text) bytes

-- One line for each message that is let through, with the next number, and no other.
abbrev pub Lines : System → (size : ℕ) → List Message → Logger → Trace → List Datagram → Type 0
Lines sys size [] st t ds = ds ≡ []
Lines sys size ((pri, text) ∷ rest) st t ds =
    ((is_logged pri st.log_mask ≡ false) × Lines sys size rest st t ds)
    ⊎ ((is_logged pri st.log_mask ≡ true)
        × ((bytes : List ℕ) × (others : List Datagram) × (ds
              ≡ (st.sock, bytes, st.address) ∷ others)
            × IsLine sys size pri text st t bytes
            × Lines sys size rest (numbered st) (sent st.sock bytes st.address ∷ t) others))

-- the priorities are of 32 bits
abbrev pub AllPriorities : List Message → Type 0
AllPriorities [] = Unit {0}
AllPriorities ((pri, text) ∷ rest) = (pri < 2 ^ 32) × AllPriorities rest

bit_or-lt : (w a b : ℕ) → bit_or w a b < 2 ^ w
unfolding bit_or
bit_or-lt zero a b = omega arith
bit_or-lt (suc w) a b = ground (arith, bit_or-lt w (a / 2) (b / 2))

tagged-lt : (pri : ℕ) (st : Logger) → pri < 2 ^ 32 → tagged pri st < 2 ^ 32
tagged-lt pri st less = elim (Bool-cases (facility_bits pri == 0)) [
  | inl own ↦ rw own (bit_or-lt 32 pri st.facility)
  | inr given ↦ rw given less
]

module _ (sys : System) (size : ℕ) (times : (t : Trace) → IsTime (sys.local_time t)) where
  lines-Lines :
      (messages : List Message) (st : Logger) (t : Trace)
      → AllPriorities messages
      → Lines sys size messages st t (lines sys size messages st t)
  unfolding lines
  lines-Lines [] st t small = refl
  lines-Lines ((pri, text) ∷ rest) st t (small, others) =
      let head = header sys pri st t in
      let bytes = line head text size in
      elim (Bool-cases (is_logged pri st.log_mask)) [
        | inr masked ↦ rw masked (inl (refl, lines-Lines rest st t others))
        | inl logged ↦ rw logged (
            inr (
              refl,
              (
                bytes,
                lines sys size rest (numbered st) (sent st.sock bytes st.address ∷ t),
                refl,
                record {
                  head = head;
                  is_header =
                      header_of-IsHeader (tagged pri st) (numbered st).mid (sys.local_time t)
                        (numbered st) (tagged-lt pri st small) (omega arith) (times t);
                  is_line = first_line_of-IsFirstLine (head ++ take (size - length head - 1) text);
                },
                lines-Lines rest (numbered st) (sent st.sock bytes st.address ∷ t) others,
              ),
            ))
      ]

-- On an open log, a run of messages makes one datagram for each that the mask lets through, in their
-- order, to the logger's address, and no other; each is the first line of a header and of as much of
-- its text as there is room for. The header is "<", the priority in decimal digits, with the facility
-- of the log if the message has none, ">1 ", the time of the system in decimal digits with at least
-- four for the year and two for the month, day, hour, minute and second, the names of the computer and
-- of the program, the process id, the number of the message in decimal digits, the ident, and spaces
-- between them. A datagram has no newline and no carriage return, and fewer bytes than the size that
-- was agreed on. The numbers follow each other, modulo 2^32. The names end in their arrays, the
-- headers leave room, the agreed size is at most SYSLOG_DGRAM_SIZE, the priorities are of 32 bits, and
-- the fields of the system's time are of 16 bits.
pub vsyslog_all-Lines :
    (sys : System) (size : ℕ) (messages : List Message) (st : Logger) (t : Trace)
    → ((u : Trace) → IsTime (sys.local_time u))
    → AllPriorities messages
    → size ≤ dgram_size
    → IsOpen size st
    → Fits sys size messages st t
    → (ds : List Datagram) × Lines sys size messages st t ds
      × Ends
          (λ st' u.
            (sent_of u ≡ sent_of t ++ ds)
            × (st'.mid ≡ (st.mid + logged_count st.log_mask messages) % 2 ^ 32))
          (vsyslog_all sys messages st t)
      × AllLines size ds
vsyslog_all-Lines sys size messages st t times priorities small is fits =
    let ds = lines sys size messages st t in
    (
      ds,
      lines-Lines sys size times messages st t priorities,
      vsyslog_all-sends sys size small messages st t (sent_of t ++ ds)
          ((st.mid + logged_count st.log_mask messages) % 2 ^ 32) is fits refl refl,
      lines-AllLines sys size small messages st t is fits,
    )
