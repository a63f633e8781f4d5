-- ===== src/Syslog/Connection.antt =====
-- `openlog`, `closelog` and `setlogmask` of src/syslog-win32/syslog-client.c.
pub mod Settled
use fifo.Prelude.{
  ℕ, zero, suc, ◌+◌, ◌-◌, ◌%◌, ◌^◌, ◌&&◌, not, ◌*◌, Bool, true, false, Option, none, some, List, [],
  ◌∷◌, length, take, drop, ltb, ◌==◌, if◌then◌else◌,
}
use fifo.Prelude.Int.{ℤ, pos, negsuc, pos_part, eqb_ℤ, ltb_ℤ}
use fifo.Effect.{fault, pure, log, ◌>>=◌, ◌>>◌}
use fifo.CString.{decimal}
use fifo.Syslog.Priority.{facility_code, log_user, has_log_pid}
use fifo.Syslog.System.{
  System, wsa_cleaned, socket_closed, slept, Cmd, invalid_socket, computer_name, module_name,
  process_id, wsa_startup, socket, bind, max_msg_size, at_exit,
}
use fifo.Syslog.Logger.{
  Logger, dgram_size, max_ident_length, max_app_name_length, init_logger_addr, behind_last,
}

-- the result is the mask of before
unfoldable pub setlogmask : ℕ → Logger → ℕ × Logger
setlogmask mask st = (st.log_mask, if mask == 0 then st else record st { log_mask = mask })

unfoldable pub closelog : Logger → Cmd Logger
closelog st =
    if st.initialized
    then (do log (socket_closed st.sock); log wsa_cleaned; pure (record st { initialized = false }))
    else pure st

-- The part behind the last backslash, which the loop does not look for at the first position.
unfoldable pub app_name_of : List ℕ → List ℕ → List ℕ
unfolding behind_last
app_name_of path old =
    let n = behind_last 92 path in if ltb 1 n then take max_app_name_length (drop n path) else old

-- an `int` as a `size_t`
abbrev pub as_size : ℤ → ℕ
as_size (pos n) = n % 2 ^ 64
as_size (negsuc n) = 2 ^ 64 - 1 - n % 2 ^ 64

-- `datagramm_size - strlen(local_hostname) - strlen(ident) < 64`, in the arithmetic of `size_t`
unfoldable pub too_small : ℤ → ℕ → ℕ → Bool
too_small size host ident = ltb ((as_size size + 2 * 2 ^ 64 - host - ident) % 2 ^ 64) 64

-- not more than SYSLOG_DGRAM_SIZE
abbrev pub capped : ℤ → ℤ
capped size = if ltb_ℤ (pos dgram_size) size then pos dgram_size else size

-- `ident? strlen(ident) : 0`
abbrev pub ident_length : Option (List ℕ) → ℕ
ident_length none = 0
ident_length (some ident) = length ident

-- The end at `done` of a failure; `wsa` is `wsa_initialized`.
unfoldable pub open_failed : Bool → Logger → Cmd Logger
open_failed wsa st = do
  if eqb_ℤ st.sock invalid_socket then pure tt else log (socket_closed st.sock)
  if wsa then log wsa_cleaned else pure tt
  pure (record st { initialized = false })

-- `strncpy` of the ident, which may be NULL, and the end at `done` of a success
unfoldable pub keep_ident : Option (List ℕ) → ℕ → Logger → Cmd Logger
keep_ident none facility st = fault
keep_ident (some ident) facility st =
    pure
      (record st { ident = take max_ident_length ident; facility = facility; initialized = true })

-- the facility and the process ID that `openlog` sets first
unfoldable pub with_options : ℕ → ℕ → ℕ → Logger → Logger
unfolding has_log_pid
with_options pid option facility st = record st {
  facility = if facility == 0 then facility_code log_user else facility;
  str_pid = if has_log_pid option then take 39 (decimal pid) else [];
}

-- the names of the computer and of the program, and no socket yet
abbrev pub named : List ℕ → List ℕ → Logger → Logger
unfolding app_name_of
named name path st = record st {
  hostname = name;
  app_name = app_name_of path st.app_name;
  sock = invalid_socket;
}

abbrev pub is_bound : Option Bool → Bool
is_bound none = false
is_bound (some b) = b

abbrev pub is_some : Option Bool → Bool
is_some none = false
is_some (some b) = true

module _ (sys : System) where
  -- the size of the datagrams, and `atexit`
  unfoldable pub sized : Option (List ℕ) → ℕ → Logger → Option ℤ → Cmd Logger
  unfolding keep_ident too_small open_failed
  sized ident facility st none = open_failed true st
  sized ident facility st (some size) =
      let st' = record st { datagramm_size = size } in
      if too_small size (length st.hostname) (ident_length ident) then open_failed true st' else (do
        let st'' = record st { datagramm_size = capped size }
        r ← at_exit sys
        if eqb_ℤ r (pos 0) then keep_ident ident facility st'' else open_failed true st'')

  -- One round of the loop; `none` is a socket that could not be bound.
  unfoldable pub bind_once : Logger → Cmd (Option Bool × Logger)
  bind_once st = do
    s ← socket sys
    let st' = record st { sock = s }
    if eqb_ℤ s invalid_socket then pure (some false, st') else (do
      r ← bind sys s
      if eqb_ℤ r (pos 0)
          then pure (some true, st')
          else log (socket_closed s) >> pure (none, record st { sock = invalid_socket }))

  -- The loop, with `left` rounds after this one; `true` for a socket that is bound.
  unfoldable pub bind_loop : ℕ → Logger → Cmd (Bool × Logger)
  unfolding bind_once
  bind_loop zero st = do (r, st') ← bind_once st; pure (is_bound r, st')
  bind_loop (suc left) st = do
    (r, st') ← bind_once st
    if is_some r then pure (is_bound r, st') else log slept >> bind_loop left st'

  -- what follows the loop
  unfoldable pub with_socket : Option (List ℕ) → ℕ → Bool × Logger → Cmd Logger
  unfolding sized open_failed
  with_socket ident facility (true, st) = do
    size ← max_msg_size sys st.sock
    sized ident facility st size
  with_socket ident facility (false, st) = open_failed true st

  -- from the start of Winsock on
  unfoldable pub start_winsock : Option (List ℕ) → ℕ → Logger → Cmd Logger
  unfolding bind_loop with_socket open_failed
  start_winsock ident facility st = do
    r ← wsa_startup sys
    if eqb_ℤ r (pos 0)
        then (do
          st' ← init_logger_addr sys st
          bound ← bind_loop 100 st'
          with_socket ident facility bound)
        else open_failed false st

  unfoldable pub with_names : Option (List ℕ) → ℕ → Logger → Option (List ℕ) → Cmd Logger
  unfolding start_winsock open_failed
  with_names ident facility st none = open_failed false st
  with_names ident facility st (some name) = do
    path ← module_name sys
    start_winsock ident facility (named name path st)

  unfoldable pub openlog : Option (List ℕ) → ℕ → ℕ → Logger → Cmd Logger
  unfolding with_options with_names
  openlog ident option facility st = if st.initialized then pure st else (do
    pid ← process_id sys
    name ← computer_name sys
    with_names ident facility (with_options pid option facility st) name)
