-- ===== src/Syslog/Send/Unopened.antt =====
-- `vsyslog` on a log that was not opened.
use fifo.Prelude.{ℕ, ◌≡◌, refl, Bool, true, false, Option, none, some, List, length, if◌then◌else◌}
use fifo.Prelude.Int.{ℤ, pos, eqb_ℤ}
use fifo.Effect.{Run, done, exited, fault, out_of_fuel, and_then, pure, log}
use fifo.Effect.Yields.{Yields, YieldsRun, Yields-pure, Yields-if, Yields-after}
use fifo.Syslog.Priority.{facility_bits, is_logged}
use fifo.Syslog.System.{
  System, Event, invalid_socket, Trace, computer_name, process_id, module_name, wsa_startup,
  max_msg_size, at_exit, socket_closed, wsa_cleaned,
}
use fifo.Syslog.Logger.{Logger, init_logger_addr}
use fifo.Syslog.Connection.{
  too_small, capped, open_failed, keep_ident, sized, bind_loop, with_socket, start_winsock,
  with_names, openlog, with_options, named,
}
use fifo.Syslog.Send.{vsyslog, send_message}

abbrev pub Closed : Logger → Type 0
Closed st = st.initialized ≡ false

open_failed-Closed : (wsa : Bool) (st : Logger) → Yields Closed (open_failed wsa st)
unfolding open_failed
open_failed-Closed wsa st =
    Yields-after (if eqb_ℤ st.sock invalid_socket then pure tt else log (socket_closed st.sock))
      (λ _.
        Yields-after (if wsa then log wsa_cleaned else pure tt)
          (λ _. Yields-pure (record st { initialized = false }) refl))

never : (facility : ℕ) (st : Logger) → Yields Closed (keep_ident none facility st)
unfolding keep_ident
never facility st = record { yields = λ t. tt }

module _ (sys : System) (facility : ℕ) where
  sized-Closed : (st : Logger) (size : Option ℤ) → Yields Closed (sized sys none facility st size)
  unfolding sized
  sized-Closed st none = open_failed-Closed true st
  sized-Closed st (some size) =
      Yields-if (too_small size (length st.hostname) 0)
        (open_failed-Closed true (record st { datagramm_size = size }))
        (Yields-after (at_exit sys) (λ r.
          Yields-if (eqb_ℤ r (pos 0)) (never facility (record st { datagramm_size = capped size }))
            (open_failed-Closed true (record st { datagramm_size = capped size }))))

  with_socket-Closed : (x : Bool × Logger) → Yields Closed (with_socket sys none facility x)
  unfolding with_socket
  with_socket-Closed (true, st) =
      Yields-after (max_msg_size sys st.sock) (λ size. sized-Closed st size)
  with_socket-Closed (false, st) = open_failed-Closed true st

  start_winsock-Closed : (st : Logger) → Yields Closed (start_winsock sys none facility st)
  unfolding start_winsock
  start_winsock-Closed st = Yields-after (wsa_startup sys) (λ r.
      Yields-if (eqb_ℤ r (pos 0))
        (Yields-after (init_logger_addr sys st)
          (λ st'. Yields-after (bind_loop sys 100 st') with_socket-Closed))
        (open_failed-Closed false st))

  with_names-Closed :
      (st : Logger) (name : Option (List ℕ)) → Yields Closed (with_names sys none facility st name)
  unfolding with_names
  with_names-Closed st none = open_failed-Closed false st
  with_names-Closed st (some name) =
      Yields-after (module_name sys) (λ path. start_winsock-Closed (named name path st))

-- Without an ident, as `vsyslog` calls it, `openlog` never opens the log.
openlog-Closed :
    (sys : System) (option facility : ℕ) (st : Logger)
    → Closed st
    → Yields Closed (openlog sys none option facility st)
unfolding openlog
openlog-Closed sys option facility st closed = Yields-if st.initialized (Yields-pure st closed) (
    Yields-after (process_id sys) (λ pid.
      Yields-after (computer_name sys)
        (with_names-Closed sys facility (with_options pid option facility st))))

nothing_sent :
    (sys : System) (pri : ℕ) (text : List ℕ) (r : Run Event Logger)
    → YieldsRun Closed r
    → and_then r (λ st. if st.initialized then send_message sys pri text st else pure st) ≡ r
nothing_sent sys pri text (done st u) closed = rw closed
nothing_sent sys pri text (exited u) closed = refl
nothing_sent sys pri text (fault u) closed = refl
nothing_sent sys pri text (out_of_fuel u) closed = refl

-- A message that the mask lets through does not open a closed log, whatever the system answers:
-- `vsyslog` ends as its `openlog` without an ident ends, without a datagram, and the log is not open
-- behind it if it returns at all.
pub vsyslog-unopened :
    (sys : System) (pri : ℕ) (text : List ℕ) (st : Logger) (t : Trace)
    → st.initialized ≡ false
    → is_logged pri st.log_mask ≡ true
    → (vsyslog sys pri text st t ≡ openlog sys none 0 (facility_bits pri) st t)
      × YieldsRun Closed (vsyslog sys pri text st t)
unfolding vsyslog
vsyslog-unopened sys pri text st t closed logged =
    let stays = (openlog-Closed sys 0 (facility_bits pri) st closed).yields t in
    let same = nothing_sent sys pri text (openlog sys none 0 (facility_bits pri) st t) stays in
    rw (logged, same) (refl, stays)
