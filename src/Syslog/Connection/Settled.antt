-- ===== src/Syslog/Connection/Settled.antt =====
-- `openlog` as a whole: what it leaves open.
use fifo.Prelude.{
  [], Option-cases, ℕ, zero, suc, ◌≡◌, refl, Bool, Bool-cases, inl, inr, true, false, Option, none,
  some, List, ◌∷◌, length, if◌then◌else◌,
}
use fifo.Prelude.Int.{ℤ, pos, eqb_ℤ}
use fifo.Effect.{pure, log, ◌>>◌}
use fifo.Effect.Ends.{Ends-weaken, Ends, and_then-Ends, Ends-if}
use fifo.Os.{FilePath}
use fifo.Syslog.System.{System, Trace, wsa_started, socket_made, slept, registered, invalid_socket}
use fifo.Syslog.Balance.{
  Holds, Holds-start, Holds-made, Holds-not_made, Holds-closed, Holds-started, Holds-not_started,
  Holds-cleaned, Holds-bound, Holds-slept, Holds-read, Holds-resolved, Holds-registered,
}
use fifo.Syslog.Logger.{Logger, config_path, init_logger_addr, read_address, parse_line}
use fifo.Syslog.Connection.{
  too_small, capped, open_failed, keep_ident, sized, is_bound, is_some, bind_once, bind_loop,
  with_socket, start_winsock, with_names, openlog, closelog, with_options, named,
}

-- what an open log holds of Winsock, and its socket
abbrev pub held : Bool → ℕ
held true = 1
held false = 0

abbrev held_sockets : Logger → List ℤ
held_sockets st = if st.initialized then st.sock ∷ [] else []

abbrev pub Opened : Trace → Logger → Trace → Type 0
Opened t st u = Holds (held_sockets st) (held st.initialized) t u

module _ (t0 : Trace) where
  open_failed-Opened :
      (wsa no_socket : Bool) (st : Logger) (t : Trace)
      → eqb_ℤ st.sock invalid_socket ≡ no_socket
      → Holds (if no_socket then [] else st.sock ∷ []) (held wsa) t0 t
      → Ends (Opened t0) (open_failed wsa st t)
  unfolding open_failed
  open_failed-Opened true true st t e h = rw e (Holds-cleaned h)
  open_failed-Opened true false st t e h = rw e (Holds-cleaned (Holds-closed st.sock h))
  open_failed-Opened false true st t e h = rw e h
  open_failed-Opened false false st t e h = rw e (Holds-closed st.sock h)

  module _ (sys : System) (ident : List ℕ) (facility : ℕ) where
    sized-Opened :
        (st : Logger) (size : Option ℤ) (t : Trace)
        → eqb_ℤ st.sock invalid_socket ≡ false
        → Holds (st.sock ∷ []) 1 t0 t
        → Ends (Opened t0) (sized sys (some ident) facility st size t)
    unfolding sized keep_ident
    sized-Opened st none t e h = open_failed-Opened true false st t e h
    sized-Opened st (some size) t e h =
        Ends-if (Opened t0) (too_small size (length st.hostname) (length ident)) _ _ t
          (λ _. open_failed-Opened true false (record st { datagramm_size = size }) t e h)
          (λ _.
            let u = registered (sys.at_exit t) ∷ t in
            let h' = Holds-registered (sys.at_exit t) h in
            Ends-if (Opened t0) (eqb_ℤ (sys.at_exit t) (pos 0)) _ _ u (λ _. h')
              (λ _.
                open_failed-Opened true false (record st { datagramm_size = capped size }) u e h'))

    -- what a round of the loop leaves: a bound socket, or none
    abbrev Bound : Option Bool × Logger → Trace → Type 0
    Bound (some true, st) u = (eqb_ℤ st.sock invalid_socket ≡ false) × Holds (st.sock ∷ []) 1 t0 u
    Bound (some false, st) u = (eqb_ℤ st.sock invalid_socket ≡ true) × Holds [] 1 t0 u
    Bound (none, st) u = (eqb_ℤ st.sock invalid_socket ≡ true) × Holds [] 1 t0 u

    abbrev BoundAtLast : Bool × Logger → Trace → Type 0
    BoundAtLast (b, st) u = Bound (some b, st) u

    bind_once-Bound : (st : Logger) (t : Trace) → Holds [] 1 t0 t → Ends Bound (bind_once sys st t)
    unfolding bind_once
    bind_once-Bound st t h =
        let s = sys.socket t in
        let u = socket_made s ∷ t in
        let r = sys.bind u s in
        elim (Bool-cases (eqb_ℤ s invalid_socket)) [
          | inl invalid ↦ rw invalid (invalid, Holds-not_made s invalid h)
          | inr valid ↦
              let h' = Holds-bound s r (Holds-made s valid h) in
              elim (Bool-cases (eqb_ℤ r (pos 0))) [
                | inl ok ↦ rw (valid, ok) (valid, h')
                | inr bad ↦ rw (valid, bad) (refl, Holds-closed s h')
              ]
        ]

    last-Bound :
        (r : Option Bool) (st : Logger) (u : Trace)
        → Bound (r, st) u
        → BoundAtLast (is_bound r, st) u
    last-Bound none st u h = h
    last-Bound (some b) st u h = h

    next_round :
        (left : ℕ)
        → ((st : Logger) (u : Trace) → Holds [] 1 t0 u → Ends BoundAtLast (bind_loop sys left st u))
        → (x : Option Bool × Logger) (u : Trace) → Bound x u
        → Ends BoundAtLast (
            (let (r, st') = x in
                if is_some r then pure (is_bound r, st') else log slept >> bind_loop sys left st')
              u)
    next_round left again (none, st') u b = again st' (slept ∷ u) (Holds-slept b.1)
    next_round left again (some true, st') u b = b
    next_round left again (some false, st') u b = b

    bind_loop-Bound :
        (left : ℕ) (st : Logger) (t : Trace)
        → Holds [] 1 t0 t
        → Ends BoundAtLast (bind_loop sys left st t)
    unfolding bind_loop
    bind_loop-Bound zero st t h =
        and_then-Ends Bound BoundAtLast (bind_once sys st t) _ (bind_once-Bound st t h)
          (λ (r, st') u b. last-Bound r st' u b)
    bind_loop-Bound (suc left) st t h =
        and_then-Ends Bound BoundAtLast (bind_once sys st t) _ (bind_once-Bound st t h)
          (next_round left (λ st' u. bind_loop-Bound left st' u))

    with_socket-Opened :
        (x : Bool × Logger) (t : Trace)
        → BoundAtLast x t
        → Ends (Opened t0) (with_socket sys (some ident) facility x t)
    unfolding with_socket
    with_socket-Opened (true, st) t (e, h) = sized-Opened st (sys.max_msg_size t st.sock) t e h
    with_socket-Opened (false, st) t (e, h) = open_failed-Opened true true st t e h

    -- The configuration keeps what is held.
    init_logger_addr-Holds :
        (st : Logger) (path : FilePath) (t : Trace)
        → config_path sys.program st.conf_dir ≡ some path
        → Holds [] 1 t0 t
        → Ends (λ st' u. Holds [] 1 t0 u) (init_logger_addr sys st t)
    unfolding init_logger_addr read_address parse_line
    init_logger_addr-Holds st path t is h = elim (Option-cases (sys.config_line t path)) [
      | inl none_there ↦ rw (is, none_there) (Holds-read path h)
      | inr (line, there) ↦ rw (is, there) (Holds-resolved _ (Holds-read path h))
    ]

    start_winsock-Opened :
        (st : Logger) (path : FilePath) (t : Trace)
        → config_path sys.program st.conf_dir ≡ some path
        → eqb_ℤ st.sock invalid_socket ≡ true
        → Holds [] 0 t0 t
        → Ends (Opened t0) (start_winsock sys (some ident) facility st t)
    unfolding start_winsock
    start_winsock-Opened st path t is e h =
        let r = sys.wsa_startup t in
        let u = wsa_started r ∷ t in
        Ends-if (Opened t0) (eqb_ℤ r (pos 0)) _ _ u
          (λ ok.
            and_then-Ends (λ st' u'. Holds [] 1 t0 u') (Opened t0) (init_logger_addr sys st u) _
              (init_logger_addr-Holds st path u is (Holds-started r ok h))
              (λ st' u' h'.
                and_then-Ends BoundAtLast (Opened t0) (bind_loop sys 100 st' u') _
                  (bind_loop-Bound 100 st' u' h') (λ x v b. with_socket-Opened x v b)))
          (λ bad. open_failed-Opened false true st u e (Holds-not_started r bad h))

    with_names-Opened :
        (st : Logger) (name : Option (List ℕ)) (path : FilePath) (t : Trace)
        → config_path sys.program st.conf_dir ≡ some path
        → eqb_ℤ st.sock invalid_socket ≡ true
        → Holds [] 0 t0 t
        → Ends (Opened t0) (with_names sys (some ident) facility st name t)
    unfolding with_names named
    with_names-Opened st none path t is e h = open_failed-Opened false true st t e h
    with_names-Opened st (some name) path t is e h =
        start_winsock-Opened (named name (sys.module_name t) st) path t is refl h

-- the log is closed and holds nothing
abbrev pub AtRest : Trace → Logger → Trace → Type 0
AtRest t st u = (st.initialized ≡ false) × Holds [] 0 t u

closelog-AtRest :
    (t0 : Trace) (st : Logger) (t : Trace) → Opened t0 st t → Ends (AtRest t0) (closelog st t)
unfolding closelog
closelog-AtRest t0 st t h =
    Ends-if (AtRest t0) st.initialized _ _ t
      (λ opened. (refl, Holds-cleaned (Holds-closed st.sock (rw opened at h))))
      (λ not_opened. (not_opened, rw not_opened at h))

-- Whatever the system answers: if the log is closed and its variable `sock` holds INVALID_SOCKET, the
-- ident is a string, and the name of the configuration file fits, then `openlog` returns and leaves
-- no buffer. It has made each socket as often as it has closed it, but once more the socket in `sock` if
-- the log is open then; and it has ended Winsock as often as it has started it, but once less if the
-- log is open. Behind a `closelog` the log is closed, each socket closed as often as it was made, and
-- Winsock ended as often as started.
pub openlog-Opened :
    (sys : System) (ident : List ℕ) (option facility : ℕ) (st : Logger) (path : FilePath)
    (t : Trace)
    → st.initialized ≡ false
    → eqb_ℤ st.sock invalid_socket ≡ true
    → config_path sys.program st.conf_dir ≡ some path
    → Ends
        (λ st' u. Opened t st' u × Ends (AtRest t) (closelog st' u))
        (openlog sys (some ident) option facility st t)
unfolding openlog
openlog-Opened sys ident option facility st path t closed e is =
    let st' = with_options (sys.process_id t) option facility st in
    Ends-if (λ st' u. Opened t st' u × Ends (AtRest t) (closelog st' u)) st.initialized _ _ t
      (λ opened. cc)
      (λ _.
        Ends-weaken (Opened t) (λ st' u. Opened t st' u × Ends (AtRest t) (closelog st' u))
          (with_names sys (some ident) facility st' (sys.computer_name t) t)
          (with_names-Opened t sys ident facility st' (sys.computer_name t) path t is e
            (Holds-start t))
          (λ st'' u h. (h, closelog-AtRest t st'' u h)))
