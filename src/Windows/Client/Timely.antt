-- ===== src/Windows/Client/Timely.antt =====
-- `fifo_client_read` of src/fifo-win.c with a timeout: how long it waits.
use fifo.Prelude.{
  ge→ltb, ℕ, zero, suc, ◌+◌, ◌*◌, ◌≤◌, ◌<◌, ◌≡◌, refl, ◌∙◌, Bool-cases, inl, inr, true, false, [],
  ◌∷◌, length, ltb, leb, ltb→lt, ◌==◌, arith,
}
use fifo.Prelude.Signs.{not_negative, some-ltb}
use fifo.Prelude.Int.{ℤ, pos}
use fifo.Effect.{Run, and_then}
use fifo.Effect.Outcomes.{Stops, Outcome, and_then-Outcome}
use fifo.Effect.Ends.{Ends-Outcome, Ends, and_then-Ends, Ends-if}
use fifo.Message.{Pipemsg}
use fifo.Message.Store.{length-overlay}
use fifo.Windows.System.{System, Event, Trace, slept, peeked}
use fifo.Windows.Client.{Client, is_more_data}
use fifo.Windows.Client.Receive.{
  Attempt, int_max, store_at_start, read_now, poll, attempt, read_loop, received, client_read,
}

-- the milliseconds that a run has slept
unfoldable pub time_slept : Trace → ℕ
time_slept [] = 0
time_slept (slept ms ∷ t) = ms + time_slept t
time_slept (_ ∷ t) = time_slept t

-- `ReadFile` stores no more than it is asked for.
abbrev pub ReadsAtMost : System → Type 0
ReadsAtMost sys = (t : Trace) (h : ℤ) (n : ℕ) → length (sys.read_file t h n).1 ≤ n

abbrev pub before_limit : ℕ → Trace → Stops Event
before_limit limit t = record {
  on_exit = λ u. time_slept u < time_slept t + limit;
  on_fault = λ u. ⊥;
  on_fuel = λ u. ⊥;
}

-- The run ends, with a result or by `exit`, and has slept less than `limit` milliseconds since `t`.
abbrev pub Timely : {A : Type 0} → ℕ → Trace → Run Event A → Type 0
Timely limit t = Outcome (before_limit limit t) (λ _ u. time_slept u < time_slept t + limit)

-- A `ReadFile` between two sleeps: the message stays whole.
abbrev Within : ℕ → Attempt → Trace → Type 0
Within bound a u = (length a.msg ≡ 4096) × (time_slept u < bound)

module _ (sys : System) (bounded : ReadsAtMost sys) (h : ℤ) where
  read_now-Within :
      (a : Attempt) (t : Trace) (bound : ℕ)
      → Within bound a t
      → Ends (Within bound) (read_now sys h a t)
  unfolding read_now time_slept
  read_now-Within a t bound (whole, early) =
      let bytes = (sys.read_file t h 4096).1 in
      let small : length bytes ≤ length a.msg = omega (arith, bounded t h 4096) in
      rw (store_at_start bytes a.msg small) (length-overlay bytes a.msg small ∙ whole, early)

  -- After `waitedms` milliseconds there are less than timeout + 10 - `waitedms` left.
  poll-Within :
      (fuel timeout : ℕ) (a : Attempt) (t : Trace) (bound : ℕ)
      → length a.msg ≡ 4096
      → timeout + 9 ≤ int_max
      → timeout + 10 ≤ a.waitedms + 10 * fuel
      → a.waitedms < timeout + 10
      → time_slept t + (timeout + 10) ≤ bound + a.waitedms
      → Ends (Within bound) (poll sys fuel h timeout a t)
  unfolding poll time_slept
  poll-Within zero timeout a t bound whole limited enough short early = absurd (omega arith)
  poll-Within (suc fuel) timeout a t bound whole limited enough short early =
      elim (Bool-cases (ltb a.waitedms timeout)) [
        | inr over ↦ rw over (whole, omega arith)
        | inl under ↦
            let less : a.waitedms < timeout = ltb→lt a.waitedms timeout under in
            elim (Bool-cases (sys.peek_named_pipe t h)) [
              | inl ready ↦
                  rw (under, ready)
                    (read_now-Within a (peeked h true ∷ t) bound (whole, omega arith))
              | inr nothing ↦
                  rw (under, nothing, ge→ltb int_max (a.waitedms + 10) (omega arith))
                    (poll-Within fuel timeout
                      (record a { success = false; waitedms = a.waitedms + 10 })
                      (slept 10 ∷ peeked h false ∷ t) bound whole limited (omega arith)
                      (omega arith) (omega arith))
            ]
      ]

received-Timely :
    (sys : System) (a : Attempt) (t u : Trace) (limit : ℕ)
    → time_slept u < time_slept t + limit
    → Timely limit t (received sys a u)
unfolding received
received-Timely sys a t u limit early = elim (Bool-cases a.success) [
  | inr failed ↦ rw failed early
  | inl got ↦ elim (Bool-cases (a.bytes_read == 0)) [
    | inl none_read ↦ rw (got, none_read) early
    | inr some_read ↦ elim (Bool-cases (leb 4 a.bytes_read)) [
      | inl enough ↦ rw (got, some_read, enough) early
      | inr too_few ↦ rw (got, some_read, too_few) early
    ]
  ]
]

and_then-Timely :
    (sys : System) (limit : ℕ) (t : Trace) (r : Run Event Attempt)
    → Ends (Within (time_slept t + limit)) r
    → Timely limit t (and_then r (received sys))
and_then-Timely sys limit t r h =
    let Q = Within (time_slept t + limit) in
    and_then-Outcome (before_limit limit t) Q (λ _ u. time_slept u < time_slept t + limit) r _
      (Ends-Outcome (before_limit limit t) Q r h)
      (λ a u (whole, early). received-Timely sys a t u limit early)

module _ (sys : System) (bounded : ReadsAtMost sys)
    (no_more : (t : Trace) → is_more_data (sys.last_error t) ≡ false) (client : Client)
    (timeout : ℕ) (finite : client.wait_timeout ≡ pos timeout) (some_time : 0 < timeout)
    (limited : timeout + 9 ≤ int_max) where
  attempt-Within :
      (fuel : ℕ) (a : Attempt) (t : Trace)
      → length a.msg ≡ 4096
      → a.waitedms ≡ 0
      → timeout + 10 ≤ 10 * fuel
      → Ends (Within (time_slept t + (timeout + 10))) (attempt sys fuel client a t)
  unfolding attempt
  attempt-Within fuel a t whole fresh enough =
      rw (finite, not_negative timeout, some-ltb timeout some_time)
        (poll-Within sys bounded client.named_pipe fuel timeout a t (time_slept t + (timeout + 10))
          whole limited (omega arith) (omega arith) (omega arith))

  read_loop-Within :
      (rounds fuel : ℕ) (a : Attempt) (t : Trace)
      → length a.msg ≡ 4096
      → a.waitedms ≡ 0
      → timeout + 10 ≤ 10 * fuel
      → Ends (Within (time_slept t + (timeout + 10))) (read_loop sys (suc rounds) fuel client a t)
  unfolding read_loop
  read_loop-Within rounds fuel a t whole fresh enough =
      let Q = Within (time_slept t + (timeout + 10)) in
      and_then-Ends Q Q (attempt sys fuel client a t) _ (attempt-Within fuel a t whole fresh enough)
        (λ a' u w. Ends-if Q a'.success _ _ u (λ got. w) (λ failed. rw (no_more u) w))

  -- With a timeout of more than 0 and of at most 2147483638 milliseconds, whatever the system answers, if it stores no more
  -- than it is asked for and never reports ERROR_MORE_DATA, and the message has its 4096 bytes:
  -- `fifo_client_read` ends, with a result or by `exit`, and has slept less than ten milliseconds
  -- more than the timeout; one round of the outer loop is enough, and a tenth of the timeout and one
  -- round of the inner one.
  pub client_read-Timely :
      (rounds fuel : ℕ) (msg : Pipemsg) (t : Trace)
      → length msg ≡ 4096
      → timeout + 10 ≤ 10 * fuel
      → Timely (timeout + 10) t (client_read sys (suc rounds) fuel client msg t)
  unfolding client_read
  client_read-Timely rounds fuel msg t whole enough =
      let a : Attempt = record { success = false; waitedms = 0; bytes_read = 0; msg = msg } in
      and_then-Timely sys (timeout + 10) t (read_loop sys (suc rounds) fuel client a t)
        (read_loop-Within rounds fuel a t whole refl enough)
