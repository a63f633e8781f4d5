-- ===== src/Programs/Whole.antt =====
-- A whole run of examples/fifoclient.c: what it leaves behind.
use fifo.Prelude.{
  List, ◌∷◌, ℕ, zero, suc, ◌+◌, ◌≡◌, Bool-cases, Option-cases, ◌∙◌, ◌≤◌, [], arith, inl, inr,
  Option, none, some, length, take, ltb,
}
use fifo.Prelude.Int.{ℤ, pos, ◌-ℤ◌, pos_part, eqb_ℤ, ltb_ℤ}
use fifo.Effect.Ends.{Ends}
use fifo.Effect.Outcomes.{Stops, Outcome, returns, and_then-Outcome, Outcome-weaken}
use fifo.Os.{Os, Event, Trace, Run, Cmd, done, exited, fault, out_of_fuel, and_then}
use fifo.Os.Balance.{Owes, Owes-start, Owes-did_write, Owes-did_read, Owes-did_select}
use fifo.Message.{Pipemsg, msgsz, pipemsg_size_max}
use fifo.Api.{fifo_s_ok}
use fifo.Message.Store.{length-overlay}
use fifo.Reader.{read_into}
use fifo.Reader.Rounds.{read_into-overlay, read_into-none}
use fifo.Reader.Safety.{ReadsAtMost}
use fifo.Worker.Reply.{length-set_msgsz}
use fifo.Programs.Hello.{length-hello_msg}
use fifo.Timeout.Select.{asked, answer, left, behind, select_readable_lem}
use fifo.Client.{Client, client_write, client_read, set_received, client_free}
use fifo.Client.Connect.{client_new}
use fifo.Client.Free.{IsConnected, client_free-Connected}
use fifo.Client.Settled.{OpensNonzero, Settled, client_new-Settled}
use fifo.Programs.{hello_msg, chat, chat_if_connected, client_main, at_exit}

abbrev pub still : (fds : List ℤ) (blocks : List ℕ) → Trace → Stops Event
still k b t = record { on_exit = λ u. Owes k b t u; on_fault = λ u. ⊥; on_fuel = λ u. ⊥ }

-- The run returns a result with `Q`, or ends the process, with this much held; it makes no fault and
-- does not run out of fuel.
abbrev pub Leaves :
    {A : Type 0} → (A → Type 0) → (fds : List ℤ) (blocks : List ℕ) → Trace → Run A → Type 0
Leaves Q k b t = Outcome (still k b t) (λ a u. Q a × Owes k b t u)

abbrev pub Any : {A : Type 0} → A → Type 0
Any _ = Unit {0}

and_then-Leaves :
    {A B : Type 0} (Q : A → Type 0) (R : B → Type 0) (k : List ℤ) (b : List ℕ) (t : Trace)
    (r : Run A) (next : A → Cmd B)
    → Leaves Q k b t r
    → ((a : A) (u : Trace) → Q a → Owes k b t u → Leaves R k b t (next a u))
    → Leaves R k b t (and_then r next)
and_then-Leaves Q R k b t r next h then_next =
    and_then-Outcome (still k b t) (λ a u. Q a × Owes k b t u) (λ a u. R a × Owes k b t u) r next h
      (λ a u (q, h'). then_next a u q h')

module _ (os : Os) (at_most : ReadsAtMost os) (k : List ℤ) (b : List ℕ) (t0 : Trace) where
  client_write-Leaves :
      (client : Client) (msg : Pipemsg) (t : Trace)
      → Owes k b t0 t
      → Leaves Any k b t0 (client_write os client msg t)
  unfolding client_write
  client_write-Leaves client msg t h = elim (Bool-cases (ltb_ℤ (msgsz msg) (pos 0))) [
    | inl negative ↦ rw negative (tt, h)
    | inr fine ↦
        let frame = take (4 + pos_part (msgsz msg)) msg in
        elim (Bool-cases (ltb 4092 (pos_part (msgsz msg)))) [
          | inl large ↦ rw (fine, large) (tt, h)
          | inr fits ↦
              rw (fine, fits)
                (tt, Owes-did_write client.writefd frame (os.write t client.writefd frame) h)
        ]
  ]

  -- the client and the message behind a read
  WholeReply : ℤ × Client × Pipemsg → Type 0
  WholeReply (_, _, msg) = length msg ≡ 4096

  set_received-Leaves :
      (count : ℤ) (client : Client) (msg : Pipemsg) (t : Trace)
      → length msg ≡ 4096
      → Owes k b t0 t
      → Leaves WholeReply k b t0 (set_received os count client msg t)
  unfolding set_received WholeReply
  set_received-Leaves count client msg t whole h = elim (Bool-cases (eqb_ℤ count (pos 0))) [
    | inl nothing ↦ rw nothing (length-set_msgsz (pos 0) msg (omega arith) ∙ whole, h)
    | inr other ↦ elim (Bool-cases (ltb_ℤ (pos 0) count)) [
      | inl some_bytes ↦
          rw (other, some_bytes) (length-set_msgsz (count -ℤ pos 4) msg (omega arith) ∙ whole, h)
      | inr failed ↦ rw (other, failed) h
    ]
  ]

  -- the count and the message of one `read`
  WholeRead : ℤ × Pipemsg → Type 0
  WholeRead (_, msg) = length msg ≡ 4096

  read_into-Leaves :
      (fd : ℤ) (msg : Pipemsg) (t : Trace)
      → length msg ≡ 4096
      → Owes k b t0 t
      → Leaves WholeRead k b t0 (read_into os fd msg (pos 0) pipemsg_size_max t)
  unfolding WholeRead
  read_into-Leaves fd msg t whole h = elim (Option-cases (os.read t fd 4096)) [
    | inl nothing ↦
        rw (read_into-none os fd 0 msg 4096 t (omega arith) nothing)
          (whole, Owes-did_read fd 4096 none h)
    | inr (bytes, got) ↦
        let fits : length bytes ≤ length msg = omega (arith, at_most t fd 4096 bytes got) in
        rw (read_into-overlay os fd [] bytes msg 4096 t (omega arith) got)
          (length-overlay bytes msg fits ∙ whole, Owes-did_read fd 4096 (some bytes) h)
  ]

  client_read-Leaves :
      (client : Client) (msg : Pipemsg) (t : Trace)
      → length msg ≡ 4096
      → Owes k b t0 t
      → Leaves WholeReply k b t0 (client_read os client msg t)
  unfolding client_read WholeReply WholeRead
  client_read-Leaves client msg t whole h =
      let fd = client.readfd in
      let timeout = client.wait_timeout in
      let rc = (answer os fd timeout t).0 in
      let u = behind os fd timeout t in
      let client' = record client { wait_timeout = left os fd timeout t } in
      let h' = Owes-did_select fd (asked timeout) rc h in
      elim (Bool-cases (eqb_ℤ rc (pos 1))) [
        | inr other ↦ rw (select_readable_lem os fd timeout t, other) (whole, h')
        | inl one ↦
            rw (select_readable_lem os fd timeout t, one)
              (and_then-Leaves WholeRead WholeReply k b t0
                (read_into os fd msg (pos 0) pipemsg_size_max u) _
                (read_into-Leaves fd msg u whole h')
                (λ (count, msg') v w h''. set_received-Leaves count client' msg' v w h''))
      ]

  chat-Leaves :
      (rounds i : ℕ) (client : Client) (msg : Pipemsg) (t : Trace)
      → length msg ≡ 4096
      → Owes k b t0 t
      → Leaves Any k b t0 (chat os rounds i client msg t)
  unfolding chat WholeReply
  chat-Leaves zero i client msg t whole h = (tt, h)
  chat-Leaves (suc rounds) i client msg t whole h =
      let asking = hello_msg i msg in
      let whole' = length-hello_msg i msg whole in
      and_then-Leaves Any Any k b t0 (client_write os client asking t) _
        (client_write-Leaves client asking t h)
        (λ rc u _ h'. elim (Bool-cases (eqb_ℤ rc fifo_s_ok)) [
          | inr failed ↦ rw failed (tt, h')
          | inl sent ↦ rw sent (
              and_then-Leaves WholeReply Any k b t0 (client_read os client asking u) _
                (client_read-Leaves client asking u whole' h')
                (λ (_, client', msg') v w h''. chat-Leaves rounds (i + 1) client' msg' v w h''))
        ])

module _ (os : Os) (at_most : ReadsAtMost os) (t0 : Trace) where
  Ends-Leaves : {A : Type 0} (r : Run A) → Ends (λ _ u. Owes [] [] t0 u) r → Leaves Any [] [] t0 r
  Ends-Leaves r h =
      Outcome-weaken returns (still [] [] t0) (λ _ u. Owes [] [] t0 u)
        (λ _ u. Unit {0} × Owes [] [] t0 u) r h (λ u h. absurd h) (λ u h. h) (λ u h. h)
        (λ a u owes. (tt, owes))

  at_exit-Leaves :
      (client : Client) (r : Run (Unit {0}))
      → IsConnected client
      → Leaves Any (client.readfd ∷ client.writefd ∷ []) (client.address ∷ []) t0 r
      → Leaves Any [] [] t0 (at_exit (client_free os client) r)
  at_exit-Leaves client (done a u) con (_, h) =
      Ends-Leaves (client_free os client u) (client_free-Connected os client t0 u con h)
  at_exit-Leaves client (exited u) con h =
      and_then-Leaves Any Any [] [] t0 (client_free os client u) _
        (Ends-Leaves (client_free os client u) (client_free-Connected os client t0 u con h))
        (λ a v _ h'. h')
  at_exit-Leaves client (fault u) con h = h
  at_exit-Leaves client (out_of_fuel u) con h = h

  made-Leaves :
      (stack : Pipemsg) (r : Run (ℤ × Option Client))
      → length stack ≡ 4096
      → Settled t0 r
      → Leaves Any [] [] t0 (and_then r (λ made. chat_if_connected os made stack))
  unfolding chat_if_connected
  made-Leaves stack (done (rc, none) u) whole (_, h) = (tt, h)
  made-Leaves stack (done (rc, some client) u) whole (_, con, h) =
      at_exit-Leaves client (chat os 10_000 1 client stack u) con (
        chat-Leaves os at_most (client.readfd ∷ client.writefd ∷ []) (client.address ∷ []) t0 10_000
          1 client stack u whole h)
  made-Leaves stack (exited u) whole e = rw e (Owes-start t0)
  made-Leaves stack (fault u) whole h = h
  made-Leaves stack (out_of_fuel u) whole h = h

-- Whatever the system answers, as long as `open` never returns 0 and `read` delivers no more than it
-- is asked for: the program fifoclient.c ends, by a return from `main` or by `exit`, and leaves no
-- array; behind its exit handler it has closed each descriptor as often as `open` has returned it, and
-- freed each block as often as it has allocated it.
pub client_main-Leaves :
    (os : Os) (announced stack : Pipemsg) (t : Trace)
    → ReadsAtMost os
    → OpensNonzero os
    → length announced ≡ 4096
    → length stack ≡ 4096
    → Leaves Any [] [] t (client_main os announced stack t)
unfolding client_main
client_main-Leaves os announced stack t at_most nonzero whole whole' =
    made-Leaves os at_most t stack (client_new os none (pos 3000) announced t) whole'
      (client_new-Settled os none (pos 3000) announced t nonzero whole)
