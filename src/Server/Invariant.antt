-- ===== src/Server/Invariant.antt =====
-- What every round of `fifo_server_runforever` keeps.
use fifo.Prelude.{
  [], arith, ℕ, ◌+◌, ◌≡◌, refl, ◌⊎◌, ap, ◌∙◌, Bool, Bool-cases, inl, inr, true, false, none, some,
  List, ◌∷◌, ◌++◌, length, take, ltb, ◌==◌, ◌&&◌, if◌then◌else◌, append_assoc, take-append_length,
}
use fifo.Prelude.Int.{ℤ, pos, minus_one, eqb_ℤ, ltb_ℤ}
use fifo.Effect.Emits.{Extends, trace_of}
use fifo.Effect.Outcomes.{Stops, Outcome, and_then-Outcome}
use fifo.Os.{
  Os, FilePath, nonblock_rdwr, wronly, Event, opened, allocated, Trace, Run, Cmd, done, exited,
  fault, out_of_fuel, and_then, mem_alloc_zero,
}
use fifo.Message.{Pipemsg, msgsz}
use fifo.Api.{read_suffix}
use fifo.Reader.{readpipemsg_nb}
use fifo.Worker.{sizeof_pipe_instance}
use fifo.Worker.Emits.{readpipemsg_nb-Emits}
use fifo.Server.{Server}
use fifo.Server.Accept.{
  Acceptor, append_announced, start_worker, open_reply_pipe, open_request_pipe, accept_client,
}
use fifo.Server.Handed.{
  Holds, IsNeutral, IsNeutral-Permits, Holds-open_failed, Holds-opened, Holds-closed, Holds-created,
  Holds-Extends,
}

-- The server of the loop is `server` but for what is left of its timeout, and `client_fifo` starts
-- with the name of its pipe.
pub record IsReady (server : Server) (prefix : FilePath) (st : Acceptor) : Type 0 where
  pub accept_pipefd : (st.server).accept_pipefd ≡ server.accept_pipefd
  pub client_timeout : (st.server).client_timeout ≡ server.client_timeout
  pub namelen : (st.server).namelen ≡ length prefix
  pub name : take (length prefix) st.client_fifo ≡ prefix

-- nothing is held, or two descriptors
abbrev pub LostAtExit : Trace → Trace → Type 0
LostAtExit t u =
    Holds [] [] t u ⊎ ((requestfd replyfd : ℤ) × Holds (replyfd ∷ requestfd ∷ []) [] t u)

-- what the process may hold where it ends by `exit`: nothing, or the two pipes of the client for
-- whose instance there is no memory
abbrev pub at_loop_exit : Trace → Stops Event
at_loop_exit t = record {
  on_exit = λ u. LostAtExit t u;
  on_fault = λ u. Unit {0};
  on_fuel = λ u. Holds [] [] t u;
}

-- the state as a round leaves it, with nothing held, where the run returns or goes on
abbrev pub Leaves : {A : Type 0} → (A → Type 0) → Trace → Run A → Type 0
Leaves Q t = Outcome (at_loop_exit t) (λ a u. Q a × Holds [] [] t u)

pub and_then-Leaves :
    {A B : Type 0} (Q : A → Type 0) (R : B → Type 0) (t : Trace) (r : Run A) (k : A → Cmd B)
    → Leaves Q t r
    → ((a : A) (u : Trace) → Q a → Holds [] [] t u → Leaves R t (k a u))
    → Leaves R t (and_then r k)
and_then-Leaves Q R t r k h next =
    and_then-Outcome (at_loop_exit t) (λ a u. Q a × Holds [] [] t u) (λ b u. R b × Holds [] [] t u)
      r k h (λ a u (q, h'). next a u q h')

neutral-Leaves :
    {A : Type 0} (t u : Trace) (r : Run A)
    → Holds [] [] t u
    → Extends IsNeutral u (trace_of r)
    → Leaves (λ _. Unit {0}) t r
neutral-Leaves t u (done a v) h e = (tt, Holds-Extends h e)
neutral-Leaves t u (exited v) h e = inl (Holds-Extends h e)
neutral-Leaves t u (fault v) h e = tt
neutral-Leaves t u (out_of_fuel v) h e = Holds-Extends h e

starts_with :
    (prefix rest fifo : FilePath) → fifo ≡ prefix ++ rest → take (length prefix) fifo ≡ prefix
starts_with prefix rest fifo e = ap (take (length prefix)) e ∙ take-append_length prefix rest

-- what a round returns
abbrev pub Ready : Server → FilePath → Bool × Acceptor → Type 0
Ready server prefix (_, st) = IsReady server prefix st

if-cases :
    (b : Bool) (front rest : FilePath)
    → let made = if b then none else some (front ++ rest) in
      (made ≡ none) ⊎ ((rest' : FilePath) × (made ≡ some (front ++ rest')))
if-cases true front rest = inl refl
if-cases false front rest = inr (rest, refl)

append_announced-cases :
    (namelen : ℕ) (fifo : FilePath) (msg : Pipemsg)
    → (append_announced namelen fifo msg ≡ none)
      ⊎ ((rest : FilePath) × (append_announced namelen fifo msg ≡ some (take namelen fifo ++ rest)))
unfolding append_announced
append_announced-cases namelen fifo msg = if-cases _ (take namelen fifo) _

-- `pthread_create` starts a thread each time that it is called: it returns 0.
abbrev pub StartsThreads : Os → Type 0
StartsThreads os = (t : Trace) → eqb_ℤ (os.pthread_create t) (pos 0) ≡ true

started-no_failure : (r : ℤ) → eqb_ℤ r (pos 0) ≡ true → eqb_ℤ r minus_one ≡ false
started-no_failure r e = ground arith

module _ (os : Os) (starts : StartsThreads os) (server : Server) (prefix : FilePath)
    (t0 : Trace) where
  start_worker-Ready :
      (st : Acceptor) (requestfd replyfd : ℤ) (t : Trace)
      → IsReady server prefix st
      → Holds (replyfd ∷ requestfd ∷ []) [] t0 t
      → Leaves (Ready server prefix) t0 (start_worker os st requestfd replyfd t)
  unfolding start_worker mem_alloc_zero
  start_worker-Ready st requestfd replyfd t ready h = elim (Bool-cases (os.calloc t == 0)) [
    | inl null ↦ rw null (inr (requestfd, replyfd, h))
    | inr some_block ↦
        let u = allocated (os.calloc t) sizeof_pipe_instance ∷ t in
        rw (some_block, started-no_failure (os.pthread_create u) (starts u))
          (
            ready,
            Holds-created requestfd replyfd (os.pthread_create u) (os.calloc t) sizeof_pipe_instance
                (starts u) h,
          )
  ]

  renamed :
      (st : Acceptor) (path : FilePath)
      → take (length prefix) path ≡ prefix
      → IsReady server prefix st
      → IsReady server prefix (record st { client_fifo = path })
  renamed st path named ready = record {
    accept_pipefd = ready.accept_pipefd;
    client_timeout = ready.client_timeout;
    namelen = ready.namelen;
    name = named;
  }

  open_reply_pipe-Ready :
      (st : Acceptor) (requestfd : ℤ) (path : FilePath) (t : Trace)
      → take (length prefix) path ≡ prefix
      → IsReady server prefix st
      → Holds (requestfd ∷ []) [] t0 t
      → Leaves (Ready server prefix) t0 (open_reply_pipe os st requestfd (some path) t)
  unfolding open_reply_pipe
  open_reply_pipe-Ready st requestfd path t named ready h =
      let fd = os.open_file t path wronly in
      let st' = record st { client_fifo = path } in
      let ready' = renamed st path named ready in
      elim (Bool-cases (eqb_ℤ fd minus_one)) [
        | inl failed ↦
            rw failed (ready', Holds-closed requestfd (Holds-open_failed path wronly fd failed h))
        | inr ok ↦ rw ok (
            start_worker-Ready st' requestfd fd (opened path wronly fd ∷ t) ready'
              (Holds-opened path wronly fd ok h))
      ]

  open_request_pipe-Ready :
      (st : Acceptor) (rest : List ℕ) (t : Trace)
      → IsReady server prefix st
      → Holds [] [] t0 t
      → Leaves (Ready server prefix) t0 (open_request_pipe os st (some (prefix ++ rest)) t)
  unfolding open_request_pipe
  open_request_pipe-Ready st rest t ready h =
      let path = prefix ++ rest in
      let fd = os.open_file t path nonblock_rdwr in
      let st' = record st { client_fifo = path } in
      let ready' = renamed st path (take-append_length prefix rest) ready in
      elim (Bool-cases (eqb_ℤ fd minus_one)) [
        | inl failed ↦ rw failed (ready', Holds-open_failed path nonblock_rdwr fd failed h)
        | inr ok ↦ elim (Bool-cases (ltb (length path + 5) 256)) [
          | inr too_long ↦ rw (ok, too_long) tt
          | inl fits ↦
              rw (ok, fits)
                (open_reply_pipe-Ready st' fd (path ++ read_suffix)
                  (opened path nonblock_rdwr fd ∷ t)
                  (starts_with prefix (rest ++ read_suffix) (path ++ read_suffix)
                    (append_assoc prefix rest read_suffix))
                  ready' (Holds-opened path nonblock_rdwr fd ok h))
        ]
      ]

  -- the message read, or what it held
  reread :
      (st : Acceptor) (msg : Pipemsg)
      → IsReady server prefix st
      → IsReady server prefix (record st { clientmsg = msg })
  reread st msg ready = record {
    accept_pipefd = ready.accept_pipefd;
    client_timeout = ready.client_timeout;
    namelen = ready.namelen;
    name = ready.name;
  }

  announced-Ready :
      (st : Acceptor) (t : Trace)
      → IsReady server prefix st
      → Holds [] [] t0 t
      → Leaves (Ready server prefix) t0 (
          open_request_pipe os st
            (append_announced (st.server).namelen st.client_fifo st.clientmsg)
            t)
  unfolding open_request_pipe
  announced-Ready st t ready h =
      elim (append_announced-cases (st.server).namelen st.client_fifo st.clientmsg) [
        | inl overread ↦ rw overread tt
        | inr (rest, made) ↦
            let same : take (st.server).namelen st.client_fifo ≡ prefix =
              ap (λ n. take n st.client_fifo) ready.namelen ∙ ready.name in
            rw (made, same) (open_request_pipe-Ready st rest t ready h)
      ]

  pub accept_client-Ready :
      (fuel : ℕ) (st : Acceptor) (t : Trace)
      → IsReady server prefix st
      → Holds [] [] t0 t
      → Leaves (Ready server prefix) t0 (accept_client os fuel st t)
  unfolding accept_client
  accept_client-Ready fuel st t ready h =
      let fd = (st.server).accept_pipefd in
      and_then-Leaves (λ _. Unit {0}) (Ready server prefix) t0
        (readpipemsg_nb os fuel fd st.clientmsg t) _
        (neutral-Leaves t0 t (readpipemsg_nb os fuel fd st.clientmsg t) h
          ((readpipemsg_nb-Emits IsNeutral-Permits os fuel fd st.clientmsg).emits t))
        (λ (result, msg) u _ h'.
          let ready' = reread st msg ready in
          elim (Bool-cases (eqb_ℤ result (pos 0) && ltb_ℤ (pos 0) (msgsz msg))) [
            | inl announced ↦
                rw announced (announced-Ready (record st { clientmsg = msg }) u ready' h')
            | inr nothing ↦ rw nothing (ready', h')
          ])
