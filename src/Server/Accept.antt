-- ===== src/Server/Accept.antt =====
-- `fifo_server_runforever` of src/fifo.c.
use fifo.Prelude.{
  ℕ, zero, suc, ◌+◌, ◌-◌, ◌&&◌, not, Bool, true, false, Option, none, some, ◌++◌, length, take,
  ◌==◌, ltb, if◌then◌else◌, ◌∷◌,
}
use fifo.Prelude.Int.{ℤ, pos, minus_one, pos_part, ltb_ℤ, eqb_ℤ}
use fifo.Os.{
  Os, FilePath, nonblock_rdwr, wronly, Trace, asked_loop, Cmd, done, exited, fault, out_of_fuel,
  pure, ◌>>=◌, ◌>>◌, close, open_file, pthread_create,
}
use fifo.CString.{snprintf, precision, strcat, until_nul}
use fifo.Message.{Pipemsg, msgsz, msgbuf}
use fifo.Reader.{readpipemsg_nb}
use fifo.Api.{fifo_namelen_max, read_suffix}
use fifo.Timeout.{select_readable}
use fifo.Worker.{pipe_instance_new, pipe_instance_free}
use fifo.Server.{Server}

-- what the loop keeps: `server`, `client_fifo` and `clientmsg`
pub record Acceptor : Type 0 where
  pub server : Server
  pub client_fifo : FilePath
  pub clientmsg : Pipemsg

-- `fifo_serverloop_cb` with its argument
abbrev pub ServerLoop : Type 0
ServerLoop = Trace → ℤ

-- `snprintf(client_fifo + namelen, 255 - namelen, "%.*s", msgsz, msgbuf)`; `none` where it reads
-- behind `msgbuf`
unfoldable pub append_announced : ℕ → FilePath → Pipemsg → Option FilePath
append_announced namelen client_fifo msg =
    let n = pos_part (msgsz msg) in
    if ltb (length (msgbuf msg)) n && length (until_nul (msgbuf msg)) == length (msgbuf msg)
    then none
    else some (
        take namelen client_fifo
        ++ snprintf (fifo_namelen_max - namelen) (precision n (msgbuf msg)))

module _ (os : Os) where
  -- `pthread_create` and its failure; `false` is `break`.
  unfoldable pub start_worker : Acceptor → ℤ → ℤ → Cmd (Bool × Acceptor)
  unfolding pipe_instance_new pipe_instance_free
  start_worker st requestfd replyfd = do
    inst ← pipe_instance_new os requestfd replyfd (st.server).client_timeout
    r ← pthread_create os requestfd replyfd
    if eqb_ℤ r minus_one
        then (do close requestfd; close replyfd; pipe_instance_free inst; pure (false, st))
        else pure (true, st)

  -- The reply pipe; `none` where `strcat` leaves `client_fifo`.
  unfoldable pub open_reply_pipe : Acceptor → ℤ → Option FilePath → Cmd (Bool × Acceptor)
  unfolding start_worker
  open_reply_pipe st requestfd none = fault
  open_reply_pipe st requestfd (some client_fifo) = do
    replyfd ← open_file os client_fifo wronly
    let st' = record st { client_fifo = client_fifo }
    if eqb_ℤ replyfd minus_one
        then (do close requestfd; pure (true, st'))
        else start_worker st' requestfd replyfd

  -- the request pipe
  unfoldable pub open_request_pipe : Acceptor → Option FilePath → Cmd (Bool × Acceptor)
  unfolding open_reply_pipe
  open_request_pipe st none = fault
  open_request_pipe st (some client_fifo) = do
    requestfd ← open_file os client_fifo nonblock_rdwr
    let st' = record st { client_fifo = client_fifo }
    if eqb_ℤ requestfd minus_one
        then pure (true, st')
        else open_reply_pipe st' requestfd (strcat (fifo_namelen_max + 1) client_fifo read_suffix)

  -- a `select` that found the server's pipe ready
  unfoldable pub accept_client : ℕ → Acceptor → Cmd (Bool × Acceptor)
  unfolding append_announced open_request_pipe
  accept_client fuel st = do
    (result, msg) ← readpipemsg_nb os fuel (st.server).accept_pipefd st.clientmsg
    let st' = record st { clientmsg = msg }
    if eqb_ℤ result (pos 0) && ltb_ℤ (pos 0) (msgsz msg)
        then open_request_pipe st' (append_announced (st.server).namelen st.client_fifo msg)
        else pure (true, st')

  -- One round of the loop; `false` is `break`.
  unfoldable pub accept_round : ℕ → Acceptor → Cmd (Bool × Acceptor)
  unfolding accept_client
  accept_round fuel st = do
    (rc, left) ← select_readable os (st.server).accept_pipefd (st.server).connect_timeout
    let st' = record st { server = record (st.server) { connect_timeout = left } }
    if eqb_ℤ rc (pos 1) then accept_client fuel st' else pure (eqb_ℤ rc (pos 0), st')

  -- `! servloopcb || servloopcb(loopcbarg)`
  abbrev pub go_on : Option ServerLoop → Cmd Bool
  go_on none = pure true
  go_on (some servloopcb) =
      λ t. done (not (eqb_ℤ (servloopcb t) (pos 0))) (asked_loop (servloopcb t) ∷ t)

  unfoldable pub accept_loop : ℕ → ℕ → Option ServerLoop → Acceptor → Cmd (Unit {0})
  accept_loop zero fuel servloopcb st = out_of_fuel
  accept_loop (suc rounds) fuel servloopcb st = do
    again ← go_on servloopcb
    if again
        then (do
          (ok, st') ← accept_round fuel st
          if ok then accept_loop rounds fuel servloopcb st' else pure tt)
        else pure tt

  -- `stack` is what `clientmsg` holds at first. Behind the loop stands `exit(EXIT_FAILURE)`.
  unfoldable pub server_runforever : ℕ → ℕ → Option ServerLoop → Pipemsg → Server → Cmd (Unit {0})
  server_runforever rounds fuel servloopcb stack server =
      accept_loop rounds fuel servloopcb (record {
        server = server;
        client_fifo = snprintf fifo_namelen_max (precision server.namelen server.pipename);
        clientmsg = stack;
      })
      >> exited
