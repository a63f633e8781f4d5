-- ===== src/Windows/Server.antt =====
-- The server of src/fifo-win.c: one thread that accepts clients and, while it waits, runs the
-- completion routines of its instances.
pub mod Accept
pub mod Released
pub mod Invariant
pub mod Loop
use fifo.Prelude.{
  ℕ, zero, suc, ◌+◌, ◌-◌, not, Bool, true, false, Option, none, some, List, [], ◌∷◌, take, ◌==◌,
  if◌then◌else◌,
}
use fifo.Prelude.Int.{ℤ, pos, eqb_ℤ}
use fifo.Effect.{copy_name, done, exited, out_of_fuel, pure, ◌>>=◌, ◌>>◌}
use fifo.Os.{FilePath}
use fifo.CString.{strnlen}
use fifo.Message.{zero_msg}
use fifo.Api.{fifo_s_ok, fifo_e_failed, fifo_namelen_max}
use fifo.Windows.System.{
  System, LastError, io_pending, pipe_connected, invalid_handle, Completion, Wait, timed_out,
  io_completion, signalled, wait_failed, Trace, asked_loop, Cmd, close_handle, mem_free,
  mem_alloc_zero, last_error, global_alloc, create_event, create_named_pipe, connect_named_pipe,
  set_event, wait_ex, overlapped_result,
}
use fifo.Windows.Instance.{OnPipemsg, PipeInstance, completed_write, complete}
use fifo.Windows.Client.{win_default_name, win_name_or_default}

-- sizeof(fifo_server_t) on a 64-bit system
abbrev pub sizeof_server : ℕ
sizeof_server = 64

pub record Server : Type 0 where
  pub address : ℕ
  pub connect_event : ℤ
  pub client_timeout : ℤ
  pub connect_timeout : ℤ
  pub namelen : ℕ
  pub pipename : FilePath

unfoldable pub server_get_pipename : Option Server → FilePath
server_get_pipename none = win_default_name
server_get_pipename (some server) = server.pipename

unfoldable pub server_free : Server → Cmd (Unit {0})
server_free server = close_handle server.connect_event >> mem_free server.address

-- what `fifo_server_runforever` keeps: `hNamedPipe`, `fPendingIO` and the instances that live
pub record Listener : Type 0 where
  pub named_pipe : ℤ
  pub pending : Bool
  pub instances : List PipeInstance

-- `fifo_serverloop_cb` with its argument
abbrev pub ServerLoop : Type 0
ServerLoop = Trace → ℤ

-- `! servloopcb || servloopcb(loopcbarg)`
abbrev pub go_on : Option ServerLoop → Cmd Bool
go_on none = pure true
go_on (some servloopcb) =
    λ t. done (not (eqb_ℤ (servloopcb t) (pos 0))) (asked_loop (servloopcb t) ∷ t)

-- an instance as its routine left it, in front of the others
abbrev pub kept : Option PipeInstance → List PipeInstance → List PipeInstance
kept none insts = insts
kept (some inst) insts = inst ∷ insts

module _ (sys : System) where
  unfoldable pub server_new : Option FilePath → ℤ → ℤ → Cmd (ℤ × Option Server)
  server_new pathname client_timeout connect_timeout = do
    let pipename = win_name_or_default pathname
    let namelen = strnlen pipename (fifo_namelen_max - 12)
    let size = sizeof_server + namelen + 1
    p ← mem_alloc_zero sys size
    copy_name size sizeof_server namelen
    h ← create_event sys
    if eqb_ℤ h (pos 0) then mem_free p >> pure (fifo_e_failed, none) else (do
      let srvr : Server = record {
        address = p;
        connect_event = h;
        client_timeout = client_timeout;
        connect_timeout = connect_timeout;
        namelen = namelen;
        pipename = take namelen pipename;
      }
      pure (fifo_s_ok, some srvr))

  -- the `switch` of `ConnectToNewClient`
  unfoldable pub connecting : ℤ → LastError → Cmd Bool
  connecting event io_pending = pure true
  connecting event pipe_connected = set_event sys event >> pure false
  connecting event _ = pure false

  unfoldable pub connect_to_new_client : ℤ → ℤ → Cmd Bool
  unfolding connecting
  connect_to_new_client pipe event = do
    ok ← connect_named_pipe sys pipe
    if ok then pure false else (last_error sys >>= connecting event)

  -- `CreateNamedPipeA` and the wait for its client
  unfoldable pub listen : Server → List PipeInstance → Cmd Listener
  unfolding connect_to_new_client
  listen server insts = do
    h ← create_named_pipe sys server.pipename server.client_timeout
    if eqb_ℤ h invalid_handle then exited else (do
      pending ← connect_to_new_client h server.connect_event
      pure (record { named_pipe = h; pending = pending; instances = insts }))

  -- the completion of one instance, by its address
  unfoldable pub complete_at :
      OnPipemsg → ℕ → Completion → List PipeInstance → Cmd (List PipeInstance)
  complete_at pipemsgcb p c [] = pure []
  complete_at pipemsgcb p c (inst ∷ insts) =
      if inst.address == p
      then (do inst' ← complete sys pipemsgcb c inst; pure (kept inst' insts))
      else (do insts' ← complete_at pipemsgcb p c insts; pure (inst ∷ insts'))

  -- the routines that the system runs during the wait
  unfoldable pub run_completions :
      OnPipemsg → List (ℕ × Completion) → List PipeInstance → Cmd (List PipeInstance)
  unfolding complete_at
  run_completions pipemsgcb [] insts = pure insts
  run_completions pipemsgcb ((p, c) ∷ rest) insts =
      complete_at pipemsgcb p c insts >>= run_completions pipemsgcb rest

  -- a client has connected, with the result of a pending connection known
  unfoldable pub serve_client : Server → Listener → Cmd Listener
  unfolding listen
  serve_client server st = do
    p ← global_alloc sys
    if p == 0 then exited else (do
      let inst : PipeInstance = record {
        address = p;
        pipe_inst = st.named_pipe;
        request = zero_msg;
        reply = zero_msg;
      }
      inst' ← completed_write sys 0 0 inst
      listen server (kept inst' st.instances))

  unfoldable pub accept_client : Server → Listener → Cmd Listener
  unfolding serve_client
  accept_client server st =
      if st.pending
      then (do
        ok ← overlapped_result sys st.named_pipe
        if ok then serve_client server st else exited)
      else serve_client server st

  -- what follows a wait
  unfoldable pub handle_wait : OnPipemsg → Server → Listener → Wait → Cmd Listener
  unfolding run_completions accept_client
  handle_wait pipemsgcb server st timed_out = pure st
  handle_wait pipemsgcb server st (io_completion cs) = do
    insts ← run_completions pipemsgcb cs st.instances
    pure (record st { instances = insts })
  handle_wait pipemsgcb server st signalled = accept_client server st
  handle_wait pipemsgcb server st wait_failed = exited

  unfoldable pub server_loop :
      ℕ → OnPipemsg → Option ServerLoop → Server → Listener → Cmd (Unit {0})
  unfolding handle_wait
  server_loop zero pipemsgcb servloopcb server st = out_of_fuel
  server_loop (suc rounds) pipemsgcb servloopcb server st = do
    again ← go_on servloopcb
    if again
        then (do
          w ← wait_ex sys server.connect_event server.connect_timeout
          st' ← handle_wait pipemsgcb server st w
          server_loop rounds pipemsgcb servloopcb server st')
        else pure tt

  unfoldable pub server_runforever : ℕ → OnPipemsg → Option ServerLoop → Server → Cmd (Unit {0})
  unfolding server_loop
  server_runforever rounds pipemsgcb servloopcb server = do
    st ← listen server []
    server_loop rounds pipemsgcb servloopcb server st
