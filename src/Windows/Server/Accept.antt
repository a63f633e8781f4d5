-- ===== src/Windows/Server/Accept.antt =====
-- A client that connects gets an instance that waits for its first request.
use fifo.Prelude.{◌≡◌, true, false, ◌∷◌, ◌==◌}
use fifo.Prelude.Int.{ℤ, eqb_ℤ}
use fifo.Effect.{done}
use fifo.Message.{decode32, msgsz, zero_msg}
use fifo.Windows.System.{
  System, io_pending, invalid_handle, Trace, global_allocated, read_started, created_pipe,
  connected, got_result,
}
use fifo.Windows.Instance.{PipeInstance, unless_started, expected_written, completed_write}
use fifo.Windows.Server.{
  Server, Listener, connecting, connect_to_new_client, listen, serve_client, accept_client,
}

module _ (sys : System) (server : Server) (st : Listener) (t : Trace) where
  abbrev pub result_known : Trace
  result_known = got_result st.named_pipe true ∷ t

  -- the instance of the client
  abbrev pub fresh : PipeInstance
  fresh = record {
    address = sys.global_alloc result_known;
    pipe_inst = st.named_pipe;
    request = zero_msg;
    reply = zero_msg;
  }

  abbrev pub first_read : Trace
  first_read =
      read_started st.named_pipe true
      ∷ global_allocated (sys.global_alloc result_known)
      ∷ result_known

  -- the pipe for the next client
  abbrev pub next_pipe : ℤ
  next_pipe = sys.create_named_pipe first_read server.pipename server.client_timeout

  abbrev pub next_waits : Trace
  next_waits =
      connected next_pipe false
      ∷ created_pipe server.pipename server.client_timeout next_pipe
      ∷ first_read

  -- The connection of a client, which was pending, has ended well. If the system grants memory, the
  -- first read, the next pipe and a pending connection on it, then the server has started one read on
  -- the client's pipe and nothing else on it, keeps its instance in front of the others, and waits
  -- for the next client on the next pipe.
  pub accept_client-fresh :
      st.pending ≡ true
      → sys.overlapped_result t st.named_pipe ≡ true
      → (sys.global_alloc result_known == 0) ≡ false
      → sys.read_file_ex
          (global_allocated (sys.global_alloc result_known) ∷ result_known)
          st.named_pipe
        ≡ true
      → eqb_ℤ next_pipe invalid_handle ≡ false
      → sys.connect_named_pipe
          (created_pipe server.pipename server.client_timeout next_pipe ∷ first_read)
          next_pipe
        ≡ false
      → sys.last_error next_waits ≡ io_pending
      → accept_client sys server st t
        ≡ done
            (record { named_pipe = next_pipe; pending = true; instances = fresh ∷ st.instances })
            next_waits
  unfolding accept_client serve_client completed_write unless_started expected_written msgsz
      decode32 listen connect_to_new_client connecting
  accept_client-fresh pending result memory reads made connects error =
      rw (pending, result, memory, reads, made, connects, error)
