-- ===== src/Programs.antt =====
-- The programs of examples/: fifoclient.c and fifoserver.c, as they run on Linux.
pub mod Answers
pub mod Chat
pub mod Hello
pub mod Texts
pub mod Serving
pub mod Whole
use fifo.Prelude.{
  ℕ, zero, suc, ◌+◌, true, false, Option, none, some, List, [], ◌∷◌, ◌++◌, length, take, drop,
  if◌then◌else◌,
}
use fifo.Prelude.Int.{ℤ, pos, eqb_ℤ}
use fifo.Os.{Os, Run, Cmd, done, exited, fault, out_of_fuel, and_then, pure, ◌>>=◌, ◌>>◌}
use fifo.CString.{codes, decimal}
use fifo.Message.{Pipemsg, set_msgsz}
use fifo.Api.{fifo_s_ok, fifo_timeout, fifo_connect_timeout}
use fifo.Client.{Client, client_write, client_read, client_free}
use fifo.Client.Connect.{client_new}
use fifo.Server.{Server, server_new, server_free}
use fifo.Server.Accept.{server_runforever}
use fifo.Sample.{sample_callback}

-- The function that `atexit` was given runs at a return from `main` and at `exit`.
abbrev pub at_exit : Cmd (Unit {0}) → Run (Unit {0}) → Run (Unit {0})
at_exit cleanup (done a t) = cleanup t
at_exit cleanup (exited t) = and_then (cleanup t) (λ _. exited)
at_exit cleanup (fault t) = fault t
at_exit cleanup (out_of_fuel t) = out_of_fuel t

-- "[%d] hello from client"
unfoldable pub hello : ℕ → List ℕ
hello i = b'[' ∷ decimal i ++ codes "] hello from client"

-- `snprintf` into `msg.msgbuf`, with its NUL, and the size
unfoldable pub hello_msg : ℕ → Pipemsg → Pipemsg
unfolding hello set_msgsz
hello_msg i msg =
    let text = hello i in
    set_msgsz (pos (length text)) (take 4 msg ++ (text ++ 0 ∷ drop (5 + length text) msg))

module _ (os : Os) where
  -- The loop with `left` rounds to go, of which the next is the `i`-th.
  unfoldable pub chat : ℕ → ℕ → Client → Pipemsg → Cmd (Unit {0})
  unfolding hello_msg
  chat zero i client msg = pure tt
  chat (suc left) i client msg = do
    rc ← client_write os client (hello_msg i msg)
    if eqb_ℤ rc fifo_s_ok
        then (do
          (_, client', msg') ← client_read os client (hello_msg i msg)
          chat left (i + 1) client' msg')
        else pure tt

  unfoldable pub chat_if_connected : ℤ × Option Client → Pipemsg → Cmd (Unit {0})
  unfolding chat
  chat_if_connected (rc, none) msg = pure tt
  chat_if_connected (rc, some client) msg =
      λ t. at_exit (client_free os client) (chat 10_000 1 client msg t)

  -- `stack` is what the message of `main` holds at first, `announced` that of `fifo_client_new`.
  unfoldable pub client_main : Pipemsg → Pipemsg → Cmd (Unit {0})
  unfolding chat_if_connected
  client_main announced stack = do
    made ← client_new os none (pos 3000) announced
    chat_if_connected made stack

  unfoldable pub serve_if_made : ℕ → ℕ → Pipemsg → ℤ × Option Server → Cmd (Unit {0})
  serve_if_made rounds fuel stack (rc, none) = pure tt
  serve_if_made rounds fuel stack (rc, some server) =
      λ t. at_exit (server_free server) (server_runforever os rounds fuel none stack server t)

  unfoldable pub server_main : ℕ → ℕ → Pipemsg → Cmd (Unit {0})
  unfolding serve_if_made
  server_main rounds fuel stack =
      server_new os none fifo_timeout fifo_connect_timeout >>= serve_if_made rounds fuel stack
