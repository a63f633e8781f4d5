-- ===== src/Server/Overflow.antt =====
-- The room for "-read" behind the name that a client announces.
use fifo.Prelude.{ge→ltb, ℕ, ◌+◌, ◌-◌, ◌<◌, ◌≤◌, ◌≡◌, false, some, ◌∷◌, ◌++◌, length, take, arith}
use fifo.Prelude.Signs.{some-ltb}
use fifo.Prelude.Int.{pos, minus_one, eqb_ℤ}
use fifo.Os.{Os, FilePath, nonblock_rdwr, Trace, opened, fault, done}
use fifo.CString.{precision, snprintf}
use fifo.Message.{Pipemsg, msgsz, msgbuf}
use fifo.Reader.{readpipemsg_nb}
use fifo.Server.Accept.{Acceptor, open_request_pipe, accept_client}

open_request_pipe-overflow :
    (os : Os) (st : Acceptor) (name : FilePath) (t : Trace)
    → 251 ≤ length name
    → eqb_ℤ (os.open_file t name nonblock_rdwr) minus_one ≡ false
    → open_request_pipe os st (some name) t
      ≡ fault (opened name nonblock_rdwr (os.open_file t name nonblock_rdwr) ∷ t)
unfolding open_request_pipe
open_request_pipe-overflow os st name t long ok =
    rw (ok, ge→ltb (length name + 5) 256 (omega arith))

-- the name that the server makes of its own and of the `n` bytes that a client announces
abbrev pub announced_name : Acceptor → ℕ → Pipemsg → FilePath
announced_name st n msg =
    take (st.server).namelen st.client_fifo
    ++ snprintf (255 - (st.server).namelen) (precision n (msgbuf msg))

-- A client announces `n` bytes that lie in `msgbuf`, and with the server's name they make 251 bytes
-- or more. If a pipe of that name can be opened, the server's `strcat` of "-read" leaves
-- `client_fifo`.
pub accept_client-overflow :
    (os : Os) (fuel n : ℕ) (st : Acceptor) (msg : Pipemsg) (t u : Trace)
    → let name = announced_name st n msg in
      let fd = os.open_file u name nonblock_rdwr in
      readpipemsg_nb os fuel (st.server).accept_pipefd st.clientmsg t ≡ done (pos 0, msg) u
      → msgsz msg ≡ pos n
      → 0 < n
      → n ≤ length (msgbuf msg)
      → 251 ≤ length name
      → eqb_ℤ fd minus_one ≡ false
      → accept_client os fuel st t ≡ fault (opened name nonblock_rdwr fd ∷ u)
unfolding accept_client
accept_client-overflow os fuel n st msg t u got size some_left inside long ok =
    rw (got, size, some-ltb n some_left, ge→ltb (length (msgbuf msg)) n inside)
      (open_request_pipe-overflow os (record st { clientmsg = msg }) (announced_name st n msg) u
        long ok)
