-- ===== src/Server.antt =====
-- The server of src/fifo.c: its pipe, and the loop that accepts clients.
pub mod Accept
pub mod Accepts
pub mod Handed
pub mod Invariant
pub mod Loop
pub mod NoWorkers
pub mod Overflow
pub mod Rounds
pub mod Settled
pub mod Visits
use fifo.Prelude.{ℕ, ◌+◌, ◌-◌, true, false, Option, none, some, take, if◌then◌else◌}
use fifo.Effect.{copy_name}
use fifo.Prelude.Int.{ℤ, pos, minus_one, eqb_ℤ}
use fifo.Os.{
  Os, FilePath, nonblock_rdwr, Timeval, Cmd, exited, pure, ◌>>=◌, ◌>>◌, close, unlink, mem_free,
  mem_alloc_zero, open_file,
}
use fifo.CString.{strnlen}
use fifo.Api.{
  fifo_s_ok, fifo_e_failed, fifo_namelen_max, default_name, pipename_or_default, is_open,
  mkfifo_failed,
}
use fifo.Timeout.{timeval_of}

-- sizeof(fifo_server_t) on a 64-bit system
abbrev pub sizeof_server : ℕ
sizeof_server = 48

pub record Server : Type 0 where
  pub address : ℕ
  pub accept_pipefd : ℤ
  pub client_timeout : Timeval
  pub connect_timeout : Timeval
  pub namelen : ℕ
  pub pipename : FilePath

unfoldable pub server_get_pipename : Option Server → FilePath
server_get_pipename none = default_name
server_get_pipename (some server) = server.pipename

unfoldable pub server_free : Server → Cmd (Unit {0})
server_free server = do
  if is_open server.accept_pipefd then close server.accept_pipefd else pure tt
  unlink server.pipename
  mem_free server.address

module _ (os : Os) where
  -- the `open` of the server's pipe and the timeouts
  unfoldable pub open_accept_pipe : Server → ℤ → ℤ → Cmd (ℤ × Option Server)
  unfolding timeval_of
  open_accept_pipe srvr client_timeout connect_timeout = do
    fd ← open_file os srvr.pipename nonblock_rdwr
    if eqb_ℤ fd minus_one
        then server_free (record srvr { accept_pipefd = fd }) >> exited
        else pure (
          fifo_s_ok,
          some (record srvr {
            accept_pipefd = fd;
            client_timeout = timeval_of client_timeout;
            connect_timeout = timeval_of connect_timeout;
          }),
        )

  -- The second part of the result is what is stored in `*server`.
  unfoldable pub server_new : Option FilePath → ℤ → ℤ → Cmd (ℤ × Option Server)
  unfolding mkfifo_failed open_accept_pipe
  server_new pathname client_timeout connect_timeout = do
    let pipename = pipename_or_default pathname
    let namelen = strnlen pipename (fifo_namelen_max - 20)
    let size = sizeof_server + namelen + 1
    p ← mem_alloc_zero os size
    copy_name size sizeof_server namelen
    let zero_time : Timeval = record { tv_sec = pos 0; tv_usec = 0 }
    let srvr : Server = record {
      address = p;
      accept_pipefd = pos 0;
      client_timeout = zero_time;
      connect_timeout = zero_time;
      namelen = namelen;
      pipename = take namelen pipename;
    }
    failed ← mkfifo_failed os srvr.pipename
    if failed
        then mem_free p >> pure (fifo_e_failed, none)
        else open_accept_pipe srvr client_timeout connect_timeout
