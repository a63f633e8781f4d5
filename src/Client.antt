-- ===== src/Client.antt =====
-- The client of src/fifo.c.
pub mod Announcement
pub mod Connect
pub mod Free
pub mod Settled
pub mod Granted
pub mod Read
pub mod Write
use fifo.Prelude.{
  ℕ, ◌+◌, ◌-◌, ◌&&◌, not, Bool, true, false, Option, none, some, List, [], ◌∷◌, ◌++◌, length, take,
  drop, replicate, ◌==◌, if◌then◌else◌, ltb,
}
use fifo.Prelude.Int.{ℤ, pos, negsuc, minus_one, pos_part, ◌-ℤ◌, ltb_ℤ, eqb_ℤ}
use fifo.Os.{
  Os, Errno, eexist, FilePath, nonblock_rdwr, wronly, Timeval, Cmd, fault, exited, pure, ◌>>=◌,
  ◌>>◌, close, unlink, mem_free, mem_alloc_zero, mkfifo, errno, open_file, read, write, getpid,
}
use fifo.CString.{strnlen, snprintf, precision, strcat, decimal, codes}
use fifo.Message.{
  Pipemsg, pipemsg_size_max, sizeof_msgsz, sizeof_msgbuf, msgsz, set_msgsz, store_bytes, zero_msg,
}
use fifo.Reader.{read_into}
use fifo.Api.{
  fifo_s_ok, fifo_e_failed, fifo_e_badarg, fifo_e_timeout, default_name, read_suffix, is_open,
}
use fifo.Timeout.{timeval_of, select_readable}

-- `fifo_client_t`; `capacity` is the number of bytes allocated for `pipename` behind the struct.
pub record Client : Type 0 where
  pub address : ℕ
  pub readfd : ℤ
  pub writefd : ℤ
  pub wait_timeout : Timeval
  pub capacity : ℕ
  pub namelen : ℕ
  pub pipename : FilePath

unfoldable pub client_get_pipename : Option Client → FilePath
client_get_pipename none = default_name
client_get_pipename (some client) = client.pipename

module _ (os : Os) where
  unfoldable pub client_write : Client → Pipemsg → Cmd ℤ
  client_write client msg =
      if ltb_ℤ (msgsz msg) (pos 0)
      then pure fifo_e_badarg
      else if ltb sizeof_msgbuf (pos_part (msgsz msg))
      then pure fifo_e_badarg
      else (do
        let cbwrite = sizeof_msgsz + pos_part (msgsz msg)
        n ← write os client.writefd (take cbwrite msg)
        pure (if eqb_ℤ n (pos cbwrite) then fifo_s_ok else fifo_e_failed))

  -- `msg->msgsz` after a `read` that returned `count`
  unfoldable pub set_received : ℤ → Client → Pipemsg → Cmd (ℤ × Client × Pipemsg)
  set_received count client msg =
      if eqb_ℤ count (pos 0)
      then pure (fifo_s_ok, client, set_msgsz (pos 0) msg)
      else if ltb_ℤ (pos 0) count
      then pure (fifo_s_ok, client, set_msgsz (count -ℤ pos sizeof_msgsz) msg)
      else exited

  unfoldable pub client_read : Client → Pipemsg → Cmd (ℤ × Client × Pipemsg)
  unfolding set_received
  client_read client msg = do
    (rc, left) ← select_readable os client.readfd client.wait_timeout
    let client' = record client { wait_timeout = left }
    if eqb_ℤ rc (pos 1)
        then (do
          (count, msg') ← read_into os client.readfd msg (pos 0) pipemsg_size_max
          set_received count client' msg')
        else pure (if eqb_ℤ rc (pos 0) then fifo_e_timeout else fifo_e_failed, client', msg)

  -- the end of message and the `close` of `fifo_client_free`
  unfoldable pub hang_up : Client → Cmd (Unit {0})
  unfolding client_write
  hang_up client =
      if is_open client.writefd
      then client_write client zero_msg >> close client.writefd
      else pure tt

  -- `strcat(client->pipename, "-read")` and what follows
  unfoldable pub unlink_reply_pipe : Client → Option FilePath → Cmd (Unit {0})
  unlink_reply_pipe client none = fault
  unlink_reply_pipe client (some path) = unlink path >> mem_free client.address

  unfoldable pub client_free : Client → Cmd (Unit {0})
  unfolding hang_up unlink_reply_pipe
  client_free client = do
    if is_open client.readfd then close client.readfd else pure tt
    hang_up client
    unlink client.pipename
    unlink_reply_pipe client (strcat client.capacity client.pipename read_suffix)
