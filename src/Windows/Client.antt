-- ===== src/Windows/Client.antt =====
-- The client of src/fifo-win.c.
pub mod Write
pub mod Receive
pub mod Released
pub mod Timely
use fifo.Prelude.{
  ℕ, zero, suc, ◌+◌, ◌-◌, ◌%◌, ◌^◌, ◌&&◌, not, Bool, true, false, Option, none, some, List, [],
  length, take, drop, ltb, ◌==◌, if◌then◌else◌,
}
use fifo.Prelude.Int.{ℤ, pos, negsuc, minus_one, pos_part, ltb_ℤ, eqb_ℤ}
use fifo.Effect.{copy_name, exited, fault, out_of_fuel, pure, ◌>>=◌, ◌>>◌}
use fifo.Os.{FilePath}
use fifo.CString.{codes, strnlen}
use fifo.Message.{
  Pipemsg, pipemsg_size_max, sizeof_msgsz, sizeof_msgbuf, msgsz, set_msgsz, store_bytes,
}
use fifo.Api.{fifo_s_ok, fifo_e_failed, fifo_e_badarg, fifo_namelen_max}
use fifo.Timeout.{time_infinite}
use fifo.Windows.System.{
  System, LastError, pipe_busy, more_data, invalid_handle, Cmd, close_handle, sleep, mem_free,
  mem_alloc_zero, last_error, create_file, wait_named_pipe, set_pipe_state, write_file, read_file,
  peek_named_pipe,
}

-- FIFO_NAME_WIN_DEFAULT
abbrev pub win_default_name : FilePath
win_default_name = codes "\\\\.\\pipe\\namedpipe-default"

-- sizeof(fifo_client_t) on a 64-bit system
abbrev pub sizeof_client : ℕ
sizeof_client = 16

pub record Client : Type 0 where
  pub address : ℕ
  pub named_pipe : ℤ
  pub wait_timeout : ℤ
  pub namelen : ℕ
  pub pipename : FilePath

abbrev pub win_name_or_default : Option FilePath → FilePath
win_name_or_default none = win_default_name
win_name_or_default (some path) = path

unfoldable pub client_get_pipename : Option Client → FilePath
client_get_pipename none = win_default_name
client_get_pipename (some client) = client.pipename

unfoldable pub client_free : Client → Cmd (Unit {0})
client_free client = close_handle client.named_pipe >> mem_free client.address

abbrev is_pipe_busy : LastError → Bool
is_pipe_busy pipe_busy = true
is_pipe_busy _ = false

abbrev pub is_more_data : LastError → Bool
is_more_data more_data = true
is_more_data _ = false

-- Every negative timeout stands for no timeout: NMPWAIT_WAIT_FOREVER and FIFO_TIME_INFINITE.
abbrev pub stored_timeout : ℤ → ℤ
stored_timeout (pos ms) = pos ms
stored_timeout (negsuc n) = time_infinite

module _ (sys : System) where
  -- The loop that opens the pipe; `none` is its `return FIFO_E_FAILED`.
  unfoldable pub open_loop : ℕ → FilePath → ℤ → Cmd (Option ℤ)
  open_loop zero pipename wait_timeout = out_of_fuel
  open_loop (suc fuel) pipename wait_timeout = do
    h ← create_file sys pipename
    if not (eqb_ℤ h invalid_handle) then pure (some h) else do
      e ← last_error sys
      if is_pipe_busy e
          then (do
            ready ← wait_named_pipe sys pipename (stored_timeout wait_timeout)
            if ready then open_loop fuel pipename wait_timeout else pure none)
          else pure none

  -- what follows the loop
  unfoldable pub connected : FilePath → ℕ → ℤ → Option ℤ → Cmd (ℤ × Option Client)
  connected pipename namelen wait_timeout none = pure (fifo_e_failed, none)
  connected pipename namelen wait_timeout (some h) = do
    ok ← set_pipe_state sys h
    if ok
        then (do
          let size = sizeof_client + namelen + 1
          p ← mem_alloc_zero sys size
          copy_name size sizeof_client namelen
          let clnt : Client = record {
            address = p;
            named_pipe = h;
            wait_timeout = stored_timeout wait_timeout;
            namelen = namelen;
            pipename = take namelen pipename;
          }
          pure (fifo_s_ok, some clnt))
        else close_handle h >> pure (fifo_e_failed, none)

  unfoldable pub client_new : ℕ → Option FilePath → ℤ → Cmd (ℤ × Option Client)
  unfolding open_loop connected
  client_new fuel pathname wait_timeout = do
    let pipename = win_name_or_default pathname
    let namelen = strnlen pipename (fifo_namelen_max + 1)
    if ltb fifo_namelen_max namelen
        then pure (fifo_e_failed, none)
        else do h ← open_loop fuel pipename wait_timeout; connected pipename namelen wait_timeout h

  -- The `while` over `WriteFile`, with the arithmetic of DWORD; the result is `fSuccess`.
  unfoldable pub write_loop : ℕ → ℤ → Pipemsg → ℕ → ℕ → Cmd Bool
  write_loop zero h msg offset size = out_of_fuel
  write_loop (suc fuel) h msg offset size = do
    (ok, written) ← write_file sys h (take ((size + 2 ^ 32 - offset) % 2 ^ 32) (drop offset msg))
    let offset' = (offset + written) % 2 ^ 32
    if ok
        then (if offset' == size then pure true else write_loop fuel h msg offset' size)
        else pure false

  unfoldable pub client_write : ℕ → Client → Pipemsg → Cmd ℤ
  unfolding write_loop
  client_write fuel client msg =
      if ltb_ℤ (msgsz msg) (pos 0)
      then pure fifo_e_badarg
      else if ltb sizeof_msgbuf (pos_part (msgsz msg))
      then pure fifo_e_badarg
      else (do
        ok ← write_loop fuel client.named_pipe msg 0 (sizeof_msgsz + pos_part (msgsz msg))
        pure (if ok then fifo_s_ok else fifo_e_failed))
