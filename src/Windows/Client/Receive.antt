-- ===== src/Windows/Client/Receive.antt =====
-- `fifo_client_read` of src/fifo-win.c, and what it makes of the bytes that it gets.
use fifo.Prelude.{
  ℕ, zero, suc, ◌+◌, ◌-◌, ◌≤◌, ◌≡◌, Bool, true, false, Option, none, some, List, [], ◌∷◌, length,
  ltb, leb, ◌==◌, if◌then◌else◌, arith,
}
use fifo.Prelude.Int.{ℤ, pos, pos_part, ltb_ℤ}
use fifo.Effect.{done, exited, fault, out_of_fuel, pure, ◌>>=◌, ◌>>◌}
use fifo.Message.{Pipemsg, pipemsg_size_max, sizeof_msgsz, set_msgsz, store_bytes}
use fifo.Message.Store.{overlay, length-overlay, store_bytes-overlay}
use fifo.Api.{fifo_s_ok, fifo_e_failed}
use fifo.Windows.System.{
  System, more_data, Trace, read_file_done, Cmd, sleep, last_error, read_file, peek_named_pipe,
}
use fifo.Windows.Client.{Client, is_more_data}

-- INT_MAX
abbrev pub int_max : ℕ
int_max = 2147483647

-- what the loops keep: `fSuccess`, the `int` `waitedms`, which starts at 0 and only grows,
-- `dwNumberOfBytesRead` and the message
pub record Attempt : Type 0 where
  pub success : Bool
  pub waitedms : ℕ
  pub bytes_read : ℕ
  pub msg : Pipemsg

-- what `ReadFile` stores in the message; `none` where it leaves it
abbrev pub stored : Attempt → Bool → ℕ → Option Pipemsg → Cmd Attempt
stored a ok count none = fault
stored a ok count (some msg) =
    pure (record { success = ok; waitedms = a.waitedms; bytes_read = count; msg = msg })

module _ (sys : System) where
  unfoldable pub read_now : ℤ → Attempt → Cmd Attempt
  unfolding store_bytes
  read_now h a = do
    (ok, bytes) ← read_file sys h pipemsg_size_max
    stored a ok (length bytes) (store_bytes (pos 0) bytes a.msg)

  -- the inner `while`, every 10 milliseconds; `waitedms += 10` beyond INT_MAX is undefined
  unfoldable pub poll : ℕ → ℤ → ℕ → Attempt → Cmd Attempt
  unfolding read_now
  poll zero h timeout a = out_of_fuel
  poll (suc fuel) h timeout a =
      if ltb a.waitedms timeout
      then (do
        ready ← peek_named_pipe sys h
        if ready then read_now h a else do
          sleep 10
          if ltb int_max (a.waitedms + 10)
              then fault
              else poll fuel h timeout (record a { success = false; waitedms = a.waitedms + 10 }))
      else pure a

  -- the body of the outer loop
  unfoldable pub attempt : ℕ → Client → Attempt → Cmd Attempt
  unfolding read_now poll
  attempt fuel client a =
      if ltb_ℤ client.wait_timeout (pos 0)
      then read_now client.named_pipe a
      else if ltb_ℤ (pos 0) client.wait_timeout
      then poll fuel client.named_pipe (pos_part client.wait_timeout) a
      else (do
        ready ← peek_named_pipe sys client.named_pipe
        if ready then read_now client.named_pipe a else pure (record a { success = false }))

  unfoldable pub read_loop : ℕ → ℕ → Client → Attempt → Cmd Attempt
  unfolding attempt
  read_loop zero fuel client a = out_of_fuel
  read_loop (suc rounds) fuel client a = do
    a' ← attempt fuel client a
    if a'.success then pure a' else do
      e ← last_error sys
      if is_more_data e then read_loop rounds fuel client a' else pure a'

  -- what follows the loops
  unfoldable pub received : Attempt → Cmd (ℤ × Pipemsg)
  received a =
      if a.success
      then (if a.bytes_read == 0
          then pure (fifo_s_ok, set_msgsz (pos 0) a.msg)
          else if leb sizeof_msgsz a.bytes_read
          then pure (fifo_s_ok, set_msgsz (pos (a.bytes_read - sizeof_msgsz)) a.msg)
          else exited)
      else pure (fifo_e_failed, a.msg)

  -- `rounds` bounds the outer loop, `fuel` the inner one.
  unfoldable pub client_read : ℕ → ℕ → Client → Pipemsg → Cmd (ℤ × Pipemsg)
  unfolding read_loop received
  client_read rounds fuel client msg = do
    a ←
        read_loop rounds fuel client
          (record { success = false; waitedms = 0; bytes_read = 0; msg = msg })
    received a

leb-le : (n : ℕ) → 4 ≤ n → leb 4 n ≡ true
leb-le n h = ground arith

not_empty : (n : ℕ) → 4 ≤ n → (n == 0) ≡ false
not_empty n h = ground arith

pub store_at_start :
    (bytes : List ℕ) (msg : Pipemsg)
    → length bytes ≤ length msg
    → store_bytes (pos 0) bytes msg ≡ some (overlay bytes msg)
store_at_start bytes msg fits = store_bytes-overlay [] bytes msg (omega arith)

module _ (sys : System) (client : Client)
    (infinite : ltb_ℤ client.wait_timeout (pos 0) ≡ true) where
  attempt-infinite :
      (fuel : ℕ) (a : Attempt) (ok : Bool) (bytes : List ℕ) (t : Trace)
      → length bytes ≤ length a.msg
      → sys.read_file t client.named_pipe 4096 ≡ (ok, bytes)
      → attempt sys fuel client a t
        ≡ done
            (record {
              success = ok;
              waitedms = a.waitedms;
              bytes_read = length bytes;
              msg = overlay bytes a.msg;
            })
            (read_file_done client.named_pipe 4096 ok bytes ∷ t)
  unfolding attempt
  attempt-infinite fuel a ok bytes t fits got = rw (infinite, got, store_at_start bytes a.msg fits)

  -- Without a timeout, if one `ReadFile` delivers a message of at least its size field,
  -- `fifo_client_read` returns FIFO_S_OK; the message starts with those bytes, and its size is the
  -- number of the bytes behind the size field.
  pub client_read-whole :
      (rounds fuel : ℕ) (bytes : List ℕ) (msg : Pipemsg) (t : Trace)
      → length bytes ≤ length msg
      → 4 ≤ length bytes
      → sys.read_file t client.named_pipe 4096 ≡ (true, bytes)
      → client_read sys (suc rounds) fuel client msg t
        ≡ done
            (fifo_s_ok, set_msgsz (pos (length bytes - 4)) (overlay bytes msg))
            (read_file_done client.named_pipe 4096 true bytes ∷ t)
  unfolding client_read
  client_read-whole rounds fuel bytes msg t fits some_size got = rw (
    attempt-infinite fuel (record { success = false; waitedms = 0; bytes_read = 0; msg = msg }) true
        bytes t fits got,
    not_empty (length bytes) some_size,
    leb-le (length bytes) some_size,
  )

  -- Without a timeout, if the first `ReadFile` ends with ERROR_MORE_DATA and the second delivers the
  -- remainder, of at least 4 bytes, and each of the two delivers no more bytes than the message holds,
  -- `fifo_client_read` stores the remainder over the start of the message, so that the
  -- first bytes are lost, makes its size the number of bytes of the remainder less 4, and returns
  -- FIFO_S_OK.
  pub client_read-more_data :
      (rounds fuel : ℕ) (first rest : List ℕ) (msg : Pipemsg) (t : Trace)
      → let u = read_file_done client.named_pipe 4096 false first ∷ t in
        length first ≤ length msg
        → length rest ≤ length msg
        → 4 ≤ length rest
        → sys.read_file t client.named_pipe 4096 ≡ (false, first)
        → sys.last_error u ≡ more_data
        → sys.read_file u client.named_pipe 4096 ≡ (true, rest)
        → client_read sys (suc (suc rounds)) fuel client msg t
          ≡ done
              (fifo_s_ok, set_msgsz (pos (length rest - 4)) (overlay rest (overlay first msg)))
              (read_file_done client.named_pipe 4096 true rest ∷ u)
  unfolding client_read
  client_read-more_data rounds fuel first rest msg t fits fits' some_size got error next = rw (
    attempt-infinite fuel (record { success = false; waitedms = 0; bytes_read = 0; msg = msg })
        false first t fits got,
    error,
    attempt-infinite fuel
        (record {
          success = false;
          waitedms = 0;
          bytes_read = length first;
          msg = overlay first msg;
        })
        true rest _ (omega (arith, length-overlay first msg)) next,
    not_empty (length rest) some_size,
    leb-le (length rest) some_size,
  )
