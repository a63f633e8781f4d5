-- ===== src/Client/Connect.antt =====
-- `fifo_client_new` of src/fifo.c: make the two pipes of the client, announce them to the server, and
-- wait until it opens the first.
use fifo.Prelude.{
  ℕ, ◌+◌, ◌-◌, Option, none, some, List, ◌∷◌, ◌++◌, length, take, drop, replicate, ◌==◌,
  if◌then◌else◌,
}
use fifo.Effect.{copy_name}
use fifo.Prelude.Int.{ℤ, pos, minus_one, eqb_ℤ}
use fifo.Os.{
  Os, FilePath, nonblock_rdwr, wronly, Cmd, fault, pure, ◌>>=◌, ◌>>◌, close, unlink, mem_free,
  mem_alloc_zero, open_file, write, getpid,
}
use fifo.CString.{strnlen, snprintf, precision, decimal}
use fifo.Message.{Pipemsg, sizeof_msgsz, set_msgsz, store_bytes}
use fifo.Api.{
  fifo_s_ok, fifo_e_failed, fifo_namelen_max, pipename_or_default, read_suffix, mkfifo_failed,
}
use fifo.Timeout.{timeval_of}
use fifo.Client.{Client, client_free}

-- sizeof(fifo_client_t) on a 64-bit system
abbrev pub sizeof_client : ℕ
sizeof_client = 32

-- "%.*s.%d"
unfoldable pub client_name : FilePath → ℕ → ℕ → List ℕ
client_name pipename namelen pid = precision namelen pipename ++ b'.' ∷ decimal pid

-- The announcement: `msgsz` bytes from position `namelen` on of the client's name, which stands in
-- zeroed memory with room for ten bytes more. `none` where they leave `msgbuf`.
unfoldable pub announcement : FilePath → ℕ → Pipemsg → Option Pipemsg
unfolding store_bytes set_msgsz
announcement name namelen stack =
    let msgsz = length name - namelen + 1 in
    store_bytes (pos sizeof_msgsz) (take msgsz (drop namelen (name ++ replicate 10 0)))
      (set_msgsz (pos msgsz) stack)

module _ (os : Os) where
  abbrev pub fail_with : Client → Cmd (ℤ × Option Client)
  fail_with clnt = client_free os clnt >> pure (fifo_e_failed, none)

  -- the second `open` of `writefd`, which waits for the server
  unfoldable pub open_request_pipe : Client → ℤ → Cmd (ℤ × Option Client)
  unfolding timeval_of
  open_request_pipe clnt wait_timeout = do
    writefd ← open_file os clnt.pipename wronly
    if eqb_ℤ writefd minus_one
        then fail_with clnt
        else pure (
          fifo_s_ok,
          some (record clnt { writefd = writefd; wait_timeout = timeval_of wait_timeout }),
        )

  -- the `write` of the announcement, through the server's pipe
  unfoldable pub announce : Client → ℤ → ℕ → ℤ → Option Pipemsg → Cmd (ℤ × Option Client)
  unfolding open_request_pipe
  announce clnt writefd pipelen wait_timeout none = fault
  announce clnt writefd pipelen wait_timeout (some clientmsg) = do
    n ← write os writefd (take pipelen clientmsg)
    close writefd
    if eqb_ℤ n (pos pipelen) then open_request_pipe clnt wait_timeout else fail_with clnt

  -- the `open` of the server's pipe
  unfoldable pub reach_server : Client → FilePath → ℕ → ℤ → Pipemsg → Cmd (ℤ × Option Client)
  unfolding announce announcement
  reach_server clnt pipename namelen wait_timeout stack = do
    writefd ← open_file os pipename wronly
    if eqb_ℤ writefd minus_one
        then fail_with clnt
        else announce clnt writefd (sizeof_msgsz + (clnt.namelen - namelen + 1)) wait_timeout
            (announcement clnt.pipename namelen stack)

  -- the second pipe, on which the client reads
  unfoldable pub open_reply_pipe : Client → FilePath → ℕ → ℤ → Pipemsg → Cmd (ℤ × Option Client)
  unfolding mkfifo_failed reach_server
  open_reply_pipe clnt pipename namelen wait_timeout stack = do
    let reply_name = snprintf fifo_namelen_max (precision clnt.namelen clnt.pipename ++ read_suffix)
    failed ← mkfifo_failed os reply_name
    if failed then (do unlink reply_name; mem_free clnt.address; pure (fifo_e_failed, none)) else do
      readfd ← open_file os reply_name nonblock_rdwr
      let clnt' = record clnt { readfd = readfd }
      if eqb_ℤ readfd minus_one
          then fail_with clnt'
          else reach_server clnt' pipename namelen wait_timeout stack

  -- allocation and the first pipe
  unfoldable pub create_client : FilePath → ℕ → ℕ → ℤ → Pipemsg → Cmd (ℤ × Option Client)
  unfolding client_name mkfifo_failed open_reply_pipe
  create_client pipename namelen pid wait_timeout stack = do
    let full = client_name pipename namelen pid
    let pipelen = length full
    let size = sizeof_client + pipelen + 10
    p ← mem_alloc_zero os size
    copy_name size sizeof_client pipelen
    let clnt : Client = record {
      address = p;
      readfd = pos 0;
      writefd = pos 0;
      wait_timeout = record { tv_sec = pos 0; tv_usec = 0 };
      capacity = size - sizeof_client;
      namelen = pipelen;
      pipename = take pipelen (snprintf fifo_namelen_max full);
    }
    failed ← mkfifo_failed os clnt.pipename
    if failed
        then (do mem_free p; pure (fifo_e_failed, none))
        else open_reply_pipe clnt pipename namelen wait_timeout stack

  -- `stack` is what `clientmsg` holds before it is written. The second part of the result is what
  -- is stored in `*client`.
  unfoldable pub client_new : Option FilePath → ℤ → Pipemsg → Cmd (ℤ × Option Client)
  unfolding create_client
  client_new pathname wait_timeout stack = do
    pid ← getpid os
    let pipename = pipename_or_default pathname
    let namelen = strnlen pipename (fifo_namelen_max - 20)
    if namelen == fifo_namelen_max - 20
        then pure (fifo_e_failed, none)
        else create_client pipename namelen pid wait_timeout stack
