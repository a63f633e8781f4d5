-- ===== src/Client/Granted.antt =====
-- `fifo_client_new` of src/fifo.c against a system that grants each of its calls.
use fifo.Prelude.{ℕ, ◌+◌, ◌-◌, ◌≡◌, refl, true, false, some, ◌∷◌, length, take, ◌==◌}
use fifo.Prelude.Signs.{same_int}
use fifo.Prelude.Int.{ℤ, pos, minus_one, eqb_ℤ, ltb_ℤ}
use fifo.Effect.{name_fits_behind}
use fifo.Os.{
  Os, FilePath, Flags, nonblock_rdwr, wronly, allocated, made_fifo, opened, closed, did_write,
  Trace, done, mem_alloc_zero,
}
use fifo.Message.{Pipemsg}
use fifo.Api.{fifo_s_ok}
use fifo.CString.{strnlen}
use fifo.Timeout.{timeval_of}
use fifo.Client.{Client}
use fifo.Client.Connect.{
  sizeof_client, client_name, announcement, open_request_pipe, announce, reach_server,
  open_reply_pipe, create_client, client_new,
}
use fifo.Client.Settled.{new_client, reply_name}

-- There is memory, each pipe is made and opened, and a `write` takes all of its bytes.
pub record GrantsAll (os : Os) : Type 0 where
  pub memory : (t : Trace) → (os.calloc t == 0) ≡ false
  pub makes : (t : Trace) (path : FilePath) → ltb_ℤ (os.mkfifo t path) (pos 0) ≡ false
  pub opens :
      (t : Trace) (path : FilePath) (flags : Flags)
      → eqb_ℤ (os.open_file t path flags) minus_one ≡ false
  pub writes : (t : Trace) (fd : ℤ) (bytes : Pipemsg) → os.write t fd bytes ≡ pos (length bytes)

-- The client's calls: it makes the pipes `name` and `reply`, opens `reply`, announces itself through
-- `server`, and opens `name`.
module _ (os : Os) (size : ℕ) (name reply server : FilePath) (frame : Pipemsg) (t : Trace) where
  abbrev pub name_made : Trace
  name_made = let u = allocated (os.calloc t) size ∷ t in made_fifo name (os.mkfifo u name) ∷ u

  abbrev pub both_made : Trace
  both_made = made_fifo reply (os.mkfifo name_made reply) ∷ name_made

  abbrev pub client_readfd : ℤ
  client_readfd = os.open_file both_made reply nonblock_rdwr

  abbrev pub reply_opened : Trace
  reply_opened = opened reply nonblock_rdwr client_readfd ∷ both_made

  abbrev pub server_fd : ℤ
  server_fd = os.open_file reply_opened server wronly

  abbrev pub server_opened : Trace
  server_opened = opened server wronly server_fd ∷ reply_opened

  abbrev pub has_announced : Trace
  has_announced =
      closed server_fd
      ∷ did_write server_fd frame (os.write server_opened server_fd frame)
      ∷ server_opened

  abbrev pub client_writefd : ℤ
  client_writefd = os.open_file has_announced name wronly

  abbrev pub client_connected : Trace
  client_connected = opened name wronly client_writefd ∷ has_announced

all_taken :
    (os : Os) (grants : GrantsAll os) (t : Trace) (fd : ℤ) (bytes : Pipemsg) (n : ℕ)
    → length bytes ≡ n
    → eqb_ℤ (os.write t fd bytes) (pos n) ≡ true
all_taken os grants t fd bytes n whole = rw (grants.writes t fd bytes, whole) (same_int (pos n))

open_request_pipe-granted :
    (os : Os) (grants : GrantsAll os) (wait : ℤ) (clnt : Client) (t : Trace)
    → let fd = os.open_file t clnt.pipename wronly in
      open_request_pipe os clnt wait t
      ≡ done
          (fifo_s_ok, some (record clnt { writefd = fd; wait_timeout = timeval_of wait }))
          (opened clnt.pipename wronly fd ∷ t)
unfolding open_request_pipe
open_request_pipe-granted os grants wait clnt t = rw (grants.opens t clnt.pipename wronly) refl

module _ (os : Os) (p : FilePath) (pid : ℕ) (t : Trace) where
  abbrev pub clnt : Client
  clnt = new_client (os.calloc t) (client_name p (strnlen p 235) pid)

  abbrev pub frame_length : ℕ
  frame_length = 4 + (length (client_name p (strnlen p 235) pid) - strnlen p 235 + 1)

  abbrev pub size : ℕ
  size = sizeof_client + length (client_name p (strnlen p 235) pid) + 10

  -- the trace behind the call
  abbrev pub run : Pipemsg → Trace
  run sent = client_connected os size clnt.pipename (reply_name clnt) p (take frame_length sent) t

  -- what it returns
  abbrev pub connected : ℤ → Pipemsg → Client
  connected wait sent = record clnt {
    readfd = client_readfd os size clnt.pipename (reply_name clnt) p (take frame_length sent) t;
    writefd = client_writefd os size clnt.pipename (reply_name clnt) p (take frame_length sent) t;
    wait_timeout = timeval_of wait;
  }

module _ (os : Os) (grants : GrantsAll os) (p : FilePath) (pid : ℕ) (wait : ℤ)
    (stack sent : Pipemsg) (t : Trace) where
  pub client_new-granted :
      os.getpid t ≡ pid
      → (strnlen p 235 == 235) ≡ false
      → announcement (clnt os p pid t).pipename (strnlen p 235) stack ≡ some sent
      → length (take (frame_length os p pid t) sent) ≡ frame_length os p pid t
      → client_new os (some p) wait stack t
        ≡ done (fifo_s_ok, some (connected os p pid t wait sent)) (run os p pid t sent)
  unfolding client_new create_client open_reply_pipe reach_server announce open_request_pipe
      mem_alloc_zero
  client_new-granted same short is whole =
      let name = (clnt os p pid t).pipename in
      let reply = reply_name (clnt os p pid t) in
      let frame = take (frame_length os p pid t) sent in
      let size = size os p pid t in
      let u = allocated (os.calloc t) size ∷ t in
      let v = name_made os size name reply p frame t in
      rw
        (
          same,
          short,
          grants.memory t,
          name_fits_behind sizeof_client (length (client_name p (strnlen p 235) pid)),
          grants.makes u name,
          grants.makes v reply,
          grants.opens (both_made os size name reply p frame t) reply nonblock_rdwr,
          grants.opens (reply_opened os size name reply p frame t) p wronly,
          is,
          all_taken os grants (server_opened os size name reply p frame t)
              (server_fd os size name reply p frame t) frame (frame_length os p pid t) whole,
        )
        (open_request_pipe-granted os grants wait _ (has_announced os size name reply p frame t))
