-- ===== src/Server/Accepts.antt =====
-- A client that announces itself: the server opens its two pipes and starts a worker.
use fifo.Prelude.{
  ge→ltb, ℕ, ◌+◌, ◌-◌, ◌<◌, ◌≤◌, ◌≡◌, ap, ◌∙◌, true, false, some, List, [], ◌∷◌, ◌++◌, length, take,
  lt→ltb, ◌==◌, arith, take_all, length-append,
}
use fifo.Prelude.Signs.{some-ltb}
use fifo.Prelude.Int.{ℤ, pos, minus_one, eqb_ℤ, ltb_ℤ}
use fifo.Os.{
  Os, FilePath, nonblock_rdwr, wronly, Trace, opened, allocated, created, done, mem_alloc_zero,
}
use fifo.CString.Strings.{NulFree, until_nul-append_nul}
use fifo.Message.{Pipemsg, msgsz, msgbuf}
use fifo.Reader.{readpipemsg_nb}
use fifo.Api.{read_suffix}
use fifo.Worker.{sizeof_pipe_instance}
use fifo.Server.Accept.{Acceptor, append_announced, start_worker, open_request_pipe, accept_client}

-- The message announces the string `suffix`: it holds its bytes and the NUL.
pub record Announces (suffix : List ℕ) (msg : Pipemsg) : Type 0 where
  pub free : NulFree suffix
  pub size : msgsz msg ≡ pos (length suffix + 1)
  pub bytes : take (length suffix + 1) (msgbuf msg) ≡ suffix ++ 0 ∷ []
  pub room : length suffix + 1 ≤ length (msgbuf msg)

pub append_announced-some :
    (namelen : ℕ) (prefix suffix fifo : List ℕ) (msg : Pipemsg)
    → Announces suffix msg
    → take namelen fifo ≡ prefix
    → length suffix ≤ 254 - namelen
    → append_announced namelen fifo msg ≡ some (prefix ++ suffix)
unfolding append_announced
append_announced-some namelen prefix suffix fifo msg a same short = rw (
  a.size,
  ge→ltb (length (msgbuf msg)) (length suffix + 1) a.room,
  a.bytes,
  until_nul-append_nul suffix [] a.free,
  same,
  take_all (255 - namelen - 1) suffix (omega arith),
)

module _ (os : Os) (st : Acceptor) (t : Trace) where
  start_worker-created :
      (requestfd replyfd : ℤ)
      → (os.calloc t == 0) ≡ false
      → let u = allocated (os.calloc t) sizeof_pipe_instance ∷ t in
        os.pthread_create u ≡ pos 0
        → start_worker os st requestfd replyfd t
          ≡ done (true, st) (created requestfd replyfd (os.pthread_create u) ∷ u)
  unfolding start_worker mem_alloc_zero
  start_worker-created requestfd replyfd some_address fine = rw (some_address, fine)

-- The calls that accept the client with the pipe `name`, from the trace `t` on.
module _ (os : Os) (name : FilePath) (t : Trace) where
  abbrev pub request_fd : ℤ
  request_fd = os.open_file t name nonblock_rdwr

  abbrev pub request_opened : Trace
  request_opened = opened name nonblock_rdwr request_fd ∷ t

  abbrev pub reply_fd : ℤ
  reply_fd = os.open_file request_opened (name ++ read_suffix) wronly

  abbrev pub both_opened : Trace
  both_opened = opened (name ++ read_suffix) wronly reply_fd ∷ request_opened

  abbrev pub instance_made : Trace
  instance_made = allocated (os.calloc both_opened) sizeof_pipe_instance ∷ both_opened

  abbrev pub worker_started : Trace
  worker_started = created request_fd reply_fd (os.pthread_create instance_made) ∷ instance_made

  -- The system grants each of them.
  pub record Grants : Type 0 where
    pub request : eqb_ℤ request_fd minus_one ≡ false
    pub reply : eqb_ℤ reply_fd minus_one ≡ false
    pub memory : (os.calloc both_opened == 0) ≡ false
    pub thread : os.pthread_create instance_made ≡ pos 0

module _ (os : Os) (name : FilePath) (t : Trace) (grants : Grants os name t) where
  open_request_pipe-granted :
      (st : Acceptor)
      → length name ≤ 250
      → open_request_pipe os st (some name) t
        ≡ done (true, record st { client_fifo = name ++ read_suffix }) (worker_started os name t)
  unfolding open_request_pipe
  open_request_pipe-granted st fits =
      let room : length name + 5 < 256 = omega arith in
      rw (grants.request, lt→ltb (length name + 5) 256 room, grants.reply)
        (start_worker-created os (record st { client_fifo = name ++ read_suffix })
          (both_opened os name t) (request_fd os name t) (reply_fd os name t) grants.memory
          grants.thread)

-- The server has read an announcement of `suffix`, the name of its own pipe still starts
-- `client_fifo`, and the two together leave room for "-read". If the system grants the calls, the
-- server opens the pipe with that name for reading and the one with "-read" behind it for writing, in
-- this order, starts a worker on the two, and stays in its loop.
pub accept_client-Announces :
    (os : Os) (fuel : ℕ) (st : Acceptor) (prefix suffix : List ℕ) (msg : Pipemsg) (t u : Trace)
    → readpipemsg_nb os fuel (st.server).accept_pipefd st.clientmsg t ≡ done (pos 0, msg) u
    → Announces suffix msg
    → take (st.server).namelen st.client_fifo ≡ prefix
    → (st.server).namelen ≡ length prefix
    → length prefix + length suffix ≤ 250
    → Grants os (prefix ++ suffix) u
    → accept_client os fuel st t
      ≡ done
          (true, record st { client_fifo = (prefix ++ suffix) ++ read_suffix; clientmsg = msg })
          (worker_started os (prefix ++ suffix) u)
unfolding accept_client
accept_client-Announces os fuel st prefix suffix msg t u got a same len fits grants =
    rw
      (
        got,
        positive,
        append_announced-some (st.server).namelen prefix suffix st.client_fifo msg a same
            (omega arith),
      )
      (open_request_pipe-granted os (prefix ++ suffix) u grants (record st { clientmsg = msg })
        (omega (arith, length-append prefix suffix)))
  where
    positive : ltb_ℤ (pos 0) (msgsz msg) ≡ true
    positive = ap (ltb_ℤ (pos 0)) a.size ∙ some-ltb (length suffix + 1) (omega arith)
