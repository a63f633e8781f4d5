-- ===== src/Worker.antt =====
-- `pipe_instance_t` and `client_fifo_worker` of src/fifo.c: the thread that serves one client.
pub mod Reply
pub mod Keeps
pub mod Emits
pub mod Frames
pub mod Finish
pub mod Session
use fifo.Prelude.{ℕ, zero, suc, ◌+◌, ◌-◌, Bool, true, false, not, take, ltb, if◌then◌else◌, ◌∷◌}
use fifo.Prelude.Int.{ℤ, pos, pos_part, ltb_ℤ, eqb_ℤ}
use fifo.Os.{
  Os, Timeval, Trace, called_back, Cmd, done, out_of_fuel, pure, ◌>>=◌, ◌>>◌, close, mem_free,
  mem_alloc_zero, write,
}
use fifo.Message.{Pipemsg, pipemsg_size_max, sizeof_msgsz, msgsz, set_msgsz, zero_msg}
use fifo.Reader.{readpipemsg_nb}
use fifo.Timeout.{select_readable}

-- `fifo_onpipemsg_cb` with its argument: what it leaves in the reply. It may remember earlier calls,
-- so it sees the trace.
abbrev pub OnPipemsg : Type 0
OnPipemsg = Trace → Pipemsg → Pipemsg → Pipemsg

-- sizeof(pipe_instance_t) on a 64-bit system
abbrev pub sizeof_pipe_instance : ℕ
sizeof_pipe_instance = 8232

pub record PipeInstance : Type 0 where
  pub address : ℕ
  pub requestfd : ℤ
  pub replyfd : ℤ
  pub timeout : Timeval
  pub request : Pipemsg
  pub reply : Pipemsg

unfoldable pub pipe_instance_new : Os → ℤ → ℤ → Timeval → Cmd PipeInstance
pipe_instance_new os requestfd replyfd client_timeout = do
  p ← mem_alloc_zero os sizeof_pipe_instance
  pure (record {
    address = p;
    requestfd = requestfd;
    replyfd = replyfd;
    timeout = client_timeout;
    request = zero_msg;
    reply = zero_msg;
  })

unfoldable pub pipe_instance_free : PipeInstance → Cmd (Unit {0})
pipe_instance_free inst = do close inst.requestfd; close inst.replyfd; mem_free inst.address

-- `cbwrite` and the reply, cut to the size of the struct
unfoldable pub clamp_reply : Pipemsg → ℕ × Pipemsg
clamp_reply reply =
    let cbwrite = sizeof_msgsz + pos_part (msgsz reply) in
    if ltb pipemsg_size_max cbwrite
    then (pipemsg_size_max, set_msgsz (pos (pipemsg_size_max - sizeof_msgsz)) reply)
    else (cbwrite, reply)

module _ (os : Os) (pipemsgcb : OnPipemsg) where
  abbrev pub call_back : Pipemsg → Pipemsg → Cmd Pipemsg
  call_back request reply t =
      done (pipemsgcb t request reply) (called_back request (pipemsgcb t request reply) ∷ t)

  unfoldable pub send_reply : PipeInstance → ℕ → Pipemsg → Cmd (Bool × PipeInstance)
  send_reply inst cbwrite reply = do
    n ← write os inst.replyfd (take cbwrite reply)
    pure (eqb_ℤ n (pos cbwrite), record inst { reply = reply })

  -- The callback and its reply; `false` is `break`.
  unfoldable pub answer_request : PipeInstance → Cmd (Bool × PipeInstance)
  unfolding send_reply
  answer_request inst = do
    reply ← call_back inst.request (set_msgsz (pos 0) inst.reply)
    if ltb_ℤ (pos 0) (msgsz reply)
        then send_reply inst (clamp_reply reply).0 (clamp_reply reply).1
        else pure (true, record inst { reply = reply })

  -- what follows a `select` that found the descriptor ready
  unfoldable pub read_request : ℕ → PipeInstance → Cmd (Bool × PipeInstance)
  unfolding answer_request
  read_request fuel inst = do
    (result, msg) ← readpipemsg_nb os fuel inst.requestfd inst.request
    let inst' = record inst { request = msg }
    if eqb_ℤ result (pos 0)
        then (if eqb_ℤ (msgsz msg) (pos 0) then pure (false, inst') else answer_request inst')
        else pure (false, inst')

  -- One round of `while(1)`; `false` is `break`.
  unfoldable pub worker_round : ℕ → PipeInstance → Cmd (Bool × PipeInstance)
  unfolding read_request
  worker_round fuel inst = do
    (rc, left) ← select_readable os inst.requestfd inst.timeout
    let inst' = record inst { timeout = left }
    if eqb_ℤ rc (pos 1) then read_request fuel inst' else pure (eqb_ℤ rc (pos 0), inst')

  -- `rounds` bounds the rounds of the loop, `fuel` the reads of one message.
  unfoldable pub worker_loop : ℕ → ℕ → PipeInstance → Cmd PipeInstance
  worker_loop zero fuel inst = out_of_fuel
  worker_loop (suc rounds) fuel inst = do
    (go_on, inst') ← worker_round fuel inst
    if go_on then worker_loop rounds fuel inst' else pure inst'

  unfoldable pub client_fifo_worker : ℕ → ℕ → PipeInstance → Cmd (Unit {0})
  client_fifo_worker rounds fuel inst = do
    inst' ← worker_loop rounds fuel inst
    pipe_instance_free inst'
