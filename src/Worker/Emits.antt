-- ===== src/Worker/Emits.antt =====
-- What the loop of the worker does to the world: it reads, waits, calls back, and writes frames.
use fifo.Prelude.{
  ℕ, zero, suc, ◌<◌, ◌≤◌, ◌≡◌, ◌&&◌, true, false, min, Option, none, some, List, ◌∷◌, length, take,
  arith,
}
use fifo.Prelude.Signs.{positive-cases}
use fifo.Prelude.Int.{ℤ, pos, minus_one, pos_part, ltb_ℤ, eqb_ℤ, ◌+ℤ◌, ◌-ℤ◌}
use fifo.Os.{Os, Event, Timeval, did_read, did_select, did_write, called_back, errno, read, select}
use fifo.Effect.Emits.{
  Extends-trans, same, newer, Emits, Emits-pure, Emits-if, Emits-if_of, Emits-bind,
}
use fifo.Effect.Yields.{Emits-bind_of}
use fifo.Worker.Keeps.{
  KeepsLength, HasWholeReply, HasWholeReply-IsKeptBy, reply_at, reply_at-length, worker_round-Next,
}
use fifo.Message.{Pipemsg, sizeof_msgbuf, msgsz, msgbuf, store_bytes}
use fifo.Reader.{
  is_eagain, store_received, bytes_of, count_of, read_into, header_loop, body_loop, after_header,
  readpipemsg_nb,
}
use fifo.Timeout.{select_readable}
use fifo.Worker.{
  OnPipemsg, PipeInstance, clamp_reply, send_reply, answer_request, read_request, worker_round,
  worker_loop,
}
use fifo.Worker.Reply.{IsFrame, clamp_reply-IsFrame}

-- a predicate that holds of these events
pub record Permits (P : Event → Type 0) : Type 0 where
  pub reads : (fd : ℤ) (n : ℕ) (got : Option (List ℕ)) → P (did_read fd n got)
  pub selects : (fd : ℤ) (timeout : Option Timeval) (rc : ℤ) → P (did_select fd timeout rc)
  pub callbacks : (request reply : Pipemsg) → P (called_back request reply)
  pub frames :
      (fd r : ℤ) (m : ℕ) (body frame : List ℕ)
      → 0 < m
      → m ≤ sizeof_msgbuf
      → IsFrame m body frame
      → P (did_write fd frame r)

module _ {P : Event → Type 0} (ok : Permits P) (os : Os) where
  store_received-Emits :
      (stored : Option Pipemsg) (count : ℤ) → Emits P (store_received stored count)
  store_received-Emits none count = record { emits = λ t. same }
  store_received-Emits (some msg) count = Emits-pure (count, msg)

  read-Emits : (fd : ℤ) (n : ℕ) → Emits P (read os fd n)
  read-Emits fd n = record { emits = λ t. newer (ok.reads fd n (os.read t fd n)) same }

  errno-Emits : Emits P (errno os)
  errno-Emits = record { emits = λ t. same }

  read_into-Emits :
      (fd : ℤ) (msg : Pipemsg) (offset : ℤ) (n : ℕ) → Emits P (read_into os fd msg offset n)
  unfolding read_into
  read_into-Emits fd msg offset n =
      Emits-bind (read-Emits fd n)
        (λ got. store_received-Emits (store_bytes offset (bytes_of got) msg) (count_of got))

  header_loop-Emits :
      (fuel : ℕ) (fd offset : ℤ) (msg : Pipemsg) → Emits P (header_loop os fuel fd offset msg)
  unfolding header_loop
  header_loop-Emits zero fd offset msg = record { emits = λ t. same }
  header_loop-Emits (suc fuel) fd offset msg =
      Emits-if (eqb_ℤ offset (pos 0))
        (Emits-bind (read_into-Emits fd msg (pos 0) 4) (λ (offset', msg').
          Emits-if (eqb_ℤ offset' (pos 4)) (Emits-pure (some offset', msg')) (
            Emits-bind errno-Emits (λ e.
              Emits-if (eqb_ℤ offset' minus_one && is_eagain e)
                (header_loop-Emits fuel fd offset' msg') (Emits-pure (none, msg'))))))
        (Emits-pure (some offset, msg))

  body_loop-Emits :
      (fuel : ℕ) (fd : ℤ) (msg : Pipemsg) (offset msgsize : ℤ)
      → Emits P (body_loop os fuel fd msg offset msgsize)
  unfolding body_loop
  body_loop-Emits zero fd msg offset msgsize = record { emits = λ t. same }
  body_loop-Emits (suc fuel) fd msg offset msgsize =
      Emits-if (ltb_ℤ offset msgsize)
        (Emits-bind (read_into-Emits fd msg offset (pos_part (msgsize -ℤ offset))) (λ (count, msg').
          Emits-if (ltb_ℤ (pos 0) count)
            (Emits-if (eqb_ℤ (offset +ℤ count) msgsize) (Emits-pure (pos 0, msg'))
              (body_loop-Emits fuel fd msg' (offset +ℤ count) msgsize))
            (Emits-bind errno-Emits (λ e.
              Emits-if (eqb_ℤ count minus_one && is_eagain e)
                (body_loop-Emits fuel fd msg' offset msgsize) (Emits-pure (minus_one, msg'))))))
        (Emits-pure (minus_one, msg))

  after_header-Emits :
      (fuel : ℕ) (fd : ℤ) (offset : Option ℤ) (msg : Pipemsg)
      → Emits P (after_header os fuel fd offset msg)
  unfolding after_header
  after_header-Emits fuel fd none msg = Emits-pure (minus_one, msg)
  after_header-Emits fuel fd (some offset) msg =
      Emits-if (eqb_ℤ (msgsz msg) (pos 0)) (Emits-pure (pos 0, msg))
        (body_loop-Emits fuel fd msg offset (offset +ℤ msgsz msg))

  pub readpipemsg_nb-Emits :
      (fuel : ℕ) (fd : ℤ) (msg : Pipemsg) → Emits P (readpipemsg_nb os fuel fd msg)
  unfolding readpipemsg_nb
  readpipemsg_nb-Emits fuel fd msg =
      Emits-bind (header_loop-Emits 2 fd (pos 0) msg)
        (λ (offset, msg'). after_header-Emits fuel fd offset msg')

  select-Emits : (fd : ℤ) (timeout : Option Timeval) → Emits P (select os fd timeout)
  select-Emits fd timeout = record {
    emits = λ t. newer (ok.selects fd timeout (os.select t fd timeout).0) same;
  }

  pub select_readable-Emits : (fd : ℤ) (timeout : Timeval) → Emits P (select_readable os fd timeout)
  unfolding select_readable
  select_readable-Emits fd timeout =
      Emits-if (ltb_ℤ timeout.tv_sec (pos 0))
        (Emits-bind (select-Emits fd none) (λ (rc, _). Emits-pure (rc, timeout)))
        (select-Emits fd (some timeout))

module _ {P : Event → Type 0} (ok : Permits P) (os : Os) (pipemsgcb : OnPipemsg)
    (keeps : KeepsLength pipemsgcb) where
  send_reply-Emits :
      (inst : PipeInstance) (reply : Pipemsg)
      → length reply ≡ 4096
      → ltb_ℤ (pos 0) (msgsz reply) ≡ true
      → Emits P (send_reply os pipemsgcb inst (clamp_reply reply).0 (clamp_reply reply).1)
  unfolding send_reply
  send_reply-Emits inst reply whole positive =
      let (n, size, some_left) = positive-cases (msgsz reply) positive in
      let frame = take (clamp_reply reply).0 (clamp_reply reply).1 in
      let is = (clamp_reply-IsFrame n reply whole size).1 in
      record {
        emits = λ t.
            newer
              (ok.frames inst.replyfd (os.write t inst.replyfd frame) (min n sizeof_msgbuf)
                (msgbuf reply) frame (omega arith) (omega arith) is)
              same;
      }

  answer_request-Emits :
      (inst : PipeInstance) → HasWholeReply inst → Emits P (answer_request os pipemsgcb inst)
  unfolding answer_request
  answer_request-Emits inst whole = record {
    emits = λ t.
        let reply = reply_at pipemsgcb inst t in
        Extends-trans (newer (ok.callbacks inst.request reply) same) (
          (Emits-if_of (ltb_ℤ (pos 0) (msgsz reply))
              (send_reply-Emits inst reply (reply_at-length pipemsgcb inst t keeps whole))
              (λ _. Emits-pure (true, record inst { reply = reply }))).emits
            (called_back inst.request reply ∷ t));
  }

  read_request-Emits :
      (fuel : ℕ) (inst : PipeInstance)
      → HasWholeReply inst
      → Emits P (read_request os pipemsgcb fuel inst)
  unfolding read_request
  read_request-Emits fuel inst whole =
      Emits-bind (readpipemsg_nb-Emits ok os fuel inst.requestfd inst.request) (λ (result, msg).
        Emits-if (eqb_ℤ result (pos 0))
          (Emits-if (eqb_ℤ (msgsz msg) (pos 0)) (Emits-pure (false, record inst { request = msg }))
            (answer_request-Emits (record inst { request = msg }) whole))
          (Emits-pure (false, record inst { request = msg })))

  worker_round-Emits :
      (fuel : ℕ) (inst : PipeInstance)
      → HasWholeReply inst
      → Emits P (worker_round os pipemsgcb fuel inst)
  unfolding worker_round
  worker_round-Emits fuel inst whole =
      Emits-bind (select_readable-Emits ok os inst.requestfd inst.timeout) (λ (rc, left).
        Emits-if (eqb_ℤ rc (pos 1)) (read_request-Emits fuel (record inst { timeout = left }) whole)
          (Emits-pure (eqb_ℤ rc (pos 0), record inst { timeout = left })))

  -- Every event of the loop is one of those that `P` permits.
  pub worker_loop-Emits :
      (rounds fuel : ℕ) (inst : PipeInstance)
      → HasWholeReply inst
      → Emits P (worker_loop os pipemsgcb rounds fuel inst)
  unfolding worker_loop
  worker_loop-Emits zero fuel inst whole = record { emits = λ t. same }
  worker_loop-Emits (suc rounds) fuel inst whole =
      Emits-bind_of (worker_round-Emits fuel inst whole)
        (worker_round-Next os pipemsgcb (HasWholeReply-IsKeptBy pipemsgcb keeps) fuel inst whole)
        (λ (go_on, inst') whole'.
          Emits-if go_on (worker_loop-Emits rounds fuel inst' whole') (Emits-pure inst'))
