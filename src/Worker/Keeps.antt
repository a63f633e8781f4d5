-- ===== src/Worker/Keeps.antt =====
-- What every round of the worker's loop leaves as it was in the instance.
use fifo.Prelude.{ℕ, zero, suc, ◌≡◌, ◌∙◌, Bool, true, false, length, take, arith}
use fifo.Prelude.Int.{pos, ltb_ℤ, eqb_ℤ}
use fifo.Os.{Os, Timeval, Trace, write}
use fifo.Effect.Yields.{Yields, Yields-pure, Yields-if, Yields-bind, Yields-after}
use fifo.Message.{Pipemsg, msgsz, set_msgsz}
use fifo.Reader.{readpipemsg_nb}
use fifo.Timeout.{select_readable}
use fifo.Worker.{
  OnPipemsg, PipeInstance, call_back, clamp_reply, send_reply, answer_request, read_request,
  worker_round, worker_loop,
}
use fifo.Worker.Reply.{length-set_msgsz}

-- the reply that the callback leaves when it is called at `t`
abbrev pub reply_at : OnPipemsg → PipeInstance → Trace → Pipemsg
reply_at pipemsgcb inst t = pipemsgcb t inst.request (set_msgsz (pos 0) inst.reply)

-- `Q` survives each assignment of the loop to a field of the instance.
pub record IsKeptBy (pipemsgcb : OnPipemsg) (Q : PipeInstance → Type 0) : Type 0 where
  pub with_timeout :
      (inst : PipeInstance) (left : Timeval) → Q inst → Q (record inst { timeout = left })
  pub with_request :
      (inst : PipeInstance) (msg : Pipemsg) → Q inst → Q (record inst { request = msg })
  pub with_reply :
      (inst : PipeInstance) (t : Trace)
      → Q inst
      → Q (record inst { reply = reply_at pipemsgcb inst t })
  pub with_cut :
      (inst : PipeInstance) (reply : Pipemsg)
      → Q (record inst { reply = reply })
      → Q (record inst { reply = (clamp_reply reply).1 })

module _ (os : Os) (pipemsgcb : OnPipemsg) {Q : PipeInstance → Type 0}
    (kept : IsKeptBy pipemsgcb Q) where
  -- the result of a round
  abbrev Next : Bool × PipeInstance → Type 0
  Next (go_on, inst) = Q inst

  answer_request-Next :
      (inst : PipeInstance) → Q inst → Yields Next (answer_request os pipemsgcb inst)
  unfolding answer_request send_reply
  answer_request-Next inst q =
      Yields-bind {Q = λ reply. Q (record inst { reply = reply })}
        {m = call_back os pipemsgcb inst.request (set_msgsz (pos 0) inst.reply)}
        (record { yields = λ t. kept.with_reply inst t q })
        (λ reply q'.
          Yields-if (ltb_ℤ (pos 0) (msgsz reply))
            (Yields-after (write os inst.replyfd (take (clamp_reply reply).0 (clamp_reply reply).1))
              (λ n.
                Yields-pure
                  (
                    eqb_ℤ n (pos (clamp_reply reply).0),
                    record inst { reply = (clamp_reply reply).1 },
                  )
                  (kept.with_cut inst reply q')))
            (Yields-pure (true, record inst { reply = reply }) q'))

  read_request-Next :
      (fuel : ℕ) (inst : PipeInstance) → Q inst → Yields Next (read_request os pipemsgcb fuel inst)
  unfolding read_request
  read_request-Next fuel inst q =
      Yields-after (readpipemsg_nb os fuel inst.requestfd inst.request) (λ (result, msg).
        let inst' = record inst { request = msg } in
        let q' = kept.with_request inst msg q in
        Yields-if (eqb_ℤ result (pos 0))
          (Yields-if (eqb_ℤ (msgsz msg) (pos 0)) (Yields-pure (false, inst') q')
            (answer_request-Next inst' q'))
          (Yields-pure (false, inst') q'))

  pub worker_round-Next :
      (fuel : ℕ) (inst : PipeInstance) → Q inst → Yields Next (worker_round os pipemsgcb fuel inst)
  unfolding worker_round
  worker_round-Next fuel inst q =
      Yields-after (select_readable os inst.requestfd inst.timeout) (λ (rc, left).
        let inst' = record inst { timeout = left } in
        let q' = kept.with_timeout inst left q in
        Yields-if (eqb_ℤ rc (pos 1)) (read_request-Next fuel inst' q')
          (Yields-pure (eqb_ℤ rc (pos 0), inst') q'))

  pub worker_loop-Yields :
      (rounds fuel : ℕ) (inst : PipeInstance)
      → Q inst
      → Yields Q (worker_loop os pipemsgcb rounds fuel inst)
  unfolding worker_loop
  worker_loop-Yields zero fuel inst q = record { yields = λ t. tt }
  worker_loop-Yields (suc rounds) fuel inst q =
      Yields-bind (worker_round-Next fuel inst q) (λ (go_on, inst') q'.
        Yields-if go_on (worker_loop-Yields rounds fuel inst' q') (Yields-pure inst' q'))

-- A callback leaves the reply the struct that it is.
abbrev pub KeepsLength : OnPipemsg → Type 0
KeepsLength pipemsgcb =
    (t : Trace) (request reply : Pipemsg)
    → length reply ≡ 4096
    → length (pipemsgcb t request reply) ≡ 4096

abbrev pub HasWholeReply : PipeInstance → Type 0
HasWholeReply inst = length inst.reply ≡ 4096

pub reply_at-length :
    (pipemsgcb : OnPipemsg) (inst : PipeInstance) (t : Trace)
    → KeepsLength pipemsgcb
    → HasWholeReply inst
    → length (reply_at pipemsgcb inst t) ≡ 4096
reply_at-length pipemsgcb inst t keeps whole =
    keeps t inst.request (set_msgsz (pos 0) inst.reply)
      (length-set_msgsz (pos 0) inst.reply (omega arith) ∙ whole)

pub clamp_reply-length :
    (reply : Pipemsg) → length reply ≡ 4096 → length (clamp_reply reply).1 ≡ 4096
unfolding clamp_reply
clamp_reply-length reply whole =
    let cut = length-set_msgsz (pos 4092) reply (omega arith) in ground (arith, cut)

-- The reply keeps its 4096 bytes.
pub HasWholeReply-IsKeptBy :
    (pipemsgcb : OnPipemsg) → KeepsLength pipemsgcb → IsKeptBy pipemsgcb HasWholeReply
HasWholeReply-IsKeptBy pipemsgcb keeps = record {
  with_timeout = λ inst left whole. whole;
  with_request = λ inst msg whole. whole;
  with_reply = λ inst t whole. reply_at-length pipemsgcb inst t keeps whole;
  with_cut = λ inst reply whole. clamp_reply-length reply whole;
}
