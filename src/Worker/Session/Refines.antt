-- ===== src/Worker/Session/Refines.antt =====
-- The worker of src/fifo.c does what the specification of its conversation says.
use fifo.Prelude.{
  ℕ, zero, suc, ◌<◌, ◌≡◌, refl, sym, ap, ◌∙◌, true, Bool-cases, inl, inr, min, List, [], ◌∷◌, ◌++◌,
  append-nil, append_assoc, length, take, length-append, some, ◌==◌, arith,
}
use fifo.Prelude.Signs.{positive-cases}
use fifo.Prelude.Int.{ℤ, pos, pos_part, ltb_ℤ}
use fifo.Effect.Ends.{Ends, and_then-Ends, Ends-if}
use fifo.Os.{Os, mem_free, Trace, did_read, closed}
use fifo.Message.{Pipemsg, msgsz, set_msgsz, msgbuf, sizeof_msgbuf, encode32}
use fifo.Message.Store.{overlay, length-overlay}
use fifo.Reader.Delivery.{Arrival, again, chunk, payload, reads}
use fifo.Worker.{PipeInstance, clamp_reply, worker_loop, client_fifo_worker, pipe_instance_free}
use fifo.Worker.Keeps.{KeepsLength, reply_at, reply_at-length, clamp_reply-length}
use fifo.Worker.Reply.{clamp_reply-IsFrame}
use fifo.Worker.Session.{
  Answer, Incoming, quiet, request, sends, conversation, written, IsRequest, waited, ready, asking,
  asked, reply_of, frame_of, replied, replying, Brings,
}
use fifo.Worker.Session.Rounds.{round-quiet, round-request, round-end}

-- the bytes of a reply of positive size
frame-body :
    (reply : Pipemsg)
    → length reply ≡ 4096
    → ltb_ℤ (pos 0) (msgsz reply) ≡ true
    → let (cbwrite, reply') = clamp_reply reply in
      msgbuf (take cbwrite reply')
      ≡ take (min (pos_part (msgsz reply)) sizeof_msgbuf) (msgbuf reply)
frame-body reply whole some_left =
    let (n, size, _) = positive-cases (msgsz reply) some_left in
    rw size ((clamp_reply-IsFrame n reply whole size).1).tail

module _ (os : Os) (f : Answer) where
  written-reads :
      (fd : ℤ) (arrivals : List Arrival) (t : Trace) → written (reads os fd arrivals t) ≡ written t
  written-reads fd [] t = refl
  written-reads fd (again ∷ rest) t = written-reads fd rest _
  written-reads fd (chunk b bs ∷ rest) t = written-reads fd rest _

  -- What a reply leaves in the instance and in the trace.
  replied-body :
      (inst : PipeInstance) → msgbuf (replied os f inst).reply ≡ msgbuf (reply_of os f inst)
  unfolding replied clamp_reply set_msgsz encode32
  replied-body inst = ground arith

  written-replying :
      (inst : PipeInstance) (t : Trace)
      → length (reply_of os f inst) ≡ 4096
      → written (replying os f inst t) ≡ written t ++ sends inst.replyfd (reply_of os f inst)
  unfolding replying frame_of
  written-replying inst t whole =
      let reply = reply_of os f inst in
      elim (Bool-cases (ltb_ℤ (pos 0) (msgsz reply))) [
        | inl some_left ↦ rw (some_left, frame-body reply whole some_left)
        | inr nothing ↦ rw (nothing, append-nil (written t))
      ]

  -- the requests of a conversation fit the struct
  asking-length :
      (fuel : ℕ) (header : List ℕ) (arrivals : List Arrival) (inst : PipeInstance)
      → IsRequest fuel header arrivals
      → length inst.request ≡ 4096
      → length (overlay (header ++ payload arrivals) inst.request) ≡ 4096
  asking-length fuel header arrivals inst is room =
      length-overlay (header ++ payload arrivals) inst.request
        (omega (arith, length-append header (payload arrivals), is.four, is.room))
      ∙ room

  replied-request : (inst : PipeInstance) → (replied os f inst).request ≡ inst.request
  unfolding replied
  replied-request inst = refl

  replied-length :
      (inst : PipeInstance) (t : Trace)
      → KeepsLength (λ _. f)
      → length inst.reply ≡ 4096
      → length (replied os f inst).reply ≡ 4096
  unfolding replied reply_of
  replied-length inst t keeps whole =
      let reply = reply_at (λ _. f) inst t in
      let all = reply_at-length (λ _. f) inst t keeps whole in
      elim (Bool-cases (ltb_ℤ (pos 0) (msgsz reply))) [
        | inl some_left ↦ rw some_left (clamp_reply-length reply all)
        | inr nothing ↦ rw nothing all
      ]

  -- Behind a request: what was written before, what the reply sends, and what the rest will.
  step-written :
      (header : List ℕ) (arrivals : List Arrival) (rest : List Incoming) (inst : PipeInstance)
      (t : Trace)
      → KeepsLength (λ _. f)
      → length inst.reply ≡ 4096
      → let inst' = asking os f header arrivals inst t in
        let after = replied os f inst' in
        written (replying os f inst' (asked os f header arrivals inst t))
          ++ conversation f after.replyfd rest after.request (msgbuf after.reply)
        ≡ written t
          ++ conversation f inst.replyfd
              (request header arrivals ∷ rest)
              inst.request
              (msgbuf inst.reply)
  unfolding conversation replied reply_of set_msgsz
  step-written header arrivals rest inst t keeps whole =
      let inst' = asking os f header arrivals inst t in
      let u = asked os f header arrivals inst t in
      let reply = reply_of os f inst' in
      rw
        (
          written-replying inst' u (reply_at-length (λ _. f) inst' t keeps whole),
          written-reads inst.requestfd arrivals
              (did_read inst.requestfd 4 (some header) ∷ ready os f inst t),
          replied-body inst',
        )
        (append_assoc (written t) (sends inst.replyfd reply) _)

  worker_loop-written :
      (fuel : ℕ) (script : List Incoming) (rounds : ℕ) (inst : PipeInstance) (t : Trace)
      (total : List (ℤ × List ℕ))
      → KeepsLength (λ _. f)
      → length inst.request ≡ 4096
      → length inst.reply ≡ 4096
      → length script < rounds
      → Brings os f fuel script inst t
      → written t ++ conversation f inst.replyfd script inst.request (msgbuf inst.reply) ≡ total
      → Ends (λ inst' u. written u ≡ total) (worker_loop os (λ _. f) rounds fuel inst t)
  unfolding worker_loop conversation
  worker_loop-written fuel script zero inst t total keeps room whole enough brings same =
      absurd (omega arith)
  worker_loop-written fuel [] (suc rounds) inst t total keeps room whole enough closes same =
      rw (round-end os f fuel inst t room closes) (sym (append-nil (written t)) ∙ same)
  worker_loop-written fuel (quiet ∷ rest) (suc rounds) inst t total keeps room whole enough
        (e, brings) same =
      rw (round-quiet os f fuel inst t e) (
        worker_loop-written fuel rest rounds (waited os f inst t) (ready os f inst t) total keeps
          room whole (omega arith) brings same)
  worker_loop-written fuel (request header arrivals ∷ rest) (suc rounds) inst t total keeps room
        whole enough (is, asks, brings) same =
      let inst' = asking os f header arrivals inst t in
      let u = asked os f header arrivals inst t in
      rw (round-request os f fuel header arrivals inst t room is asks) (
        worker_loop-written fuel rest rounds (replied os f inst') (replying os f inst' u) total
          keeps
          (ap length (replied-request inst') ∙ asking-length fuel header arrivals inst is room)
          (replied-length inst' t keeps whole) (omega arith) brings
          (step-written header arrivals rest inst t keeps whole ∙ same))

pipe_instance_free-written :
    (inst : PipeInstance) (t : Trace) (total : List (ℤ × List ℕ))
    → written t ≡ total
    → Ends (λ _ u. written u ≡ total) (pipe_instance_free inst t)
unfolding pipe_instance_free mem_free
pipe_instance_free-written inst t total same =
    Ends-if (λ _ u. written u ≡ total) (inst.address == 0) _ _
      (closed inst.replyfd ∷ closed inst.requestfd ∷ t) (λ null. same) (λ some_block. same)

-- The worker refines the specification of a conversation. The callback remembers nothing; the request
-- and the reply have their 4096 bytes, and the callback leaves the reply them. The client brings requests with sizes in
-- 1..4092, each with its size field in one piece and then in pieces of any length with EAGAIN at any
-- place between them, in fewer answers than there is fuel, with timeouts of `select` at any place
-- between the requests, and at last a message of the size 0; the pipe takes each reply whole. Then,
-- with more rounds than there are requests and timeouts, the worker ends, and it has written the
-- bodies of the specified replies, each once, in their order, and nothing else.
pub client_fifo_worker-conversation :
    (os : Os) (f : Answer) (fuel : ℕ) (script : List Incoming) (rounds : ℕ) (inst : PipeInstance)
    (t : Trace)
    → KeepsLength (λ _. f)
    → length inst.request ≡ 4096
    → length inst.reply ≡ 4096
    → length script < rounds
    → Brings os f fuel script inst t
    → Ends
        (λ _ u.
          written u
          ≡ written t ++ conversation f inst.replyfd script inst.request (msgbuf inst.reply))
        (client_fifo_worker os (λ _. f) rounds fuel inst t)
unfolding client_fifo_worker
client_fifo_worker-conversation os f fuel script rounds inst t keeps room whole enough brings =
    let total = written t ++ conversation f inst.replyfd script inst.request (msgbuf inst.reply) in
    and_then-Ends (λ _ u. written u ≡ total) (λ _ u. written u ≡ total)
      (worker_loop os (λ _. f) rounds fuel inst t) pipe_instance_free
      (worker_loop-written os f fuel script rounds inst t total keeps room whole enough brings refl)
      (λ inst' u same. pipe_instance_free-written inst' u total same)
