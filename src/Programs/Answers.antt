-- ===== src/Programs/Answers.antt =====
-- A worker of examples/fifoserver.c, which calls `fifoReplyForRequest`.
use fifo.Prelude.{
  ℕ, ◌<◌, ◌≡◌, refl, ap, ◌∙◌, List, [], ◌∷◌, ◌++◌, length, take, drop, arith, length-append,
  length-take, length-drop,
}
use fifo.Prelude.Int.{ℤ, pos}
use fifo.Effect.Ends.{Ends, Ends-weaken}
use fifo.Os.{Os, Trace}
use fifo.Message.{Pipemsg, encode32, decode32, msgsz, set_msgsz, msgbuf}
use fifo.Sample.{answer_text, reply_for_request, sample_callback}
use fifo.Worker.{PipeInstance, client_fifo_worker}
use fifo.Worker.Keeps.{KeepsLength}
use fifo.Worker.Reply.{length-set_msgsz}
use fifo.Worker.Session.{Incoming, quiet, request, conversation, written, Brings}
use fifo.Worker.Session.Refines.{client_fifo_worker-conversation}

-- one answer for each request
unfoldable pub answers : ℤ → List Incoming → List (ℤ × List ℕ)
answers fd [] = []
answers fd (quiet ∷ rest) = answers fd rest
answers fd (request header arrivals ∷ rest) = (fd, answer_text) ∷ answers fd rest

pub sample_callback-KeepsLength : KeepsLength sample_callback
unfolding reply_for_request
sample_callback-KeepsLength t asked reply whole =
    let text = take 4 reply ++ answer_text ++ 0 ∷ drop 23 reply in
    let long : length text ≡ 4096 = ground (
      arith,
      length-append (take 4 reply) (answer_text ++ 0 ∷ drop 23 reply),
      length-append (take 4 reply ++ answer_text) (0 ∷ drop 23 reply),
      length-append (take 4 reply) answer_text,
      length-append answer_text (0 ∷ drop 23 reply),
      length-take 4 reply,
      length-drop 23 reply,
    ) in
    length-set_msgsz (pos (length answer_text)) text (omega arith) ∙ long

conversation-answers :
    (fd : ℤ) (script : List Incoming) (last : Pipemsg) (body : List ℕ)
    → conversation reply_for_request fd script last body ≡ answers fd script
unfolding conversation answers reply_for_request set_msgsz msgsz encode32 decode32
conversation-answers fd [] last body = refl
conversation-answers fd (quiet ∷ rest) last body = conversation-answers fd rest last body
conversation-answers fd (request header arrivals ∷ rest) last body =
    ap (◌∷◌ (fd, answer_text)) (conversation-answers fd rest _ _)

-- With the sample callback, what the worker writes depends on nothing but the number of requests. The
-- request and the reply of the instance have their 4096 bytes. The client brings requests with sizes
-- in 1..4092, each with its size field in one piece and then in pieces of any length with EAGAIN at
-- any place between them, in fewer answers than there is fuel, with timeouts of `select` at any place
-- between the requests, and at last a message of the size 0; the pipe takes each reply whole. Then,
-- with more rounds than there are requests and timeouts, the worker ends, and has written
-- "Answer from server" once for each request, and nothing else.
pub client_fifo_worker-answers :
    (os : Os) (fuel : ℕ) (script : List Incoming) (rounds : ℕ) (inst : PipeInstance) (t : Trace)
    → length inst.request ≡ 4096
    → length inst.reply ≡ 4096
    → length script < rounds
    → Brings os reply_for_request fuel script inst t
    → Ends
        (λ _ u. written u ≡ written t ++ answers inst.replyfd script)
        (client_fifo_worker os sample_callback rounds fuel inst t)
client_fifo_worker-answers os fuel script rounds inst t room whole enough brings =
    let total =
      written t
      ++ conversation reply_for_request inst.replyfd script inst.request (msgbuf inst.reply) in
    Ends-weaken (λ _ u. written u ≡ total)
      (λ _ u. written u ≡ written t ++ answers inst.replyfd script)
      (client_fifo_worker os sample_callback rounds fuel inst t)
      (client_fifo_worker-conversation os reply_for_request fuel script rounds inst t
        sample_callback-KeepsLength room whole enough brings)
      (λ a u same.
        same
        ∙ ap (◌++◌ (written t))
            (conversation-answers inst.replyfd script inst.request (msgbuf inst.reply)))
