-- ===== src/Examples/Conversations.antt =====
-- A whole conversation of the worker of src/fifo.c.
use fifo.Prelude.{ℕ, ◌≡◌, refl, some, Option, List, [], ◌∷◌, ◌++◌, ◌==◌, if◌then◌else◌, arith}
use fifo.Prelude.Int.{ℤ, pos}
use fifo.Effect.Ends.{Ends}
use fifo.Os.{Os, Timeval, Trace, did_select, did_write}
use fifo.Message.{decode32, zero_msg, msgsz, msgbuf, set_msgsz, encode32}
use fifo.Reader.Delivery.{chunk}
use fifo.Worker.{client_fifo_worker, clamp_reply}
use fifo.Worker.Session.{
  Answer, Incoming, quiet, request, conversation, written, Brings, reply_of, frame_of, replying,
}
use fifo.Worker.Session.Refines.{client_fifo_worker-conversation}
use fifo.Sample.{reply_for_request, sample_callback}
use fifo.Programs.Answers.{answers, client_fifo_worker-answers}
use fifo.Examples.Systems.{
  calm, five_seconds, two_bytes, answers_two-KeepsLength, instance, zero_msg-length,
}

abbrev two_bytes_again : Answer
two_bytes_again = λ request reply. two_bytes

-- A timeout, a request of the bytes 9, 8, and the end.
abbrev script : List Incoming
script = quiet ∷ request (2 ∷ 0 ∷ 0 ∷ 0 ∷ []) (chunk 9 (8 ∷ []) ∷ []) ∷ []

abbrev scripted_read : Trace → ℕ → Option (List ℕ)
scripted_read (did_select fd timeout rc ∷ did_write fd' frame n ∷ t) m = some (0 ∷ 0 ∷ 0 ∷ 0 ∷ [])
scripted_read t m = if m == 4 then some (2 ∷ 0 ∷ 0 ∷ 0 ∷ []) else some (9 ∷ 8 ∷ [])

abbrev scripted_select : Trace → ℤ × Timeval
scripted_select [] = (pos 0, five_seconds)
scripted_select (_ ∷ t) = (pos 1, five_seconds)

abbrev scripted : Os
scripted = record calm {
  read = λ t fd n. scripted_read t n;
  select = λ t fd timeout. scripted_select t;
}

two_header : decode32 (2 ∷ 0 ∷ 0 ∷ 0 ∷ []) ≡ pos 2
unfolding decode32
two_header = refl

zero_header : decode32 (0 ∷ 0 ∷ 0 ∷ 0 ∷ []) ≡ pos 0
unfolding decode32
zero_header = refl

scripted-Brings : Brings scripted two_bytes_again 3 script instance []
unfolding msgsz decode32 clamp_reply reply_of frame_of replying
scripted-Brings = (
  refl,
  (
    record {
      four = refl;
      size = two_header;
      some_left = omega arith;
      room = omega arith;
      enough = omega arith;
    },
    record { comes = refl; got = refl; delivered = (refl, tt); taken = λ some_left. refl },
    record {
      comes = refl;
      header = 0 ∷ 0 ∷ 0 ∷ 0 ∷ [];
      four = refl;
      zero = zero_header;
      got = refl;
    },
  ),
)

client_fifo_worker-conversation_example :
    Ends
      (λ _ u.
        written u ≡ [] ++ conversation two_bytes_again (pos 6) script zero_msg (msgbuf zero_msg))
      (client_fifo_worker scripted (λ _. two_bytes_again) 3 3 instance [])
client_fifo_worker-conversation_example =
    client_fifo_worker-conversation scripted two_bytes_again 3 script 3 instance []
      answers_two-KeepsLength zero_msg-length zero_msg-length (omega arith) scripted-Brings

sampled-Brings : Brings scripted reply_for_request 3 script instance []
unfolding msgsz decode32 reply_for_request set_msgsz encode32 clamp_reply reply_of frame_of replying
sampled-Brings = (
  refl,
  (
    record {
      four = refl;
      size = two_header;
      some_left = omega arith;
      room = omega arith;
      enough = omega arith;
    },
    record { comes = refl; got = refl; delivered = (refl, tt); taken = λ some_left. refl },
    record {
      comes = refl;
      header = 0 ∷ 0 ∷ 0 ∷ 0 ∷ [];
      four = refl;
      zero = zero_header;
      got = refl;
    },
  ),
)

client_fifo_worker-answers_example :
    Ends
      (λ _ u. written u ≡ [] ++ answers (pos 6) script)
      (client_fifo_worker scripted sample_callback 3 3 instance [])
client_fifo_worker-answers_example =
    client_fifo_worker-answers scripted 3 script 3 instance [] zero_msg-length zero_msg-length
      (omega arith) sampled-Brings
