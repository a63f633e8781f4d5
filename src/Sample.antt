-- ===== src/Sample.antt =====
-- `fifoReplyForRequest`, the sample callback of src/fifo.h.
use fifo.Prelude.{ℕ, ◌≡◌, refl, List, ◌∷◌, ◌++◌, length, take, drop}
use fifo.Prelude.Int.{pos, eqb_ℤ}
use fifo.Os.{Os, Trace, called_back, did_write, done}
use fifo.CString.{codes}
use fifo.Message.{Pipemsg, encode32, decode32, msgsz, set_msgsz}
use fifo.Worker.{PipeInstance, OnPipemsg, send_reply, clamp_reply, answer_request}

abbrev pub answer_text : List ℕ
answer_text = codes "Answer from server"

-- `snprintf` into `msgbuf`, with its NUL, and its result in `msgsz`
unfoldable pub reply_for_request : Pipemsg → Pipemsg → Pipemsg
unfolding set_msgsz
reply_for_request request reply =
    set_msgsz (pos (length answer_text)) (take 4 reply ++ answer_text ++ 0 ∷ drop 23 reply)

abbrev pub sample_callback : OnPipemsg
sample_callback = λ t request reply. reply_for_request request reply

-- With the sample callback a worker answers every request, whatever is left in its reply from an
-- earlier round, with one `write` of the size 18 and the 18 characters of "Answer from server", and
-- goes on if the system took all of its 22 bytes.
pub answer_request-sample :
    (os : Os) (inst : PipeInstance) (t : Trace)
    → let frame = 18 ∷ 0 ∷ 0 ∷ 0 ∷ answer_text in
      let reply = reply_for_request inst.request (set_msgsz (pos 0) inst.reply) in
      let u = called_back inst.request reply ∷ t in
      let r = os.write u inst.replyfd frame in
      answer_request os sample_callback inst t
      ≡ done (eqb_ℤ r (pos 22), record inst { reply = reply }) (did_write inst.replyfd frame r ∷ u)
unfolding answer_request reply_for_request set_msgsz encode32 send_reply clamp_reply msgsz decode32
answer_request-sample os inst t = refl
