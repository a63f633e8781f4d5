-- ===== src/Exchange/Reply.antt =====
-- A reply: the worker's `write` on one side, `fifo_client_read` on the other.
use fifo.Prelude.{
  ℕ, ◌+◌, ◌≤◌, ◌<◌, ◌≡◌, ◌∙◌, ap, min, some, List, ◌∷◌, length, take, arith, take-take_le,
}
use fifo.Prelude.Signs.{some-ltb}
use fifo.Prelude.Int.{pos, eqb_ℤ, ◌-ℤ◌}
use fifo.Os.{Os, Trace, called_back, did_read, did_write, done}
use fifo.Message.{Pipemsg, sizeof_msgbuf, msgsz, set_msgsz, msgbuf}
use fifo.Message.Codec.{msgsz-set_msgsz, msgbuf-set_msgsz}
use fifo.Message.Frame.{msgbuf-overlay}
use fifo.Message.Store.{overlay}
use fifo.Api.{fifo_s_ok}
use fifo.Timeout.Select.{answer}
use fifo.Worker.{OnPipemsg, PipeInstance, clamp_reply, answer_request}
use fifo.Worker.Reply.{clamp_reply-IsFrame}
use fifo.Client.{Client, client_read}
use fifo.Client.Read.{waited, ready, client_read-bytes}

module _ (os : Os) (pipemsgcb : OnPipemsg) (inst : PipeInstance) (t : Trace) where
  -- the reply as the callback leaves it, called with the size 0
  abbrev pub callback_reply : Pipemsg
  callback_reply = pipemsgcb t inst.request (set_msgsz (pos 0) inst.reply)

  -- the bytes that the worker writes for it
  abbrev pub reply_frame : List ℕ
  reply_frame = take (clamp_reply callback_reply).0 (clamp_reply callback_reply).1

  -- A reply of positive size is written in one piece; the worker goes on if the system took all.
  pub answer_request-frame :
      (n : ℕ)
      → msgsz callback_reply ≡ pos n
      → 0 < n
      → let u = called_back inst.request callback_reply ∷ t in
        let r = os.write u inst.replyfd reply_frame in
        answer_request os pipemsgcb inst t
        ≡ done
            (
              eqb_ℤ r (pos (clamp_reply callback_reply).0),
              record inst { reply = (clamp_reply callback_reply).1 },
            )
            (did_write inst.replyfd reply_frame r ∷ u)
  unfolding answer_request
  answer_request-frame n size some_left = rw (size, some-ltb n some_left)

pos-sub : (k m : ℕ) → k ≡ 4 + m → pos k -ℤ pos 4 ≡ pos m
pos-sub k m e = ground arith

-- The worker answers a request with a reply of positive size `n`, and the client gets the bytes of
-- that `write` in one `read`. Then `fifo_client_read` returns FIFO_S_OK, with the size of the reply,
-- or 4092 if that is less, and with that many bytes of its body.
pub client_read-answer_request :
    (worker_os : Os) (pipemsgcb : OnPipemsg) (inst : PipeInstance) (t : Trace) (n : ℕ)
    → (client_os : Os) (client : Client) (msg : Pipemsg) (v : Trace)
    → let reply = callback_reply worker_os pipemsgcb inst t in
      let frame = reply_frame worker_os pipemsgcb inst t in
      let u = called_back inst.request reply ∷ t in
      let r = worker_os.write u inst.replyfd frame in
      let m = min n sizeof_msgbuf in
      let w = ready client_os client msg v in
      let got = set_msgsz (pos (length frame) -ℤ pos 4) (overlay frame msg) in
      length reply ≡ 4096
      → msgsz reply ≡ pos n
      → 0 < n
      → length msg ≡ 4096
      → (answer client_os client.readfd client.wait_timeout v).0 ≡ pos 1
      → client_os.read w client.readfd 4096 ≡ some frame
      → (answer_request worker_os pipemsgcb inst t
          ≡ done
              (eqb_ℤ r (pos (clamp_reply reply).0), record inst { reply = (clamp_reply reply).1 })
              (did_write inst.replyfd frame r ∷ u))
        × (client_read client_os client msg v
            ≡ done
                (fifo_s_ok, waited client_os client msg v, got)
                (did_read client.readfd 4096 (some frame) ∷ w))
        × (msgsz got ≡ pos m)
        × (take m (msgbuf got) ≡ take m (msgbuf reply))
client_read-answer_request worker_os pipemsgcb inst t n client_os client msg v whole size some_left
      room one delivered =
    let reply = callback_reply worker_os pipemsgcb inst t in
    let frame = reply_frame worker_os pipemsgcb inst t in
    let m = min n sizeof_msgbuf in
    let is = (clamp_reply-IsFrame n reply whole size).1 in
    let len : length frame ≡ 4 + m = is.len in
    let small : length frame ≤ 4096 = omega arith in
    (
      answer_request-frame worker_os pipemsgcb inst t n size some_left,
      client_read-bytes client_os client msg v frame one delivered (omega arith) (omega arith),
      ap msgsz (ap (λ k. set_msgsz k (overlay frame msg)) (pos-sub (length frame) m len))
          ∙ (msgsz-set_msgsz (pos m) (overlay frame msg) (omega arith)).0,
      ap (take m) (msgbuf-set_msgsz (pos (length frame) -ℤ pos 4) (overlay frame msg))
          ∙ msgbuf-overlay m frame msg len
          ∙ ap (take m) is.tail
          ∙ take-take_le m m (msgbuf reply) (omega arith),
    )
