-- ===== src/Worker/Reply.antt =====
-- The reply as the worker writes it.
use fifo.Prelude.{
  ge→ltb, ℕ, ◌+◌, ◌≤◌, ◌≡◌, refl, ◌∙◌, ap, min, List, length, take, drop, lt→ltb, dec_lt, arith,
  length-append, length-drop, drop-take,
}
use fifo.Prelude.Int.{ℤ, pos}
use fifo.Message.{Pipemsg, sizeof_msgbuf, msgsz, set_msgsz, msgbuf, decode32, encode32}
use fifo.Message.Codec.{msgsz-set_msgsz, length-encode32}
use fifo.Message.Frame.{length-frame, decode32-frame}
use fifo.Worker.{clamp_reply}

-- The frame that carries the first `m` bytes of the body of `reply`.
pub record IsFrame (m : ℕ) (body frame : List ℕ) : Type 0 where
  pub len : length frame ≡ 4 + m
  pub size : decode32 (take 4 frame) ≡ pos m
  pub tail : drop 4 frame ≡ take m body

take-IsFrame :
    (m : ℕ) (msg : Pipemsg) (body : List ℕ)
    → msgsz msg ≡ pos m
    → msgbuf msg ≡ body
    → 4 + m ≤ length msg
    → IsFrame m body (take (4 + m) msg)
take-IsFrame m reply body size same long = record {
  len = length-frame reply m long;
  size = decode32-frame reply m long ∙ size;
  tail = drop-take 4 m reply ∙ ap (take m) same;
}

pub length-set_msgsz :
    (n : ℤ) (msg : Pipemsg) → 4 ≤ length msg → length (set_msgsz n msg) ≡ length msg
unfolding set_msgsz
length-set_msgsz n msg long =
    omega (arith, length-append (encode32 n) (drop 4 msg), length-encode32 n, length-drop 4 msg)

-- What the worker writes for a reply of positive size holds the size of what follows: the size of
-- the reply, or 4092 if the callback made it larger, and then that many bytes of its body.
pub clamp_reply-IsFrame :
    (n : ℕ) (reply : Pipemsg)
    → length reply ≡ 4096
    → msgsz reply ≡ pos n
    → let (cbwrite, reply') = clamp_reply reply in
      (cbwrite ≡ 4 + min n sizeof_msgbuf)
      × IsFrame (min n sizeof_msgbuf) (msgbuf reply) (take cbwrite reply')
unfolding clamp_reply
clamp_reply-IsFrame n reply whole size = elim (dec_lt sizeof_msgbuf n) [
  | yes big ↦
      let cut = set_msgsz (pos 4092) reply in
      let cut_size = msgsz-set_msgsz (pos 4092) reply (omega arith) in
      let long : 4 + 4092 ≤ length cut =
        omega (arith, length-set_msgsz (pos 4092) reply (omega arith)) in
      let all : min n sizeof_msgbuf ≡ 4092 = omega arith in
      rw (size, lt→ltb 4096 (4 + n) (omega arith), all)
        (refl, take-IsFrame 4092 cut (msgbuf reply) cut_size.0 cut_size.1 long)
  | no fits ↦
      let all : min n sizeof_msgbuf ≡ n = omega arith in
      rw (size, ge→ltb 4096 (4 + n) (omega arith), all)
        (refl, take-IsFrame n reply (msgbuf reply) size refl (omega arith))
]
