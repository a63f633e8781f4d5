-- ===== src/Message/Frame.antt =====
-- The bytes of a message that go through a pipe: its size field and as many bytes of the body.
use fifo.Prelude.{
  ℕ, ◌+◌, ◌≤◌, ◌≡◌, sym, ap, ◌∙◌, List, length, take, drop, arith, length-append, length-take,
  length-drop, take-append_le, drop-append_le, drop-take, take-take_le,
}
use fifo.Message.{Pipemsg, msgsz, msgbuf, decode32}
use fifo.Message.Codec.{msgsz-take}
use fifo.Message.Store.{overlay}

-- What a message starts with, where `frame` covers its size field.
pub msgsz-overlay :
    (frame : List ℕ) (msg : Pipemsg)
    → 4 ≤ length frame
    → msgsz (overlay frame msg) ≡ decode32 (take 4 frame)
msgsz-overlay frame msg long =
    sym (
      msgsz-take (overlay frame msg) (omega (arith, length-append frame (drop (length frame) msg))))
    ∙ ap decode32 (take-append_le 4 frame _ long)

pub msgbuf-overlay :
    (n : ℕ) (frame : List ℕ) (msg : Pipemsg)
    → length frame ≡ 4 + n
    → take n (msgbuf (overlay frame msg)) ≡ take n (drop 4 frame)
msgbuf-overlay n frame msg len =
    ap (take n) (drop-append_le 4 frame _ (omega arith))
    ∙ take-append_le n (drop 4 frame) _ (omega (arith, length-drop 4 frame))

module _ (sent : Pipemsg) (n : ℕ) (long : 4 + n ≤ length sent) where
  pub length-frame : length (take (4 + n) sent) ≡ 4 + n
  length-frame = omega (arith, length-take (4 + n) sent)

  pub decode32-frame : decode32 (take 4 (take (4 + n) sent)) ≡ msgsz sent
  decode32-frame =
      ap decode32 (take-take_le 4 (4 + n) sent (omega arith)) ∙ msgsz-take sent (omega arith)

  pub msgbuf-frame : take n (drop 4 (take (4 + n) sent)) ≡ take n (msgbuf sent)
  msgbuf-frame = ap (take n) (drop-take 4 n sent) ∙ take-take_le n n (drop 4 sent) (omega arith)
