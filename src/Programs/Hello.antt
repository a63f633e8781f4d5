-- ===== src/Programs/Hello.antt =====
-- The messages of the client program.
use fifo.Prelude.{
  ℕ, ◌+◌, ◌≤◌, ◌≡◌, sym, ap, ◌∙◌, ◌∷◌, ◌++◌, length, take, drop, arith, length-append, length-take,
  length-drop, drop-append_length, take-append_length,
}
use fifo.Prelude.Int.{pos}
use fifo.CString.{codes, decimal}
use fifo.CString.Strings.{length-digits}
use fifo.Message.{Pipemsg, msgsz, msgbuf}
use fifo.Message.Codec.{msgsz-set_msgsz}
use fifo.Worker.Reply.{length-set_msgsz}
use fifo.Programs.{hello, hello_msg}

length-hello : (i : ℕ) → length (hello i) ≤ 32
unfolding hello
length-hello i =
    omega (arith, length-append (decimal i) (codes "] hello from client"), length-digits 10 i)

-- In every round the message of the client program has the size of its text and starts with it,
-- whatever the last reply has left in the struct; the text has 32 characters at most.
pub hello_msg-text :
    (i : ℕ) (msg : Pipemsg)
    → length msg ≡ 4096
    → (msgsz (hello_msg i msg) ≡ pos (length (hello i)))
      × (take (length (hello i)) (msgbuf (hello_msg i msg)) ≡ hello i)
      × (length (hello i) ≤ 32)
unfolding hello_msg
hello_msg-text i msg whole =
    let text = hello i in
    let rest = text ++ 0 ∷ drop (5 + length text) msg in
    let set =
      msgsz-set_msgsz (pos (length text)) (take 4 msg ++ rest) (omega (arith, length-hello i)) in
    let four : length (take 4 msg) ≡ 4 = omega (arith, length-take 4 msg) in
    (
      set.0,
      ap (take (length text)) (
            set.1
            ∙ ap (λ k. drop k (take 4 msg ++ rest)) (sym four)
            ∙ drop-append_length (take 4 msg) rest)
          ∙ take-append_length text (0 ∷ drop (5 + length text) msg),
      length-hello i,
    )

-- The message stays whole.
pub length-hello_msg : (i : ℕ) (msg : Pipemsg) → length msg ≡ 4096 → length (hello_msg i msg) ≡ 4096
unfolding hello_msg
length-hello_msg i msg whole =
    let text = hello i in
    let rest = text ++ 0 ∷ drop (5 + length text) msg in
    let four = length-take 4 msg in
    let all = length-append (take 4 msg) rest in
    let behind = length-append text (0 ∷ drop (5 + length text) msg) in
    let last = length-drop (5 + length text) msg in
    let sum : length (take 4 msg ++ rest) ≡ 4096 =
      omega (arith, four, all, behind, last, length-hello i, whole) in
    length-set_msgsz (pos (length text)) (take 4 msg ++ rest) (omega arith) ∙ sum
