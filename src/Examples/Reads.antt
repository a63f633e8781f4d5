-- ===== src/Examples/Reads.antt =====
-- Runs of `readpipemsg_nb`.
use fifo.Prelude.{ℕ, ◌≡◌, refl, none, some, List, [], ◌∷◌, inl, arith, replicate, length-replicate}
use fifo.Prelude.Int.{pos, minus_one}
use fifo.Os.{Os, did_read, done, fault}
use fifo.Message.{decode32, msgsz, zero_msg}
use fifo.Message.Store.{overlay}
use fifo.Reader.{readpipemsg_nb}
use fifo.Reader.Delivery.{reads}
use fifo.Reader.Assembly.{readpipemsg_nb-Delivers}
use fifo.Reader.Safety.{Outcome, bytes_read, readpipemsg_nb-Outcome}
use fifo.Reader.Rejects.{readpipemsg_nb-BadHeader}
use fifo.Reader.Again.{readpipemsg_nb-again_empty, readpipemsg_nb-again_underrun}
use fifo.Reader.Overflow.{readpipemsg_nb-overflow}
use fifo.Examples.Systems.{
  calm, two_bytes, two_bytes-size, zero_msg-length, zero_msg-size, piecemeal, generous,
  generous-ReadsAtMost, arrivals,
}

two_header : decode32 (2 ∷ 0 ∷ 0 ∷ 0 ∷ []) ≡ pos 2
unfolding decode32
two_header = refl

readpipemsg_nb-Delivers_example :
    readpipemsg_nb piecemeal 4 (pos 3) zero_msg []
    ≡ done
        (pos 0, overlay (2 ∷ 0 ∷ 0 ∷ 0 ∷ 9 ∷ 8 ∷ []) zero_msg)
        (reads piecemeal (pos 3) arrivals (did_read (pos 3) 4 (some (2 ∷ 0 ∷ 0 ∷ 0 ∷ [])) ∷ []))
readpipemsg_nb-Delivers_example =
    readpipemsg_nb-Delivers piecemeal (pos 3) 4 arrivals (2 ∷ 0 ∷ 0 ∷ 0 ∷ []) zero_msg []
      zero_msg-length refl two_header (omega arith) (omega arith) refl
      (refl, (omega arith, refl, refl, (refl, tt)))

three_header : msgsz (overlay (3 ∷ 0 ∷ 0 ∷ 0 ∷ []) zero_msg) ≡ pos 3
unfolding msgsz decode32
three_header = refl

readpipemsg_nb-Outcome_example :
    Outcome [] zero_msg 7 (bytes_read []) (readpipemsg_nb generous 2 (pos 3) zero_msg [])
readpipemsg_nb-Outcome_example =
    readpipemsg_nb-Outcome generous (pos 3) generous-ReadsAtMost 2 3 (3 ∷ 0 ∷ 0 ∷ 0 ∷ []) zero_msg
      [] zero_msg-length refl refl three_header (omega arith)

readpipemsg_nb-BadHeader_example :
    readpipemsg_nb calm 1 (pos 3) zero_msg []
    ≡ done (minus_one, overlay [] zero_msg) (did_read (pos 3) 4 (some []) ∷ [])
readpipemsg_nb-BadHeader_example =
    readpipemsg_nb-BadHeader calm (pos 3) 0 zero_msg [] zero_msg-length (inl (omega arith))

-- no byte has come yet
abbrev empty_pipe : Os
empty_pipe = record calm { read = λ t fd n. none }

readpipemsg_nb-again_empty_example :
    readpipemsg_nb empty_pipe 1 (pos 3) zero_msg []
    ≡ done (pos 0, zero_msg) (did_read (pos 3) 4 none ∷ [])
readpipemsg_nb-again_empty_example =
    readpipemsg_nb-again_empty empty_pipe (pos 3) 1 zero_msg [] zero_msg-size refl refl

-- the bytes come behind the first `read`
abbrev late : Os
late = record calm { read = λ t fd n. elim t [ [] ↦ none | _ ∷ _ ↦ some (9 ∷ 8 ∷ []) ] }

readpipemsg_nb-again_underrun_example :
    readpipemsg_nb late 1 (pos 3) two_bytes []
    ≡ fault (did_read (pos 3) 2 (some (9 ∷ 8 ∷ [])) ∷ did_read (pos 3) 4 none ∷ [])
readpipemsg_nb-again_underrun_example =
    readpipemsg_nb-again_underrun late (pos 3) 0 1 9 (8 ∷ []) two_bytes [] two_bytes-size refl refl
      refl

abbrev long_body : List ℕ
long_body = replicate 5000 1

-- a size field of 5000 and as many bytes
abbrev flood : Os
flood = record calm {
  read = λ t fd n. elim t [ [] ↦ some (136 ∷ 19 ∷ 0 ∷ 0 ∷ []) | _ ∷ _ ↦ some long_body ];
}

flood_header : msgsz (overlay (136 ∷ 19 ∷ 0 ∷ 0 ∷ []) zero_msg) ≡ pos 5000
unfolding msgsz decode32
flood_header = refl

readpipemsg_nb-overflow_example :
    readpipemsg_nb flood 1 (pos 3) zero_msg []
    ≡ fault (
        did_read (pos 3) 5000 (some long_body)
        ∷ did_read (pos 3) 4 (some (136 ∷ 19 ∷ 0 ∷ 0 ∷ []))
        ∷ [])
readpipemsg_nb-overflow_example =
    readpipemsg_nb-overflow flood (pos 3) 0 5000 (136 ∷ 19 ∷ 0 ∷ 0 ∷ []) long_body zero_msg []
      zero_msg-length refl refl flood_header (omega arith) refl
      (omega (arith, length-replicate {A = ℕ} 5000 1))
