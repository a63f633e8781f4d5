-- ===== src/Reader/Again.antt =====
-- EAGAIN on the first `read`: `continue` tests `offset == 0` with the offset -1, and the loop ends.
use fifo.Prelude.{ℕ, suc, ◌≡◌, ◌∙◌, none, some, List, ◌∷◌, arith, true}
use fifo.Prelude.Signs.{pos-ne_zero}
use fifo.Prelude.Int.{ℤ, pos, minus_one, ltb_ℤ, ◌+ℤ◌, ◌-ℤ◌, pos_part}
use fifo.Os.{Os, eagain, Trace, done, fault, did_read}
use fifo.Message.{Pipemsg, msgsz}
use fifo.Reader.{after_header, readpipemsg_nb}
use fifo.Reader.Header.{readpipemsg-again, after_header-zero}

behind-ltb : (n : ℕ) → ltb_ℤ minus_one (minus_one +ℤ pos (suc n)) ≡ true
behind-ltb n = ground arith

behind-sub : (n : ℕ) → pos_part (minus_one +ℤ pos (suc n) -ℤ minus_one) ≡ suc n
behind-sub n = ground arith

module _ (os : Os) (fd : ℤ) where
  after_header-underrun :
      (fuel n b : ℕ) (bs : List ℕ) (msg : Pipemsg) (t : Trace)
      → msgsz msg ≡ pos (suc n)
      → os.read t fd (suc n) ≡ some (b ∷ bs)
      → after_header os (suc fuel) fd (some minus_one) msg t
        ≡ fault (did_read fd (suc n) (some (b ∷ bs)) ∷ t)
  unfolding after_header
  after_header-underrun fuel n b bs msg t size got =
      rw (size, pos-ne_zero (suc n) (omega arith), behind-ltb n, behind-sub n, got)

  -- If the first `read` fails with EAGAIN and the message had the size 0 before the call, then
  -- `readpipemsg_nb` does not try again: it returns 0, as for an empty message, which nobody sent.
  pub readpipemsg_nb-again_empty :
      (fuel : ℕ) (msg : Pipemsg) (t : Trace)
      → msgsz msg ≡ pos 0
      → os.read t fd 4 ≡ none
      → os.errno (did_read fd 4 none ∷ t) ≡ eagain
      → readpipemsg_nb os fuel fd msg t ≡ done (pos 0, msg) (did_read fd 4 none ∷ t)
  readpipemsg_nb-again_empty fuel msg t size got e =
      readpipemsg-again os fd fuel msg t got e ∙ after_header-zero os fd fuel minus_one msg _ size

  -- If the first `read` fails with EAGAIN, the message has a positive size from before the call, and
  -- the next `read` delivers a byte, then `readpipemsg_nb` stores it in front of the message.
  pub readpipemsg_nb-again_underrun :
      (fuel n b : ℕ) (bs : List ℕ) (msg : Pipemsg) (t : Trace)
      → msgsz msg ≡ pos (suc n)
      → os.read t fd 4 ≡ none
      → os.errno (did_read fd 4 none ∷ t) ≡ eagain
      → os.read (did_read fd 4 none ∷ t) fd (suc n) ≡ some (b ∷ bs)
      → readpipemsg_nb os (suc fuel) fd msg t
        ≡ fault (did_read fd (suc n) (some (b ∷ bs)) ∷ did_read fd 4 none ∷ t)
  readpipemsg_nb-again_underrun fuel n b bs msg t size got e next =
      readpipemsg-again os fd (suc fuel) msg t got e
      ∙ after_header-underrun fuel n b bs msg _ size next
