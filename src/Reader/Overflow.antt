-- ===== src/Reader/Overflow.antt =====
-- The size of a message is not compared with the room in `msgbuf`.
use fifo.Prelude.{ℕ, suc, ◌+◌, ◌<◌, ◌≡◌, ◌∙◌, some, List, ◌∷◌, length, arith, false, leb}
use fifo.Prelude.Int.{ℤ, pos}
use fifo.Os.{Os, Trace, fault, did_read}
use fifo.Message.{Pipemsg, sizeof_msgbuf, msgsz}
use fifo.Message.Store.{overlay, length-overlay}
use fifo.Reader.{read_into, body_loop, readpipemsg_nb}
use fifo.Reader.Header.{readpipemsg-header, after_header-body}
use fifo.Reader.Rounds.{left-ltb, left-sub}

gt→leb : (a b : ℕ) → b < a → leb a b ≡ false
gt→leb a b h = ground arith

module _ (os : Os) (fd : ℤ) where
  read_into-overrun :
      (k n : ℕ) (msg : Pipemsg) (bytes : List ℕ) (t : Trace)
      → length msg < k + length bytes
      → os.read t fd n ≡ some bytes
      → read_into os fd msg (pos k) n t ≡ fault (did_read fd n (some bytes) ∷ t)
  unfolding read_into
  read_into-overrun k n msg bytes t over got = rw (got, gt→leb (k + length bytes) (length msg) over)

  body_loop-overrun :
      (fuel k n : ℕ) (msg : Pipemsg) (bytes : List ℕ) (t : Trace)
      → 0 < n
      → length msg < k + length bytes
      → os.read t fd n ≡ some bytes
      → body_loop os (suc fuel) fd msg (pos k) (pos (k + n)) t
        ≡ fault (did_read fd n (some bytes) ∷ t)
  unfolding body_loop
  body_loop-overrun fuel k n msg bytes t some_left over got =
      rw (left-ltb k n some_left, left-sub k n, read_into-overrun k n msg bytes t over got)

  -- If the four bytes of the size announce more than 4092 bytes and the next `read` delivers more
  -- than 4092, then `readpipemsg_nb` stores bytes behind the end of the message.
  pub readpipemsg_nb-overflow :
      (fuel n : ℕ) (header bytes : List ℕ) (msg : Pipemsg) (t : Trace)
      → length msg ≡ 4096
      → length header ≡ 4
      → os.read t fd 4 ≡ some header
      → msgsz (overlay header msg) ≡ pos n
      → sizeof_msgbuf < n
      → os.read (did_read fd 4 (some header) ∷ t) fd n ≡ some bytes
      → sizeof_msgbuf < length bytes
      → readpipemsg_nb os (suc fuel) fd msg t
        ≡ fault (did_read fd n (some bytes) ∷ did_read fd 4 (some header) ∷ t)
  readpipemsg_nb-overflow fuel n header bytes msg t room four got size big next over =
      readpipemsg-header os fd (suc fuel) header msg t four (omega arith) got
      ∙ after_header-body os fd (suc fuel) (length header) n (overlay header msg) _ (omega arith)
          size
      ∙ body_loop-overrun fuel (length header) n (overlay header msg) bytes _ (omega arith)
          (omega (arith, length-overlay header msg)) next
