-- ===== src/Reader/Header.antt =====
-- The first loop of `readpipemsg_nb`.
use fifo.Prelude.{ℕ, ◌+◌, ◌≤◌, ◌<◌, ◌≡◌, none, some, List, [], ◌∷◌, length, arith}
use fifo.Prelude.Signs.{pos-ne_zero}
use fifo.Prelude.Int.{ℤ, pos, minus_one}
use fifo.Os.{Os, eagain, Trace, done, did_read}
use fifo.Message.{Pipemsg, msgsz}
use fifo.Message.Store.{overlay}
use fifo.Reader.{body_loop, after_header, readpipemsg_nb}
use fifo.Reader.Rounds.{read_into-overlay, read_into-none, add-pos}

module _ (os : Os) (fd : ℤ) where
  -- Four bytes: on to the body.
  pub readpipemsg-header :
      (fuel : ℕ) (header : List ℕ) (msg : Pipemsg) (t : Trace)
      → length header ≡ 4
      → 4 ≤ length msg
      → os.read t fd 4 ≡ some header
      → readpipemsg_nb os fuel fd msg t
        ≡ after_header os fuel fd
            (some (pos (length header)))
            (overlay header msg)
            (did_read fd 4 (some header) ∷ t)
  unfolding readpipemsg_nb
  readpipemsg-header fuel header msg t four room got =
      rw (read_into-overlay os fd [] header msg 4 t (omega arith) got, four)

  -- EAGAIN: the loop ends with the offset -1, and the message is as it was.
  pub readpipemsg-again :
      (fuel : ℕ) (msg : Pipemsg) (t : Trace)
      → os.read t fd 4 ≡ none
      → os.errno (did_read fd 4 none ∷ t) ≡ eagain
      → readpipemsg_nb os fuel fd msg t
        ≡ after_header os fuel fd (some minus_one) msg (did_read fd 4 none ∷ t)
  unfolding readpipemsg_nb
  readpipemsg-again fuel msg t got e = rw (read_into-none os fd 0 msg 4 t (omega arith) got, e)

  -- A positive size: the second loop reads that many bytes more.
  pub after_header-body :
      (fuel k n : ℕ) (msg : Pipemsg) (t : Trace)
      → 0 < n
      → msgsz msg ≡ pos n
      → after_header os fuel fd (some (pos k)) msg t
        ≡ body_loop os fuel fd msg (pos k) (pos (k + n)) t
  unfolding after_header
  after_header-body fuel k n msg t some_left size = rw (size, add-pos k n, pos-ne_zero n some_left)

  pub after_header-zero :
      (fuel : ℕ) (offset : ℤ) (msg : Pipemsg) (t : Trace)
      → msgsz msg ≡ pos 0
      → after_header os fuel fd (some offset) msg t ≡ done (pos 0, msg) t
  unfolding after_header
  after_header-zero fuel offset msg t size = rw size
