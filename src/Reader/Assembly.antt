-- ===== src/Reader/Assembly.antt =====
-- `readpipemsg_nb` on a message that arrives whole.
use fifo.Prelude.{
  ℕ, ◌+◌, ◌≤◌, ◌<◌, ◌≡◌, sym, ◌∙◌, ap, some, List, [], ◌∷◌, ◌++◌, append-nil, length, arith,
}
use fifo.Prelude.Int.{ℤ, pos}
use fifo.Os.{Os, Trace, done, did_read}
use fifo.Message.{Pipemsg, sizeof_msgbuf, decode32, msgsz}
use fifo.Message.Codec.{msgsz-append}
use fifo.Message.Store.{overlay}
use fifo.Reader.{after_header, readpipemsg_nb}
use fifo.Reader.Delivery.{Arrival, again, chunk, payload, Delivers, reads, body_loop-Delivers}
use fifo.Reader.Header.{readpipemsg-header, after_header-body, after_header-zero}

module _ (os : Os) (fd : ℤ) where
  after_header-Delivers :
      (fuel : ℕ) (arrivals : List Arrival) (header : List ℕ) (msg : Pipemsg) (t : Trace)
      → msgsz (overlay header msg) ≡ pos (length (payload arrivals))
      → length header + length (payload arrivals) ≤ length msg
      → length arrivals < fuel
      → Delivers os fd arrivals t
      → after_header os fuel fd (some (pos (length header))) (overlay header msg) t
        ≡ done (pos 0, overlay (header ++ payload arrivals) msg) (reads os fd arrivals t)
  after_header-Delivers fuel [] header msg t size fits enough answers =
      after_header-zero os fd fuel (pos (length header)) (overlay header msg) t size
      ∙ ap (λ front. done (pos 0, overlay front msg) t) (sym (append-nil header))
  after_header-Delivers fuel (again ∷ rest) header msg t size fits enough answers =
      after_header-body os fd fuel (length header) (length (payload rest)) (overlay header msg) t
        answers.0 size
      ∙ body_loop-Delivers os fd fuel (again ∷ rest) header msg t enough answers.0 fits answers
  after_header-Delivers fuel (chunk b bs ∷ rest) header msg t size fits enough answers =
      after_header-body os fd fuel (length header) (length (payload (chunk b bs ∷ rest)))
        (overlay header msg) t (omega arith) size
      ∙ body_loop-Delivers os fd fuel (chunk b bs ∷ rest) header msg t enough (omega arith) fits
          answers

  -- If the system delivers the four bytes of a size in 0..4092 and then, in pieces of any length with
  -- EAGAIN at any place between them, as many bytes, then with more fuel than there are answers
  -- `readpipemsg_nb` returns 0; the message starts with the size and those bytes in order, and its
  -- other bytes are as they were.
  pub readpipemsg_nb-Delivers :
      (fuel : ℕ) (arrivals : List Arrival) (header : List ℕ) (msg : Pipemsg) (t : Trace)
      → length msg ≡ 4096
      → length header ≡ 4
      → decode32 header ≡ pos (length (payload arrivals))
      → length (payload arrivals) ≤ sizeof_msgbuf
      → length arrivals < fuel
      → os.read t fd 4 ≡ some header
      → Delivers os fd arrivals (did_read fd 4 (some header) ∷ t)
      → readpipemsg_nb os fuel fd msg t
        ≡ done
            (pos 0, overlay (header ++ payload arrivals) msg)
            (reads os fd arrivals (did_read fd 4 (some header) ∷ t))
  readpipemsg_nb-Delivers fuel arrivals header msg t room four size small enough got answers =
      readpipemsg-header os fd fuel header msg t four (omega arith) got
      ∙ after_header-Delivers fuel arrivals header msg _ (msgsz-append header _ four ∙ size)
          (omega arith) enough answers
