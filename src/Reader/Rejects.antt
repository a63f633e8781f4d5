-- ===== src/Reader/Rejects.antt =====
-- The size field cannot be read, or is negative: `readpipemsg_nb` returns -1.
use fifo.Prelude.{
  ℕ, suc, ◌≤◌, ◌<◌, ◌≡◌, refl, ◌∙◌, ◌⊎◌, inl, inr, Option, none, some, List, [], length, arith,
  false, ◌∷◌, ◌==◌,
}
use fifo.Prelude.Int.{ℤ, pos, negsuc, minus_one, ltb_ℤ, ◌+ℤ◌}
use fifo.Os.{Os, Trace, done, did_read}
use fifo.Message.{Pipemsg, msgsz}
use fifo.Message.Store.{overlay}
use fifo.Reader.{is_eagain, bytes_of, after_header, readpipemsg_nb}
use fifo.Reader.Rounds.{read_into-overlay, read_into-none}
use fifo.Reader.Header.{readpipemsg-header}

-- What `read` may answer to the request for the size: an error other than EAGAIN, fewer than four
-- bytes (none at the end of the file), or a negative size.
abbrev pub BadHeader : Os → ℤ → Trace → Pipemsg → Option (List ℕ) → Type 0
BadHeader os fd t msg none = is_eagain (os.errno (did_read fd 4 none ∷ t)) ≡ false
BadHeader os fd t msg (some got) =
    (length got < 4) ⊎ ((n : ℕ) × (length got ≡ 4) × (msgsz (overlay got msg) ≡ negsuc n))

negative-ltb : (k n : ℕ) → ltb_ℤ (pos k) (pos k +ℤ negsuc n) ≡ false
negative-ltb k n = ground arith

short-eqb : (k : ℕ) → k < 4 → (k == 4) ≡ false
short-eqb k h = ground arith

module _ (os : Os) (fd : ℤ) where
  after_header-negative :
      (fuel k n : ℕ) (msg : Pipemsg) (t : Trace)
      → msgsz msg ≡ negsuc n
      → after_header os (suc fuel) fd (some (pos k)) msg t ≡ done (minus_one, msg) t
  unfolding after_header
  after_header-negative fuel k n msg t size = rw (size, negative-ltb k n)

  rejects_answer :
      (fuel : ℕ) (msg : Pipemsg) (t : Trace) (got : Option (List ℕ))
      → 4 ≤ length msg
      → os.read t fd 4 ≡ got
      → BadHeader os fd t msg got
      → readpipemsg_nb os (suc fuel) fd msg t
        ≡ done (minus_one, overlay (bytes_of got) msg) (did_read fd 4 got ∷ t)
  unfolding readpipemsg_nb
  rejects_answer fuel msg t none room e bad =
      rw (read_into-none os fd 0 msg 4 t (omega arith) e, bad)
  rejects_answer fuel msg t (some got) room e (inl short) =
      rw (read_into-overlay os fd [] got msg 4 t (omega arith) e, short-eqb (length got) short)
  rejects_answer fuel msg t (some got) room e (inr (n, four, size)) =
      readpipemsg-header os fd (suc fuel) got msg t four room e
      ∙ after_header-negative fuel (length got) n (overlay got msg) _ size

  -- If the size cannot be read whole, for any reason but EAGAIN, or is negative, then
  -- `readpipemsg_nb` returns -1 after this one `read`, and has stored only what it delivered.
  pub readpipemsg_nb-BadHeader :
      (fuel : ℕ) (msg : Pipemsg) (t : Trace)
      → length msg ≡ 4096
      → BadHeader os fd t msg (os.read t fd 4)
      → readpipemsg_nb os (suc fuel) fd msg t
        ≡ done
            (minus_one, overlay (bytes_of (os.read t fd 4)) msg)
            (did_read fd 4 (os.read t fd 4) ∷ t)
  readpipemsg_nb-BadHeader fuel msg t room bad =
      rejects_answer fuel msg t (os.read t fd 4) (omega arith) refl bad
