-- ===== src/Client/Write.antt =====
-- `fifo_client_write` on each of its branches.
use fifo.Prelude.{lt→ltb, ge→ltb, ℕ, ◌+◌, ◌≤◌, ◌<◌, ◌≡◌, refl, ◌∷◌, take, if◌then◌else◌}
use fifo.Prelude.Signs.{negative, not_negative}
use fifo.Prelude.Int.{ℤ, pos, negsuc, eqb_ℤ}
use fifo.Os.{Os, Trace, did_write, done}
use fifo.Message.{Pipemsg, sizeof_msgbuf, msgsz}
use fifo.Api.{fifo_s_ok, fifo_e_failed, fifo_e_badarg}
use fifo.Client.{Client, client_write}

-- a size that `msgbuf` cannot have
abbrev pub BadSize : ℤ → Type 0
BadSize (pos n) = sizeof_msgbuf < n
BadSize (negsuc n) = Unit

module _ (os : Os) (client : Client) (msg : Pipemsg) (t : Trace) where
  -- A size in 0..4092 makes one `write` of the size field and that many bytes of the body; the
  -- result is FIFO_S_OK exactly if the system took all of them, and FIFO_E_FAILED otherwise.
  pub client_write-frame :
      (n : ℕ)
      → msgsz msg ≡ pos n
      → n ≤ sizeof_msgbuf
      → let frame = take (4 + n) msg in
        let r = os.write t client.writefd frame in
        client_write os client msg t
        ≡ done
            (if eqb_ℤ r (pos (4 + n)) then fifo_s_ok else fifo_e_failed)
            (did_write client.writefd frame r ∷ t)
  unfolding client_write
  client_write-frame n size small = rw (size, not_negative n, ge→ltb sizeof_msgbuf n small)

  bad_size :
      (n : ℤ) → msgsz msg ≡ n → BadSize n → client_write os client msg t ≡ done fifo_e_badarg t
  unfolding client_write
  bad_size (pos n) size big = rw (size, not_negative n, lt→ltb sizeof_msgbuf n big)
  bad_size (negsuc n) size _ = rw (size, negative n)

  -- Any other size is refused with FIFO_E_BADARG, and nothing is written.
  pub client_write-BadSize :
      BadSize (msgsz msg) → client_write os client msg t ≡ done fifo_e_badarg t
  client_write-BadSize bad = bad_size (msgsz msg) refl bad
