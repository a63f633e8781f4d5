-- ===== src/Client/Read.antt =====
-- `fifo_client_read` on each of its branches.
use fifo.Prelude.{
  ℕ, ◌≤◌, ◌<◌, ◌≡◌, ap, some, none, List, [], ◌∷◌, length, false, true, arith, if◌then◌else◌,
}
use fifo.Prelude.Signs.{pos-ne_zero, some-ltb}
use fifo.Prelude.Int.{ℤ, pos, eqb_ℤ, ◌-ℤ◌}
use fifo.Os.{Os, Trace, did_read, done, exited}
use fifo.Message.{Pipemsg, set_msgsz}
use fifo.Message.Store.{overlay}
use fifo.Api.{fifo_s_ok, fifo_e_failed, fifo_e_timeout}
use fifo.Timeout.Select.{answer, left, behind, select_readable_lem}
use fifo.Client.{Client, client_read}
use fifo.Reader.Rounds.{read_into-overlay, read_into-none}

is_ready : {rc : ℤ} → rc ≡ pos 1 → eqb_ℤ rc (pos 1) ≡ true
is_ready one = ap (λ rc. eqb_ℤ rc (pos 1)) one

module _ (os : Os) (client : Client) (msg : Pipemsg) (t : Trace) where
  -- the client with what the wait left of its timeout
  abbrev pub waited : Client
  waited = record client { wait_timeout = left os client.readfd client.wait_timeout t }

  abbrev pub ready : Trace
  ready = behind os client.readfd client.wait_timeout t

  -- On a ready descriptor `fifo_client_read` takes up to 4096 bytes in one `read`, stores them at the
  -- start of the message, and makes its size the number of bytes less 4.
  pub client_read-bytes :
      (bytes : List ℕ)
      → (answer os client.readfd client.wait_timeout t).0 ≡ pos 1
      → os.read ready client.readfd 4096 ≡ some bytes
      → 0 < length bytes
      → length bytes ≤ length msg
      → client_read os client msg t
        ≡ done
            (fifo_s_ok, waited, set_msgsz (pos (length bytes) -ℤ pos 4) (overlay bytes msg))
            (did_read client.readfd 4096 (some bytes) ∷ ready)
  unfolding client_read
  client_read-bytes bytes one got nonempty fits = rw (
    select_readable_lem os client.readfd client.wait_timeout t,
    is_ready one,
    read_into-overlay os client.readfd [] bytes msg 4096 ready (omega arith) got,
    pos-ne_zero (length bytes) nonempty,
    some-ltb (length bytes) nonempty,
  )

  -- At the end of the file the message gets the size 0, and the result is FIFO_S_OK too.
  pub client_read-eof :
      (answer os client.readfd client.wait_timeout t).0 ≡ pos 1
      → os.read ready client.readfd 4096 ≡ some []
      → client_read os client msg t
        ≡ done
            (fifo_s_ok, waited, set_msgsz (pos 0) msg)
            (did_read client.readfd 4096 (some []) ∷ ready)
  unfolding client_read
  client_read-eof one got = rw (
    select_readable_lem os client.readfd client.wait_timeout t,
    is_ready one,
    read_into-overlay os client.readfd [] [] msg 4096 ready (omega arith) got,
  )

  -- Where nothing becomes readable nothing is read, and the message is as it was: the result is
  -- FIFO_E_TIMEOUT if `select` returned 0, and FIFO_E_FAILED otherwise.
  pub client_read-idle :
      eqb_ℤ (answer os client.readfd client.wait_timeout t).0 (pos 1) ≡ false
      → client_read os client msg t
        ≡ done
            (
              if eqb_ℤ (answer os client.readfd client.wait_timeout t).0 (pos 0)
                  then fifo_e_timeout
                  else fifo_e_failed,
              waited,
              msg,
            )
            ready
  unfolding client_read
  client_read-idle idle = rw (select_readable_lem os client.readfd client.wait_timeout t, idle)

  -- If `read` fails on a ready descriptor, the process of the client exits.
  pub client_read-exits :
      (answer os client.readfd client.wait_timeout t).0 ≡ pos 1
      → os.read ready client.readfd 4096 ≡ none
      → client_read os client msg t ≡ exited (did_read client.readfd 4096 none ∷ ready)
  unfolding client_read
  client_read-exits one got = rw (
    select_readable_lem os client.readfd client.wait_timeout t,
    is_ready one,
    read_into-none os client.readfd 0 msg 4096 ready (omega arith) got,
  )
