-- ===== src/Reader/Delivery.antt =====
-- `readpipemsg_nb` puts a message together from whatever pieces the pipe delivers.
use fifo.Prelude.{
  ℕ, zero, suc, ◌+◌, ◌≤◌, ◌<◌, ◌≡◌, refl, ◌∙◌, ap, sym, none, some, List, [], ◌∷◌, ◌++◌, append-nil,
  append_assoc, length, length-append, arith,
}
use fifo.Prelude.Int.{ℤ, pos}
use fifo.Os.{Os, eagain, Trace, done, did_read}
use fifo.Message.{Pipemsg}
use fifo.Message.Store.{overlay, length-overlay}
use fifo.Reader.{body_loop, is_eagain}
use fifo.Reader.Rounds.{body_loop-again, body_loop-more, body_loop-last}

pub data Arrival : Type 0 where
  -- `read` answers -1 with EAGAIN
  again : Arrival
  -- `read` answers with one byte or more
  chunk : ℕ → List ℕ → Arrival

abbrev pub payload : List Arrival → List ℕ
payload [] = []
payload (again ∷ rest) = payload rest
payload (chunk b bs ∷ rest) = (b ∷ bs) ++ payload rest

module _ (os : Os) (fd : ℤ) where
  -- The trace behind the reads of the body that these arrivals answer. Each asks for all that is
  -- left.
  abbrev pub reads : List Arrival → Trace → Trace
  reads [] t = t
  reads (again ∷ rest) t = reads rest (did_read fd (length (payload rest)) none ∷ t)
  reads (chunk b bs ∷ rest) t =
      reads rest (did_read fd (length ((b ∷ bs) ++ payload rest)) (some (b ∷ bs)) ∷ t)

  -- From the trace `t` on the system answers the reads by these arrivals; EAGAIN comes only while
  -- bytes are outstanding.
  abbrev pub Delivers : List Arrival → Trace → Type 0
  Delivers [] t = Unit {0}
  Delivers (again ∷ rest) t =
      let n = length (payload rest) in
      let u = did_read fd n none ∷ t in
      (0 < n) × (os.read t fd n ≡ none) × (os.errno u ≡ eagain) × Delivers rest u
  Delivers (chunk b bs ∷ rest) t =
      let n = length ((b ∷ bs) ++ payload rest) in
      (os.read t fd n ≡ some (b ∷ bs)) × Delivers rest (did_read fd n (some (b ∷ bs)) ∷ t)

  -- One piece, then the rest.
  body_loop-chunk :
      (fuel b : ℕ) (bs rest front : List ℕ) (old : Pipemsg) (t u : Trace)
      → 0 < length rest
      → length front + length ((b ∷ bs) ++ rest) ≤ length old
      → os.read t fd (length ((b ∷ bs) ++ rest)) ≡ some (b ∷ bs)
      → body_loop os fuel fd
          (overlay (front ++ b ∷ bs) old)
          (pos (length (front ++ b ∷ bs)))
          (pos (length (front ++ b ∷ bs) + length rest))
          (did_read fd (length ((b ∷ bs) ++ rest)) (some (b ∷ bs)) ∷ t)
        ≡ done (pos 0, overlay ((front ++ b ∷ bs) ++ rest) old) u
      → body_loop os
          (suc fuel)
          fd
          (overlay front old)
          (pos (length front))
          (pos (length front + length ((b ∷ bs) ++ rest)))
          t
        ≡ done (pos 0, overlay (front ++ ((b ∷ bs) ++ rest)) old) u
  body_loop-chunk fuel b bs rest front old t u more fits e then_rest =
      body_loop-more os fd fuel (length rest) (length ((b ∷ bs) ++ rest)) front (b ∷ bs) old t
        (omega arith) more (sym (length-append (b ∷ bs) rest)) fits e
      ∙ then_rest
      ∙ ap (λ bytes. done (pos 0, overlay bytes old) u) (append_assoc front (b ∷ bs) rest)

  pub body_loop-Delivers :
      (fuel : ℕ) (arrivals : List Arrival) (front : List ℕ) (old : Pipemsg) (t : Trace)
      → length arrivals < fuel
      → 0 < length (payload arrivals)
      → length front + length (payload arrivals) ≤ length old
      → Delivers arrivals t
      → body_loop os fuel fd
          (overlay front old)
          (pos (length front))
          (pos (length front + length (payload arrivals)))
          t
        ≡ done (pos 0, overlay (front ++ payload arrivals) old) (reads arrivals t)
  body_loop-Delivers zero arrivals front old t enough some_left fits answers = absurd (omega arith)
  body_loop-Delivers (suc fuel) [] front old t enough some_left fits answers = absurd (omega arith)
  body_loop-Delivers (suc fuel) (again ∷ rest) front old t enough some_left fits
        (_, e, a, answers) =
      body_loop-again os fd fuel (length front) (length (payload rest)) (overlay front old) t
        some_left (omega (arith, length-overlay front old)) e (ap is_eagain a)
      ∙ body_loop-Delivers fuel rest front old _ (omega arith) some_left fits answers
  body_loop-Delivers (suc fuel) (chunk b bs ∷ []) front old t enough some_left fits (e, _) =
      rw (append-nil bs) (
        body_loop-last os fd fuel (suc (length bs)) front (b ∷ bs) old t (omega arith) refl
          (omega (arith, length-append bs [])) (rw (append-nil bs) at e))
  body_loop-Delivers (suc fuel) (chunk b bs ∷ again ∷ rest) front old t enough some_left fits
        (e, answers) =
      body_loop-chunk fuel b bs (payload rest) front old t _ answers.0 fits e (
        body_loop-Delivers fuel (again ∷ rest) (front ++ b ∷ bs) old _ (omega arith) answers.0
          (omega (arith, length-append front (b ∷ bs), length-append bs (payload rest))) answers)
  body_loop-Delivers (suc fuel) (chunk b bs ∷ chunk c cs ∷ rest) front old t enough some_left fits
        (e, answers) =
      body_loop-chunk fuel b bs (payload (chunk c cs ∷ rest)) front old t _ (omega arith) fits e (
        body_loop-Delivers fuel (chunk c cs ∷ rest) (front ++ b ∷ bs) old _ (omega arith)
          (omega arith)
          (omega
            (arith, length-append front (b ∷ bs), length-append bs (payload (chunk c cs ∷ rest))))
          answers)
