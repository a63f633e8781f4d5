-- ===== src/Reader/Safety.antt =====
-- Whatever the system answers: `readpipemsg_nb` stays inside the message if the size that it reads is
-- in range, and returns 0 only on a whole message.
use fifo.Prelude.{
  ℕ, zero, suc, ◌+◌, ◌≤◌, ◌<◌, ◌≡◌, refl, ◌∙◌, ap, none, some, List, [], ◌∷◌, ◌++◌, append_assoc,
  length, length-append, Bool-cases, inl, inr, Option, ◌-◌, dec_lt, arith,
}
use fifo.Prelude.Int.{ℤ, pos, negsuc}
use fifo.Os.{Os, did_read, Trace, Run, done, exited, fault, out_of_fuel}
use fifo.Message.{Pipemsg, sizeof_msgbuf, msgsz}
use fifo.Message.Store.{overlay, length-overlay}
use fifo.Reader.{body_loop, is_eagain, readpipemsg_nb}
use fifo.Reader.Header.{readpipemsg-header, after_header-body, after_header-zero}
use fifo.Reader.Rounds.{
  body_loop-again, body_loop-more, body_loop-last, body_loop-eof, body_loop-error,
}

-- the bytes of all reads, in the order in which they came
unfoldable pub bytes_read : Trace → List ℕ
bytes_read [] = []
bytes_read (did_read fd n (some bytes) ∷ t) = bytes_read t ++ bytes
bytes_read (_ ∷ t) = bytes_read t

-- `read` delivers no more than it is asked for.
abbrev pub ReadsAtMost : Os → Type 0
ReadsAtMost os =
    (t : Trace) (fd : ℤ) (n : ℕ) (bytes : List ℕ) → os.read t fd n ≡ some bytes → length bytes ≤ n

-- The outcome of a read that has `front` in the message already, waits for `n` bytes, and began
-- when `before` had been read: no fault; on 0 the `n` bytes that came stand behind `front`.
abbrev pub Outcome : List ℕ → Pipemsg → ℕ → List ℕ → Run (ℤ × Pipemsg) → Type 0
Outcome front old n before (done (pos zero, msg) u) =
    (bytes : List ℕ) × (length bytes ≡ n)
    × (msg ≡ overlay (front ++ bytes) old)
    × (bytes_read u ≡ before ++ bytes)
Outcome front old n before (done (pos (suc _), msg) u) = ⊥
Outcome front old n before (done (negsuc _, msg) u) = length msg ≡ length old
Outcome front old n before (exited u) = ⊥
Outcome front old n before (fault u) = ⊥
Outcome front old n before (out_of_fuel u) = Unit {0}

Outcome-more :
    (front bytes : List ℕ) (old : Pipemsg) (k n : ℕ) (before : List ℕ) (r : Run (ℤ × Pipemsg))
    → length bytes + k ≡ n
    → Outcome (front ++ bytes) old k (before ++ bytes) r
    → Outcome front old n before r
Outcome-more front bytes old k n before (done (pos zero, msg) u) sum (rest, len, is, read) = (
  bytes ++ rest,
  omega (arith, length-append bytes rest),
  is ∙ ap (λ whole. overlay whole old) (append_assoc front bytes rest),
  read ∙ append_assoc before bytes rest,
)
Outcome-more front bytes old k n before (done (pos (suc _), msg) u) sum h = h
Outcome-more front bytes old k n before (done (negsuc _, msg) u) sum h = h
Outcome-more front bytes old k n before (exited u) sum h = h
Outcome-more front bytes old k n before (fault u) sum h = h
Outcome-more front bytes old k n before (out_of_fuel u) sum h = h

module _ (os : Os) (fd : ℤ) (at_most : ReadsAtMost os) where
  -- One round, with the induction hypothesis as a function of the bytes that the round adds.
  round-Outcome :
      (fuel n : ℕ) (front : List ℕ) (old : Pipemsg) (t : Trace) (got : Option (List ℕ))
      → 0 < n
      → length front + n ≤ length old
      → os.read t fd n ≡ got
      → ((u : Trace)
          → Outcome front old n (bytes_read u) (
              body_loop os fuel fd
                (overlay front old)
                (pos (length front))
                (pos (length front + n))
                u))
      → ((bytes : List ℕ) (k : ℕ) (u : Trace)
          → 0 < k
          → length bytes + k ≡ n
          → Outcome (front ++ bytes) old k (bytes_read u) (
              body_loop os fuel fd
                (overlay (front ++ bytes) old)
                (pos (length (front ++ bytes)))
                (pos (length (front ++ bytes) + k))
                u))
      → Outcome front old n (bytes_read t) (
          body_loop os
            (suc fuel)
            fd
            (overlay front old)
            (pos (length front))
            (pos (length front + n))
            t)
  unfolding bytes_read
  round-Outcome fuel n front old t none some_left fits got same next =
      let inside : length front ≤ length (overlay front old) =
        omega (arith, length-overlay front old) in
      elim (Bool-cases (is_eagain (os.errno (did_read fd n none ∷ t)))) [
        | inl once_more ↦
            rw
              (body_loop-again os fd fuel (length front) n (overlay front old) t some_left inside
                got once_more)
              (same (did_read fd n none ∷ t))
        | inr other ↦
            rw
              (body_loop-error os fd fuel (length front) n (overlay front old) t some_left inside
                got other)
              (length-overlay front old (omega arith))
      ]
  round-Outcome fuel n front old t (some []) some_left fits got same next =
      rw
        (body_loop-eof os fd fuel (length front) n (overlay front old) t some_left
          (omega (arith, length-overlay front old)) got)
        (length-overlay front old (omega arith))
  round-Outcome fuel n front old t (some (b ∷ bs)) some_left fits got same next =
      elim (dec_lt (length (b ∷ bs)) n) [
        | yes more ↦
            let k = n - length (b ∷ bs) in
            rw
              (body_loop-more os fd fuel k n front (b ∷ bs) old t (omega arith) (omega arith)
                (omega arith) fits got)
              (Outcome-more front (b ∷ bs) old k n (bytes_read t) _ (omega arith)
                (next (b ∷ bs) k (did_read fd n (some (b ∷ bs)) ∷ t) (omega arith) (omega arith)))
        | no whole ↦
            let all : length (b ∷ bs) ≡ n = omega (arith, at_most t fd n (b ∷ bs) got) in
            rw (body_loop-last os fd fuel n front (b ∷ bs) old t (omega arith) all fits got)
              (b ∷ bs, all, refl, refl)
      ]

  body_loop-Outcome :
      (fuel n : ℕ) (front : List ℕ) (old : Pipemsg) (t : Trace)
      → 0 < n
      → length front + n ≤ length old
      → Outcome front old n
          (bytes_read t)
          (body_loop os fuel fd (overlay front old) (pos (length front)) (pos (length front + n)) t)
  unfolding body_loop
  body_loop-Outcome zero n front old t some_left fits = tt
  body_loop-Outcome (suc fuel) n front old t some_left fits =
      round-Outcome fuel n front old t (os.read t fd n) some_left fits refl
        (λ u. body_loop-Outcome fuel n front old u some_left fits)
        (λ bytes k u more sum.
          body_loop-Outcome fuel k (front ++ bytes) old u more
            (omega (arith, length-append front bytes)))

  -- If the system delivers no more than is asked for, the size is read whole and lies in 0..4092,
  -- then whatever else it answers `readpipemsg_nb` stores nothing outside the message; where it
  -- returns 0, it has read exactly the size field and that many bytes, and they stand at the start
  -- of the message, whose other bytes are as they were; where it returns -1, the message has kept
  -- its length.
  pub readpipemsg_nb-Outcome :
      (fuel n : ℕ) (header : List ℕ) (msg : Pipemsg) (t : Trace)
      → length msg ≡ 4096
      → length header ≡ 4
      → os.read t fd 4 ≡ some header
      → msgsz (overlay header msg) ≡ pos n
      → n ≤ sizeof_msgbuf
      → Outcome [] msg (4 + n) (bytes_read t) (readpipemsg_nb os fuel fd msg t)
  unfolding bytes_read
  readpipemsg_nb-Outcome fuel zero header msg t room four got size small =
      rw
        (
          readpipemsg-header os fd fuel header msg t four (omega arith) got,
          after_header-zero os fd fuel (pos (length header)) (overlay header msg) _ size,
        )
        (header, omega arith, refl, refl)
  readpipemsg_nb-Outcome fuel (suc n) header msg t room four got size small =
      rw
        (
          readpipemsg-header os fd fuel header msg t four (omega arith) got,
          after_header-body os fd fuel (length header) (suc n) (overlay header msg) _ (omega arith)
              size,
        )
        (Outcome-more [] header msg (suc n) (4 + suc n) (bytes_read t) _ (omega arith) (
          body_loop-Outcome fuel (suc n) header msg (did_read fd 4 (some header) ∷ t) (omega arith)
            (omega arith)))
