-- ===== src/Reader/Rounds.antt =====
-- One round of the second loop of `readpipemsg_nb`, at an offset inside the message.
use fifo.Prelude.{
  ℕ, suc, ◌+◌, ◌≤◌, ◌<◌, ◌≡◌, none, some, List, [], ◌∷◌, ◌++◌, length, le→leb, take-append-drop,
  ◌==◌, arith, length-append, true, false, add-zero,
}
use fifo.Prelude.Signs.{some-ltb}
use fifo.Prelude.Int.{ℤ, pos, minus_one, ◌+ℤ◌, ◌-ℤ◌, pos_part, ltb_ℤ}
use fifo.Os.{Os, Trace, done, did_read}
use fifo.Message.{Pipemsg, store_bytes}
use fifo.Message.Store.{overlay, store_bytes-overlay}
use fifo.Reader.{read_into, body_loop, is_eagain}

pub left-ltb : (k n : ℕ) → 0 < n → ltb_ℤ (pos k) (pos (k + n)) ≡ true
left-ltb k n h = ground arith

none-ltb : (k n : ℕ) → n ≤ k → ltb_ℤ (pos k) (pos n) ≡ false
none-ltb k n h = ground arith

pub left-sub : (k n : ℕ) → pos_part (pos (k + n) -ℤ pos k) ≡ n
left-sub k n = ground arith

pub add-pos : (k m : ℕ) → pos k +ℤ pos m ≡ pos (k + m)
add-pos k m = ground arith

short-eqb : (k m n : ℕ) → m < n → ((k + m) == (k + n)) ≡ false
short-eqb k m n h = ground arith

full-eqb : (k m n : ℕ) → m ≡ n → ((k + m) == (k + n)) ≡ true
full-eqb k m n h = ground arith

store_bytes-nil : (k : ℕ) (msg : Pipemsg) → k ≤ length msg → store_bytes (pos k) [] msg ≡ some msg
unfolding store_bytes
store_bytes-nil k msg h =
    let fits : k + 0 ≤ length msg = omega arith in
    rw (le→leb (k + 0) (length msg) fits, add-zero k, take-append-drop k msg)

module _ (os : Os) (fd : ℤ) where
  pub read_into-overlay :
      (front bytes : List ℕ) (old : Pipemsg) (n : ℕ) (t : Trace)
      → length front + length bytes ≤ length old
      → os.read t fd n ≡ some bytes
      → read_into os fd (overlay front old) (pos (length front)) n t
        ≡ done (pos (length bytes), overlay (front ++ bytes) old) (did_read fd n (some bytes) ∷ t)
  unfolding read_into
  read_into-overlay front bytes old n t fits got =
      rw (got, store_bytes-overlay front bytes old fits)

  pub read_into-none :
      (k : ℕ) (msg : Pipemsg) (n : ℕ) (t : Trace)
      → k ≤ length msg
      → os.read t fd n ≡ none
      → read_into os fd msg (pos k) n t ≡ done (minus_one, msg) (did_read fd n none ∷ t)
  unfolding read_into
  read_into-none k msg n t h got = rw (got, store_bytes-nil k msg h)

  read_into-eof :
      (k : ℕ) (msg : Pipemsg) (n : ℕ) (t : Trace)
      → k ≤ length msg
      → os.read t fd n ≡ some []
      → read_into os fd msg (pos k) n t ≡ done (pos 0, msg) (did_read fd n (some []) ∷ t)
  unfolding read_into
  read_into-eof k msg n t h got = rw (got, store_bytes-nil k msg h)

  -- EAGAIN: the loop goes on as it was.
  pub body_loop-again :
      (fuel k n : ℕ) (msg : Pipemsg) (t : Trace)
      → 0 < n
      → k ≤ length msg
      → os.read t fd n ≡ none
      → is_eagain (os.errno (did_read fd n none ∷ t)) ≡ true
      → body_loop os (suc fuel) fd msg (pos k) (pos (k + n)) t
        ≡ body_loop os fuel fd msg (pos k) (pos (k + n)) (did_read fd n none ∷ t)
  unfolding body_loop
  body_loop-again fuel k n msg t some_left fits got e =
      rw (left-ltb k n some_left, left-sub k n, read_into-none k msg n t fits got, e)

  -- Some bytes, and more to come.
  pub body_loop-more :
      (fuel k n : ℕ) (front bytes : List ℕ) (old : Pipemsg) (t : Trace)
      → 0 < length bytes
      → 0 < k
      → length bytes + k ≡ n
      → length front + n ≤ length old
      → os.read t fd n ≡ some bytes
      → body_loop os
          (suc fuel)
          fd
          (overlay front old)
          (pos (length front))
          (pos (length front + n))
          t
        ≡ body_loop os fuel fd
            (overlay (front ++ bytes) old)
            (pos (length (front ++ bytes)))
            (pos (length (front ++ bytes) + k))
            (did_read fd n (some bytes) ∷ t)
  unfolding body_loop
  body_loop-more fuel k n front bytes old t nonempty more sum fits got = rw (
    left-ltb (length front) n (omega arith),
    left-sub (length front) n,
    read_into-overlay front bytes old n t (omega arith) got,
    some-ltb (length bytes) nonempty,
    add-pos (length front) (length bytes),
    short-eqb (length front) (length bytes) n (omega arith),
    length-append front bytes,
    regroup,
  )
    where
      regroup : length front + length bytes + k ≡ length front + n
      regroup = omega arith

  -- The last bytes.
  pub body_loop-last :
      (fuel n : ℕ) (front bytes : List ℕ) (old : Pipemsg) (t : Trace)
      → 0 < length bytes
      → length bytes ≡ n
      → length front + n ≤ length old
      → os.read t fd n ≡ some bytes
      → body_loop os
          (suc fuel)
          fd
          (overlay front old)
          (pos (length front))
          (pos (length front + n))
          t
        ≡ done (pos 0, overlay (front ++ bytes) old) (did_read fd n (some bytes) ∷ t)
  unfolding body_loop
  body_loop-last fuel n front bytes old t nonempty all fits got = rw (
    left-ltb (length front) n (omega arith),
    left-sub (length front) n,
    read_into-overlay front bytes old n t (omega arith) got,
    some-ltb (length bytes) nonempty,
    add-pos (length front) (length bytes),
    full-eqb (length front) (length bytes) n all,
  )

  -- The end of the file.
  pub body_loop-eof :
      (fuel k n : ℕ) (msg : Pipemsg) (t : Trace)
      → 0 < n
      → k ≤ length msg
      → os.read t fd n ≡ some []
      → body_loop os (suc fuel) fd msg (pos k) (pos (k + n)) t
        ≡ done (minus_one, msg) (did_read fd n (some []) ∷ t)
  unfolding body_loop
  body_loop-eof fuel k n msg t some_left fits got =
      rw (left-ltb k n some_left, left-sub k n, read_into-eof k msg n t fits got)

  -- Any error but EAGAIN.
  pub body_loop-error :
      (fuel k n : ℕ) (msg : Pipemsg) (t : Trace)
      → 0 < n
      → k ≤ length msg
      → os.read t fd n ≡ none
      → is_eagain (os.errno (did_read fd n none ∷ t)) ≡ false
      → body_loop os (suc fuel) fd msg (pos k) (pos (k + n)) t
        ≡ done (minus_one, msg) (did_read fd n none ∷ t)
  unfolding body_loop
  body_loop-error fuel k n msg t some_left fits got e =
      rw (left-ltb k n some_left, left-sub k n, read_into-none k msg n t fits got, e)

  pub body_loop-nothing :
      (fuel k n : ℕ) (msg : Pipemsg) (t : Trace)
      → n ≤ k
      → body_loop os (suc fuel) fd msg (pos k) (pos n) t ≡ done (minus_one, msg) t
  unfolding body_loop
  body_loop-nothing fuel k n msg t none_left = rw (none-ltb k n none_left)
