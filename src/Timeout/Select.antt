-- ===== src/Timeout/Select.antt =====
-- What one wait for a descriptor does.
use fifo.Prelude.{◌≡◌, Bool, Bool-cases, inl, inr, ◌∷◌, Option, none, some, if◌then◌else◌}
use fifo.Prelude.Int.{ℤ, pos, ltb_ℤ}
use fifo.Os.{Os, Timeval, Trace, did_select, done}
use fifo.Timeout.{select_readable}

abbrev pub is_infinite : Timeval → Bool
is_infinite timeout = ltb_ℤ timeout.tv_sec (pos 0)

-- the timeout that `select` is given
abbrev pub asked : Timeval → Option Timeval
asked timeout = if is_infinite timeout then none else some timeout

module _ (os : Os) (fd : ℤ) (timeout : Timeval) (t : Trace) where
  abbrev pub answer : ℤ × Timeval
  answer = os.select t fd (asked timeout)

  -- the timeout behind the call
  abbrev pub left : Timeval
  left = if is_infinite timeout then timeout else answer.1

  abbrev pub behind : Trace
  behind = did_select fd (asked timeout) answer.0 ∷ t

  pub select_readable_lem : select_readable os fd timeout t ≡ done (answer.0, left) behind
  unfolding select_readable
  select_readable_lem = elim (Bool-cases (is_infinite timeout)) [
    | inl forever ↦ rw (forever, answer)
    | inr bounded ↦ rw (bounded, answer)
  ]
