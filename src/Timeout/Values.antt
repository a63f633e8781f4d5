-- ===== src/Timeout/Values.antt =====
-- The timevals that the code makes.
use fifo.Prelude.{ℕ, ◌+◌, ◌*◌, ◌<◌, ◌≡◌, refl, true, false, arith}
use fifo.Prelude.Int.{pos, negsuc, pos_part}
use fifo.Timeout.{timeval_of}
use fifo.Timeout.Select.{is_infinite}

-- A timeout of `ms` milliseconds becomes a timeval of exactly that length, with microseconds below a
-- million, so that `select` accepts it.
pub timeval_of-pos :
    (ms : ℕ)
    → (pos_part ((timeval_of (pos ms)).tv_sec) * 1_000_000 + (timeval_of (pos ms)).tv_usec
        ≡ ms * 1000)
      × ((timeval_of (pos ms)).tv_usec < 1_000_000)
      × (is_infinite (timeval_of (pos ms)) ≡ false)
unfolding timeval_of
timeval_of-pos ms = (omega arith, omega arith, ground arith)

pub timeval_of-negsuc : (n : ℕ) → is_infinite (timeval_of (negsuc n)) ≡ true
unfolding timeval_of
timeval_of-negsuc n = refl
