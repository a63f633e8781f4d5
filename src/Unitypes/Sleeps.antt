-- ===== src/Unitypes/Sleeps.antt =====
-- The sleeps of src/unitypes.h last as long as they are asked to.
use fifo.Prelude.{ℕ, ◌+◌, ◌*◌, ◌<◌, ◌≡◌, refl, some, arith}
use fifo.Prelude.Signs.{some-ltb}
use fifo.Prelude.Int.{pos}
use fifo.Unitypes.{Timespec, sleep_msec, sleep_usec}

-- the nanoseconds of a timespec
abbrev pub nanoseconds : Timespec → ℕ
nanoseconds ts = ts.tv_sec * 1_000_000_000 + ts.tv_nsec

-- A some-ltb number of milliseconds or of microseconds becomes a timespec of exactly that length,
-- with nanoseconds below a billion, so that `nanosleep` accepts it.
pub sleep_msec-sleep_usec :
    (n : ℕ)
    → 0 < n
    → ((ts : Timespec) × (sleep_msec (pos n) ≡ some ts)
        × (nanoseconds ts ≡ n * 1_000_000)
        × (ts.tv_nsec < 1_000_000_000))
      × ((ts : Timespec) × (sleep_usec (pos n) ≡ some ts)
          × (nanoseconds ts ≡ n * 1000)
          × (ts.tv_nsec < 1_000_000_000))
unfolding sleep_msec sleep_usec
sleep_msec-sleep_usec n h =
    rw (some-ltb n h) ((_, refl, omega arith, omega arith), (_, refl, omega arith, omega arith))
