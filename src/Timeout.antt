-- ===== src/Timeout.antt =====
-- Timeouts of src/fifo.c: milliseconds turned into a `struct timeval`, and the wait for a descriptor
-- that the worker, the server and the client have in common.
pub mod Select
pub mod Values
use fifo.Prelude.{◌*◌, ◌/◌, ◌%◌, none, some, if◌then◌else◌}
use fifo.Prelude.Int.{ℤ, pos, negsuc, minus_one, ltb_ℤ}
use fifo.Os.{Os, Timeval, Cmd, pure, ◌>>=◌, select}

-- FIFO_TIME_INFINITE
abbrev pub time_infinite : ℤ
time_infinite = minus_one

-- The timeval of zeroed memory, after the assignments of `fifo_server_new` and `fifo_client_new`.
unfoldable pub timeval_of : ℤ → Timeval
timeval_of (pos ms) = record { tv_sec = pos (ms / 1000); tv_usec = ms % 1000 * 1000 }
timeval_of (negsuc n) = record { tv_sec = time_infinite; tv_usec = 0 }

-- `select` on one descriptor: without a timeout if `tv_sec` is negative, and otherwise with the
-- struct itself, in which the system leaves what remains.
unfoldable pub select_readable : Os → ℤ → Timeval → Cmd (ℤ × Timeval)
select_readable os fd timeout =
    if ltb_ℤ timeout.tv_sec (pos 0)
    then (do (rc, _) ← select os fd none; pure (rc, timeout))
    else select os fd (some timeout)
