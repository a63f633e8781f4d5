-- ===== src/Unitypes.antt =====
-- The helpers of src/unitypes.h: here the checked `snprintf` and the sleeps.
pub mod Integers
pub mod Checked
pub mod Sleeps
use fifo.Prelude.{
  ℕ, ◌+◌, ◌-◌, ◌*◌, ◌/◌, ◌%◌, ◌^◌, ◌||◌, ◌⊎◌, inl, inr, not, Bool, Option, none, some, List, [],
  ◌∷◌, ◌++◌, length, take, drop, ◌==◌, if◌then◌else◌,
}
use fifo.Prelude.Int.{ℤ, pos, pos_part, ◌-ℤ◌, eqb_ℤ, ltb_ℤ}
use fifo.Message.{signed32, store_bytes}
use fifo.Message.Store.{overlay}

-- `(int)` of a `size_t`
abbrev pub int_of : ℕ → ℤ
int_of n = signed32 (n % 2 ^ 32)

-- `len < 0 || len >= (int)bufsize`
abbrev pub is_truncated : ℤ → ℕ → Bool
is_truncated len bufsize = ltb_ℤ len (pos 0) || not (ltb_ℤ len (int_of bufsize))

abbrev pub with_length : ℤ → Option (List ℕ) → Option (ℤ × List ℕ)
with_length len none = none
with_length len (some buf) = some (len, buf)

-- What follows the `vsnprintf`, which has returned `len` and left `buf`; `none` where the NUL is stored
-- outside the buffer.
unfoldable pub snprintf_chkd_v1 : ℕ → ℤ × List ℕ → Option (ℤ × List ℕ)
snprintf_chkd_v1 bufsize (len, buf) =
    let last = int_of bufsize -ℤ pos 1 in
    if is_truncated len bufsize
    then with_length last (store_bytes last (0 ∷ []) buf)
    else some (len, buf)

abbrev pub exit_with : ℤ → Option (ℤ × List ℕ) → Option (ℤ ⊎ (ℤ × List ℕ))
exit_with exitcode none = none
exit_with exitcode (some r) = if eqb_ℤ exitcode (pos 0) then some (inr r) else some (inl exitcode)

-- The same, with `exit(exitcode)` as `inl exitcode`.
unfoldable pub snprintf_chkd_v2 : ℤ → ℕ → ℤ × List ℕ → Option (ℤ ⊎ (ℤ × List ℕ))
unfolding snprintf_chkd_v1
snprintf_chkd_v2 exitcode bufsize (len, buf) =
    if is_truncated len bufsize
    then exit_with exitcode (snprintf_chkd_v1 bufsize (len, buf))
    else some (inr (len, buf))

-- `struct timespec`
pub record Timespec : Type 0 where
  pub tv_sec : ℕ
  pub tv_nsec : ℕ

-- The argument of `nanosleep`; `none` where there is no call.
unfoldable pub sleep_msec : ℤ → Option Timespec
sleep_msec milliseconds =
    if ltb_ℤ (pos 0) milliseconds
    then some (record {
      tv_sec = pos_part milliseconds / 1000;
      tv_nsec = pos_part milliseconds % 1000 * 1_000_000;
    })
    else none

unfoldable pub sleep_usec : ℤ → Option Timespec
sleep_usec us =
    if ltb_ℤ (pos 0) us
    then some
        (record { tv_sec = pos_part us / 1_000_000; tv_nsec = pos_part us % 1_000_000 * 1000 })
    else none
