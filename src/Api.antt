-- ===== src/Api.antt =====
-- The constants of src/fifo.h and src/fifo.c, and the tests that its functions share.
use fifo.Prelude.{ℕ, ◌&&◌, not, Bool, true, false, Option, none, some, List}
use fifo.Prelude.Int.{ℤ, pos, negsuc, minus_one, ltb_ℤ, eqb_ℤ}
use fifo.Os.{Os, Errno, eexist, FilePath, Cmd, pure, ◌>>=◌, mkfifo, errno}
use fifo.CString.{codes}

-- FIFO_S_OK, FIFO_E_FAILED, FIFO_E_BADARG, FIFO_E_TIMEOUT
abbrev pub fifo_s_ok : ℤ
fifo_s_ok = pos 0

abbrev pub fifo_e_failed : ℤ
fifo_e_failed = minus_one

abbrev pub fifo_e_badarg : ℤ
fifo_e_badarg = negsuc 1

abbrev pub fifo_e_timeout : ℤ
fifo_e_timeout = negsuc 2

-- FIFO_TIMEOUT and FIFO_CONNECT_TIMEOUT, in milliseconds
abbrev pub fifo_timeout : ℤ
fifo_timeout = pos 6000

abbrev pub fifo_connect_timeout : ℤ
fifo_connect_timeout = fifo_timeout

abbrev pub fifo_namelen_max : ℕ
fifo_namelen_max = 255

-- FIFO_NAME_LINUX_DEFAULT
abbrev pub default_name : FilePath
default_name = codes "/tmp/namedpipe-default"

-- "-read"
abbrev pub read_suffix : List ℕ
read_suffix = codes "-read"

-- `pathname ? pathname : FIFO_NAME_LINUX_DEFAULT`
abbrev pub pipename_or_default : Option FilePath → FilePath
pipename_or_default none = default_name
pipename_or_default (some path) = path

abbrev pub is_eexist : Errno → Bool
is_eexist eexist = true
is_eexist _ = false

-- `mkfifo(path, FIFO_FILE_MODE) < 0 && errno != EEXIST`
unfoldable pub mkfifo_failed : Os → FilePath → Cmd Bool
mkfifo_failed os path = do
  r ← mkfifo os path
  e ← errno os
  pure (ltb_ℤ r (pos 0) && not (is_eexist e))

-- `fd && fd != -1`
abbrev pub is_open : ℤ → Bool
is_open fd = not (eqb_ℤ fd (pos 0)) && not (eqb_ℤ fd minus_one)
