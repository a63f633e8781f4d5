-- ===== src/Os.antt =====
-- The operating system as src/fifo.c sees it. A run of the code is a sequence of calls; every call
-- stands in the trace with its answer, newest first. What the system answers is the parameter `Os`:
-- any function of the calls made so far, so that a theorem for all `Os` holds whatever other threads
-- and processes do in between. `printf` and `strerror` have no part in the state and are left out.
pub mod Balance
use fifo.Prelude.{ℕ, Option, List, ◌∷◌, ◌==◌, if◌then◌else◌}
use fifo.Prelude.Int.{ℤ}
use fifo.Effect
pub use fifo.Effect.{done, exited, fault, out_of_fuel, pure, and_then, ◌>>=◌, ◌>>◌, log}

-- a C string: its bytes, without the NUL
abbrev pub FilePath : Type 0
FilePath = List ℕ

-- the values of `errno` that the code tells apart
pub data Errno : Type 0 where
  eexist eagain other_errno : Errno

-- O_NONBLOCK|O_RDWR and O_WRONLY
pub data Flags : Type 0 where
  nonblock_rdwr wronly : Flags

-- `struct timeval`
pub record Timeval : Type 0 where
  pub tv_sec : ℤ
  pub tv_usec : ℕ

pub data Event : Type 0 where
  -- the address and the size of a block
  allocated : ℕ → ℕ → Event
  freed : ℕ → Event
  -- the old address, the new one and its size
  reallocated : ℕ → ℕ → ℕ → Event
  made_fifo : FilePath → ℤ → Event
  opened : FilePath → Flags → ℤ → Event
  closed : ℤ → Event
  unlinked : FilePath → Event
  -- descriptor, bytes asked for, bytes delivered (`none` for -1)
  did_read : ℤ → ℕ → Option (List ℕ) → Event
  -- descriptor, bytes handed over, result
  did_write : ℤ → List ℕ → ℤ → Event
  -- descriptor, timeout (`none` for NULL), result
  did_select : ℤ → Option Timeval → ℤ → Event
  -- the two descriptors of the instance, result
  created : ℤ → ℤ → ℤ → Event
  -- request and reply as the callback left it
  called_back : List ℕ → List ℕ → Event
  -- the answer of the server loop's callback
  asked_loop : ℤ → Event

abbrev pub Trace : Type 0
Trace = List Event

pub record Os : Type 0 where
  -- 0 is NULL
  pub calloc : Trace → ℕ
  pub malloc : Trace → ℕ
  pub realloc : Trace → ℕ → ℕ
  pub errno : Trace → Errno
  pub mkfifo : Trace → FilePath → ℤ
  pub open_file : Trace → FilePath → Flags → ℤ
  -- `none` is -1, and `some []` is 0, the end of the file
  pub read : Trace → ℤ → ℕ → Option (List ℕ)
  pub write : Trace → ℤ → List ℕ → ℤ
  -- the result, and what is left of the timeout
  pub select : Trace → ℤ → Option Timeval → ℤ × Timeval
  pub pthread_create : Trace → ℤ
  pub getpid : Trace → ℕ

-- the runs and the commands of this system
abbrev pub Run : Type 0 → Type 0
Run A = Effect.Run Event A

abbrev pub Cmd : Type 0 → Type 0
Cmd A = Effect.Cmd Event A

abbrev pub close : ℤ → Cmd (Unit {0})
close fd = log (closed fd)

abbrev pub unlink : FilePath → Cmd (Unit {0})
unlink path = log (unlinked path)

-- memapi.h: no operation at NULL
unfoldable pub mem_free : ℕ → Cmd (Unit {0})
mem_free ptr = if ptr == 0 then pure tt else log (freed ptr)

module _ (os : Os) where
  -- memapi.h: zeroed memory, or `memapi_oom_check` ends the process
  unfoldable pub mem_alloc_zero : ℕ → Cmd ℕ
  mem_alloc_zero size t =
      if os.calloc t == 0 then exited t else done (os.calloc t) (allocated (os.calloc t) size ∷ t)

  abbrev pub mkfifo : FilePath → Cmd ℤ
  mkfifo path t = done (os.mkfifo t path) (made_fifo path (os.mkfifo t path) ∷ t)

  abbrev pub errno : Cmd Errno
  errno t = done (os.errno t) t

  abbrev pub open_file : FilePath → Flags → Cmd ℤ
  open_file path flags t =
      done (os.open_file t path flags) (opened path flags (os.open_file t path flags) ∷ t)

  abbrev pub read : ℤ → ℕ → Cmd (Option (List ℕ))
  read fd n t = done (os.read t fd n) (did_read fd n (os.read t fd n) ∷ t)

  abbrev pub write : ℤ → List ℕ → Cmd ℤ
  write fd bytes t = done (os.write t fd bytes) (did_write fd bytes (os.write t fd bytes) ∷ t)

  abbrev pub select : ℤ → Option Timeval → Cmd (ℤ × Timeval)
  select fd timeout t =
      done (os.select t fd timeout) (did_select fd timeout (os.select t fd timeout).0 ∷ t)

  abbrev pub pthread_create : ℤ → ℤ → Cmd ℤ
  pthread_create requestfd replyfd t =
      done (os.pthread_create t) (created requestfd replyfd (os.pthread_create t) ∷ t)

  abbrev pub getpid : Cmd ℕ
  getpid t = done (os.getpid t) t
