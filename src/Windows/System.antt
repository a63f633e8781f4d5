-- ===== src/Windows/System.antt =====
-- The calls of Windows that src/fifo-win.c makes, as a parameter of the model: what the system
-- answers is any function of the calls made so far.
use fifo.Prelude.{ℕ, Bool, List, ◌∷◌, ◌==◌, if◌then◌else◌}
use fifo.Prelude.Int.{ℤ, minus_one}
use fifo.Effect
use fifo.Effect.{done, exited, pure, log}
use fifo.Os.{FilePath}

-- the values of `GetLastError` that the client and the instances tell apart
pub data LastError : Type 0 where
  pipe_busy more_data io_pending pipe_connected other_error : LastError

-- What an operation of an instance ended with: the error and the number of bytes, and for a read the
-- message that the system has filled.
pub data Completion : Type 0 where
  write_ended : ℕ → ℕ → Completion
  read_ended : ℕ → ℕ → List ℕ → Completion

-- The answers of `WaitForSingleObjectEx`: WAIT_TIMEOUT, WAIT_IO_COMPLETION with the instances whose
-- routines the system runs meanwhile, 0, and any other.
pub data Wait : Type 0 where
  timed_out : Wait
  io_completion : List (ℕ × Completion) → Wait
  signalled : Wait
  wait_failed : Wait

-- A HANDLE is an integer; INVALID_HANDLE_VALUE is -1.
abbrev pub invalid_handle : ℤ
invalid_handle = minus_one

pub data Event : Type 0 where
  allocated : ℕ → ℕ → Event
  freed : ℕ → Event
  -- CreateFile, and its result
  opened : FilePath → ℤ → Event
  -- WaitNamedPipeA, the timeout in milliseconds (-1 for NMPWAIT_WAIT_FOREVER), its result
  waited_for_pipe : FilePath → ℤ → Bool → Event
  set_read_mode : ℤ → Bool → Event
  closed_handle : ℤ → Event
  disconnected : ℤ → Bool → Event
  -- ReadFileEx and WriteFileEx start an operation; the bytes handed over, the result
  read_started : ℤ → Bool → Event
  write_started : ℤ → List ℕ → Bool → Event
  -- WriteFile, the result with the number of bytes written
  wrote_file : ℤ → List ℕ → Bool → ℕ → Event
  -- ReadFile, the bytes asked for, the result with the bytes stored
  read_file_done : ℤ → ℕ → Bool → List ℕ → Event
  peeked : ℤ → Bool → Event
  slept : ℕ → Event
  global_freed : ℕ → Event
  called_back : List ℕ → List ℕ → Event
  created_event : ℤ → Event
  -- CreateNamedPipeA with its name and the timeout of the clients, the result
  created_pipe : FilePath → ℤ → ℤ → Event
  connected : ℤ → Bool → Event
  event_set : ℤ → Bool → Event
  waited : ℤ → Event
  got_result : ℤ → Bool → Event
  global_allocated : ℕ → Event
  asked_loop : ℤ → Event

abbrev pub Trace : Type 0
Trace = List Event

abbrev pub Run : Type 0 → Type 0
Run A = Effect.Run Event A

abbrev pub Cmd : Type 0 → Type 0
Cmd A = Effect.Cmd Event A

pub record System : Type 0 where
  pub calloc : Trace → ℕ
  pub global_alloc : Trace → ℕ
  pub create_event : Trace → ℤ
  pub create_named_pipe : Trace → FilePath → ℤ → ℤ
  pub connect_named_pipe : Trace → ℤ → Bool
  pub set_event : Trace → ℤ → Bool
  pub wait_ex : Trace → ℤ → Wait
  pub overlapped_result : Trace → ℤ → Bool
  pub last_error : Trace → LastError
  pub create_file : Trace → FilePath → ℤ
  pub wait_named_pipe : Trace → FilePath → ℤ → Bool
  pub set_pipe_state : Trace → ℤ → Bool
  pub disconnect : Trace → ℤ → Bool
  pub read_file_ex : Trace → ℤ → Bool
  pub write_file_ex : Trace → ℤ → List ℕ → Bool
  pub write_file : Trace → ℤ → List ℕ → Bool × ℕ
  pub read_file : Trace → ℤ → ℕ → Bool × List ℕ
  pub peek_named_pipe : Trace → ℤ → Bool

abbrev pub close_handle : ℤ → Cmd (Unit {0})
close_handle h = log (closed_handle h)

abbrev pub global_free : ℕ → Cmd (Unit {0})
global_free p = log (global_freed p)

abbrev pub sleep : ℕ → Cmd (Unit {0})
sleep ms = log (slept ms)

-- memapi.h
unfoldable pub mem_free : ℕ → Cmd (Unit {0})
mem_free ptr = if ptr == 0 then pure tt else log (freed ptr)

module _ (sys : System) where
  unfoldable pub mem_alloc_zero : ℕ → Cmd ℕ
  mem_alloc_zero size t =
      if sys.calloc t == 0
      then exited t
      else done (sys.calloc t) (allocated (sys.calloc t) size ∷ t)

  abbrev pub last_error : Cmd LastError
  last_error t = done (sys.last_error t) t

  abbrev pub create_file : FilePath → Cmd ℤ
  create_file path t = done (sys.create_file t path) (opened path (sys.create_file t path) ∷ t)

  abbrev pub wait_named_pipe : FilePath → ℤ → Cmd Bool
  wait_named_pipe path timeout t =
      done (sys.wait_named_pipe t path timeout)
        (waited_for_pipe path timeout (sys.wait_named_pipe t path timeout) ∷ t)

  abbrev pub set_pipe_state : ℤ → Cmd Bool
  set_pipe_state h t = done (sys.set_pipe_state t h) (set_read_mode h (sys.set_pipe_state t h) ∷ t)

  abbrev pub disconnect : ℤ → Cmd Bool
  disconnect h t = done (sys.disconnect t h) (disconnected h (sys.disconnect t h) ∷ t)

  abbrev pub read_file_ex : ℤ → Cmd Bool
  read_file_ex h t = done (sys.read_file_ex t h) (read_started h (sys.read_file_ex t h) ∷ t)

  abbrev pub write_file_ex : ℤ → List ℕ → Cmd Bool
  write_file_ex h bytes t =
      done (sys.write_file_ex t h bytes) (write_started h bytes (sys.write_file_ex t h bytes) ∷ t)

  abbrev pub write_file : ℤ → List ℕ → Cmd (Bool × ℕ)
  write_file h bytes t = let r = sys.write_file t h bytes in done r (wrote_file h bytes r.0 r.1 ∷ t)

  abbrev pub read_file : ℤ → ℕ → Cmd (Bool × List ℕ)
  read_file h n t = let r = sys.read_file t h n in done r (read_file_done h n r.0 r.1 ∷ t)

  abbrev pub peek_named_pipe : ℤ → Cmd Bool
  peek_named_pipe h t = done (sys.peek_named_pipe t h) (peeked h (sys.peek_named_pipe t h) ∷ t)

  abbrev pub global_alloc : Cmd ℕ
  global_alloc t = done (sys.global_alloc t) (global_allocated (sys.global_alloc t) ∷ t)

  abbrev pub create_event : Cmd ℤ
  create_event t = done (sys.create_event t) (created_event (sys.create_event t) ∷ t)

  abbrev pub create_named_pipe : FilePath → ℤ → Cmd ℤ
  create_named_pipe path timeout t =
      let h = sys.create_named_pipe t path timeout in done h (created_pipe path timeout h ∷ t)

  abbrev pub connect_named_pipe : ℤ → Cmd Bool
  connect_named_pipe h t =
      done (sys.connect_named_pipe t h) (connected h (sys.connect_named_pipe t h) ∷ t)

  abbrev pub set_event : ℤ → Cmd Bool
  set_event h t = done (sys.set_event t h) (event_set h (sys.set_event t h) ∷ t)

  -- on the event `h`, in milliseconds
  abbrev pub wait_ex : ℤ → ℤ → Cmd Wait
  wait_ex h timeout t = done (sys.wait_ex t timeout) (waited h ∷ t)

  abbrev pub overlapped_result : ℤ → Cmd Bool
  overlapped_result h t =
      done (sys.overlapped_result t h) (got_result h (sys.overlapped_result t h) ∷ t)
