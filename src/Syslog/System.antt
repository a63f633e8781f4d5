-- ===== src/Syslog/System.antt =====
-- The calls of Windows and Winsock that the syslog client makes, as a parameter: what the system
-- answers is any function of the calls made so far.
use fifo.Prelude.{ℕ, Option, List, ◌∷◌}
use fifo.Prelude.Int.{ℤ, minus_one}
use fifo.Effect
use fifo.Effect.{done}
use fifo.Os.{FilePath}

-- `SYSTEMTIME`
pub record SystemTime : Type 0 where
  pub year : ℕ
  pub month : ℕ
  pub day : ℕ
  pub hour : ℕ
  pub minute : ℕ
  pub second : ℕ
  pub milliseconds : ℕ

-- `SOCKADDR_IN`: the bytes of the address, and the port
pub record Address : Type 0 where
  pub host : List ℕ
  pub port : ℕ

pub data Event : Type 0 where
  wsa_started : ℤ → Event
  wsa_cleaned : Event
  -- the new socket, -1 for INVALID_SOCKET
  socket_made : ℤ → Event
  -- `bind` and its result
  bound : ℤ → ℤ → Event
  socket_closed : ℤ → Event
  slept : Event
  read_config : FilePath → Event
  resolved : List ℕ → Event
  -- `atexit` and its result
  registered : ℤ → Event
  -- the datagram and where it goes
  sent : ℤ → List ℕ → Address → Event

abbrev pub Trace : Type 0
Trace = List Event

abbrev pub Run : Type 0 → Type 0
Run A = Effect.Run Event A

abbrev pub Cmd : Type 0 → Type 0
Cmd A = Effect.Cmd Event A

pub record System : Type 0 where
  pub process_id : Trace → ℕ
  -- `none` for a failure
  pub computer_name : Trace → Option (List ℕ)
  -- the name of the program's file; empty for a failure
  pub module_name : Trace → List ℕ
  -- argv[0]
  pub program : List ℕ
  pub wsa_startup : Trace → ℤ
  pub socket : Trace → ℤ
  pub bind : Trace → ℤ → ℤ
  -- SO_MAX_MSG_SIZE, `none` for a failure
  pub max_msg_size : Trace → ℤ → Option ℤ
  pub at_exit : Trace → ℤ
  -- `none` if the file does not open, and the empty list if there is no line
  pub config_line : Trace → FilePath → Option (List ℕ)
  pub gethostbyname : Trace → List ℕ → Option (List ℕ)
  -- of the C library, in any of its bases
  pub strtoul : List ℕ → ℕ
  pub local_time : Trace → SystemTime

abbrev pub invalid_socket : ℤ
invalid_socket = minus_one

module _ (sys : System) where
  abbrev pub computer_name : Cmd (Option (List ℕ))
  computer_name t = done (sys.computer_name t) t

  abbrev pub module_name : Cmd (List ℕ)
  module_name t = done (sys.module_name t) t

  abbrev pub process_id : Cmd ℕ
  process_id t = done (sys.process_id t) t

  abbrev pub local_time : Cmd SystemTime
  local_time t = done (sys.local_time t) t

  abbrev pub wsa_startup : Cmd ℤ
  wsa_startup t = done (sys.wsa_startup t) (wsa_started (sys.wsa_startup t) ∷ t)

  abbrev pub socket : Cmd ℤ
  socket t = done (sys.socket t) (socket_made (sys.socket t) ∷ t)

  abbrev pub bind : ℤ → Cmd ℤ
  bind s t = done (sys.bind t s) (bound s (sys.bind t s) ∷ t)

  abbrev pub max_msg_size : ℤ → Cmd (Option ℤ)
  max_msg_size s t = done (sys.max_msg_size t s) t

  abbrev pub at_exit : Cmd ℤ
  at_exit t = done (sys.at_exit t) (registered (sys.at_exit t) ∷ t)

  abbrev pub config_line : FilePath → Cmd (Option (List ℕ))
  config_line path t = done (sys.config_line t path) (read_config path ∷ t)

  abbrev pub gethostbyname : List ℕ → Cmd (Option (List ℕ))
  gethostbyname name t = done (sys.gethostbyname t name) (resolved name ∷ t)
