-- ===== src/Syslog/Logger.antt =====
-- The state of the syslog client, which src/syslog-win32/syslog-client.c keeps in static variables,
-- and the functions that find the logger's address.
pub mod Split
pub mod Host
use fifo.Prelude.{
  ℕ, suc, ◌%◌, ◌^◌, ◌||◌, Bool, true, false, Option, none, some, List, [], ◌∷◌, ◌++◌, take, ltb,
  ◌==◌, if◌then◌else◌,
}
use fifo.Prelude.Int.{ℤ, pos}
use fifo.Effect.{fault, pure, ◌>>=◌}
use fifo.Os.{FilePath}
use fifo.CString.{codes, strcat}
use fifo.Syslog.System.{System, Address, Cmd, config_line, gethostbyname}

-- SYSLOG_DGRAM_SIZE, MAX_IDENT_LENGTH, MAX_APP_NAME_LENGTH, SYSLOG_PORT, FILENAME_MAX
abbrev pub dgram_size : ℕ
dgram_size = 8192

abbrev pub max_ident_length : ℕ
max_ident_length = 128

abbrev pub max_app_name_length : ℕ
max_app_name_length = 48

abbrev pub syslog_port : ℕ
syslog_port = 514

abbrev pub filename_max : ℕ
filename_max = 260

pub record Logger : Type 0 where
  pub conf_dir : FilePath
  pub initialized : Bool
  pub log_mask : ℕ
  -- the bytes of the array in front of a NUL, all of it where there is none
  pub ident : List ℕ
  pub facility : ℕ
  pub str_pid : List ℕ
  pub address : Address
  pub sock : ℤ
  pub hostname : List ℕ
  pub datagramm_size : ℤ
  pub app_name : List ℕ
  pub mid : ℕ

abbrev no_address : Address
no_address = record { host = 0 ∷ 0 ∷ 0 ∷ 0 ∷ []; port = 0 }

-- the static variables at the start of the program
abbrev pub start : Logger
start = record {
  conf_dir = codes ".";
  initialized = false;
  log_mask = 255;
  ident = [];
  facility = 0;
  str_pid = [];
  address = no_address;
  sock = pos 0;
  hostname = [];
  datagramm_size = pos 0;
  app_name = [];
  mid = 0;
}

-- the result is the directory of before
unfoldable pub set_syslog_conf_dir : FilePath → Logger → FilePath × Logger
set_syslog_conf_dir dir st = (st.conf_dir, record st { conf_dir = dir })

-- `'\\' == c || '/' == c`
abbrev pub is_slash : ℕ → Bool
is_slash c = (92 == c) || (47 == c)

-- The position behind the last byte `c`, 0 where there is none: `strrchr( s, c ) + 1`.
unfoldable pub behind_last : ℕ → List ℕ → ℕ
behind_last c [] = 0
behind_last c (b ∷ bs) =
    let rest = behind_last c bs in if rest == 0 then (if b == c then 1 else 0) else suc rest

-- The string up to its first byte `c`, and what stands behind that, if there is one: `strchr`, with
-- the byte overwritten by a NUL.
unfoldable pub split_at : ℕ → List ℕ → List ℕ × Option (List ℕ)
split_at c [] = ([], none)
split_at c (b ∷ bs) =
    let rest = split_at c bs in if b == c then ([], some bs) else (b ∷ rest.0, rest.1)

-- The test for an absolute path; `none` where it reads behind the end of the name.
unfoldable pub is_absolute : FilePath → Option Bool
is_absolute [] = none
is_absolute (a ∷ []) = some (is_slash a)
is_absolute (a ∷ b ∷ rest) = some (is_slash a || (b == 58))

-- the directory part of the program's name
unfoldable pub program_dir : FilePath → FilePath
unfolding behind_last
program_dir path =
    let p = behind_last 92 path in
    let q = behind_last 47 path in
    if ltb p q then take q path else if ltb q p then take p path else []

unfoldable pub ends_in_slash : FilePath → Bool
ends_in_slash [] = false
ends_in_slash (b ∷ []) = is_slash b
ends_in_slash (b ∷ c ∷ bs) = ends_in_slash (c ∷ bs)

abbrev joined : Option FilePath → Option FilePath
joined none = none
joined (some dir) =
    strcat filename_max (if ends_in_slash dir then dir else dir ++ 47 ∷ []) (codes "syslog.host")

-- the path of the configuration file; `none` where the code leaves a string
unfoldable pub config_path : FilePath → FilePath → Option FilePath
unfolding ends_in_slash is_absolute program_dir
config_path program dir = elim (is_absolute dir) [
  | none ↦ none
  | some true ↦ joined (strcat filename_max [] dir)
  | some false ↦ elim (strcat filename_max [] program) [
    | none ↦ none
    | some path ↦ joined (strcat filename_max (program_dir path) dir)
  ]
]

-- localhost:514
abbrev pub default_address : Address
default_address = record { host = 127 ∷ 0 ∷ 0 ∷ 1 ∷ []; port = syslog_port }

-- the host and the port of the file's line
unfoldable pub parse_line : List ℕ → List ℕ × Option (List ℕ)
unfolding split_at
parse_line line = split_at 58 (split_at 13 (split_at 10 line).0).0

abbrev configured_port : System → Option (List ℕ) → ℕ
configured_port sys none = syslog_port
configured_port sys (some digits) = sys.strtoul digits % 2 ^ 16

abbrev with_host : System → Option (List ℕ) → Option (List ℕ) → Address
with_host sys digits none = default_address
with_host sys digits (some host) = record { host = host; port = configured_port sys digits }

module _ (sys : System) where
  unfoldable pub read_address : Option (List ℕ) → Cmd Address
  unfolding parse_line
  read_address none = pure default_address
  read_address (some line) = do
    host ← gethostbyname sys (parse_line line).0
    pure (with_host sys (parse_line line).1 host)

  -- `fgets` into 256 bytes
  abbrev first_line : Option (List ℕ) → Option (List ℕ)
  first_line none = none
  first_line (some line) = some (take 255 line)

  abbrev config_at : Option FilePath → Cmd Address
  config_at none = fault
  config_at (some path) = do line ← config_line sys path; read_address (first_line line)

  unfoldable pub init_logger_addr : Logger → Cmd Logger
  unfolding config_path read_address
  init_logger_addr st = do
    address ← config_at (config_path sys.program st.conf_dir)
    pure (record st { address = address })

  abbrev resolved_to : Logger → ℕ → Option (List ℕ) → Logger
  resolved_to st port none = st
  resolved_to st port (some host) = record st {
    address = record { host = host; port = port % 2 ^ 16 };
  }

  unfoldable pub set_syslog_host : List ℕ → ℕ → Logger → Cmd Logger
  set_syslog_host name port st = do host ← gethostbyname sys name; pure (resolved_to st port host)
