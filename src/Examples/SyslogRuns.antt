-- ===== src/Examples/SyslogRuns.antt =====
-- Runs of the code of src/syslog-win32.
use fifo.Prelude.{◌+◌, List, ◌++◌, ◌%◌, ◌^◌, ◌≡◌, refl, true, none, some, [], ◌∷◌, leb, arith}
use fifo.Syslog.Send.Sequence.{Datagram, Lines}
use fifo.Prelude.Int.{pos, negsuc}
use fifo.Effect.{done, ◌>>=◌}
use fifo.Effect.Ends.{Ends}
use fifo.Effect.Yields.{YieldsRun}
use fifo.CString.{codes, digits}
use fifo.Syslog.Priority.{log_pri, log_upto, is_logged, facility_bits, mask_of, bit_and, bit_or}
use fifo.Syslog.Priority.Masks.{is_logged-log_upto}
use fifo.Syslog.System.{System, SystemTime, read_config, resolved}
use fifo.Syslog.Logger.{Logger, start, config_path, init_logger_addr, set_syslog_host}
use fifo.Syslog.Logger.Host.{host_line, init_logger_addr-host_line, set_syslog_host-lost}
use fifo.Syslog.Connection.{openlog, closelog}
use fifo.Syslog.Connection.Settled.{Opened, AtRest, openlog-Opened}
use fifo.Syslog.Send.{vsyslog, header_of, timestamp_of}
use fifo.Syslog.Send.Unopened.{Closed, vsyslog-unopened}
use fifo.Syslog.Send.Sequence.{
  Message, IsOpen, Fits, sent_of, logged_count, vsyslog_all, AllLines, vsyslog_all-Lines,
}

is_logged-log_upto_example : is_logged 190 (log_upto 4) ≡ leb (log_pri 190) 4
is_logged-log_upto_example = is_logged-log_upto 190 4 (omega arith)

-- Every call succeeds, and the configuration file says h:7.
abbrev noon : SystemTime
noon = record {
  year = 2020;
  month = 1;
  day = 2;
  hour = 12;
  minute = 0;
  second = 0;
  milliseconds = 0;
}

abbrev machine : System
machine = record {
  process_id = λ t. 7;
  computer_name = λ t. some (codes "pc");
  module_name = λ t. codes "c:\\a";
  program = codes "a";
  wsa_startup = λ t. pos 0;
  socket = λ t. pos 3;
  bind = λ t s. pos 0;
  max_msg_size = λ t s. some (pos 1024);
  at_exit = λ t. pos 0;
  config_line = λ t path. some (host_line (codes "h") (codes "7"));
  gethostbyname = λ t name. some (10 ∷ 0 ∷ 0 ∷ 1 ∷ []);
  strtoul = λ digits. 7;
  local_time = λ t. noon;
}

found_at : config_path machine.program start.conf_dir ≡ some (codes "./syslog.host")
unfolding config_path
found_at = refl

init_logger_addr-host_line_example :
    init_logger_addr machine start []
    ≡ done
        (record start { address = record { host = 10 ∷ 0 ∷ 0 ∷ 1 ∷ []; port = 7 % 2 ^ 16 } })
        (resolved (codes "h") ∷ read_config (codes "./syslog.host") ∷ [])
init_logger_addr-host_line_example =
    init_logger_addr-host_line machine (codes "h") (codes "7") (10 ∷ 0 ∷ 0 ∷ 1 ∷ []) start
      (codes "./syslog.host") []
      (record {
        host_newline = (refl, tt);
        host_return = (refl, tt);
        host_colon = (refl, tt);
        digits_newline = (refl, tt);
        digits_return = (refl, tt);
        short = omega arith;
      })
      found_at refl refl

set_syslog_host-lost_example :
    (set_syslog_host machine (codes "h") 9 start >>= init_logger_addr machine) []
    ≡ init_logger_addr machine start (resolved (codes "h") ∷ [])
set_syslog_host-lost_example = set_syslog_host-lost machine (codes "h") 9 start []

-- a closed log whose `sock` holds INVALID_SOCKET
abbrev no_log : Logger
no_log = record start { sock = negsuc 0 }

openlog-Opened_example :
    Ends
      (λ st' u. Opened [] st' u × Ends (AtRest []) (closelog st' u))
      (openlog machine (some (codes "x")) 1 0 no_log [])
openlog-Opened_example =
    openlog-Opened machine (codes "x") 1 0 no_log (codes "./syslog.host") [] refl refl found_at

let_through : is_logged 6 255 ≡ true
unfolding is_logged log_pri mask_of bit_and
let_through = refl

vsyslog-unopened_example :
    (vsyslog machine 6 (codes "hi") start [] ≡ openlog machine none 0 (facility_bits 6) start [])
    × YieldsRun Closed (vsyslog machine 6 (codes "hi") start [])
vsyslog-unopened_example = vsyslog-unopened machine 6 (codes "hi") start [] refl let_through

abbrev open_log : Logger
open_log = record start {
  initialized = true;
  ident = codes "x";
  facility = 8;
  hostname = codes "pc";
  app_name = codes "a";
  sock = pos 3;
  datagramm_size = pos 1024;
}

-- Priorities up to LOG_INFO are let through.
abbrev masked_log : Logger
masked_log = record open_log { log_mask = 127 }

abbrev messages : List Message
messages = (6, codes "hi") ∷ (7, codes "debug") ∷ []

masked_log-IsOpen : IsOpen 1024 masked_log
masked_log-IsOpen = record {
  open_log = refl;
  app = omega arith;
  ident = omega arith;
  agreed = refl;
  number = omega arith;
}

messages-Fits : Fits machine 1024 messages masked_log []
unfolding header_of facility_bits bit_or digits timestamp_of
messages-Fits = (omega arith, (omega arith, tt, tt), (omega arith, tt, tt))

vsyslog_all-Lines_example :
    (ds : List Datagram) × Lines machine 1024 messages masked_log [] ds
    × Ends
        (λ st' u. (sent_of u ≡ [] ++ ds) × (st'.mid ≡ (0 + logged_count 127 messages) % 2 ^ 32))
        (vsyslog_all machine messages masked_log [])
    × AllLines 1024 ds
vsyslog_all-Lines_example =
    vsyslog_all-Lines machine 1024 messages masked_log [] (λ t. omega arith) (omega arith)
      (omega arith) masked_log-IsOpen messages-Fits
