-- ===== src/Syslog/Logger/Host.antt =====
-- Where `init_logger_addr` and `set_syslog_host` take the logger's address from.
use fifo.Prelude.{
  ℕ, ◌%◌, ◌^◌, ◌≤◌, ◌≡◌, refl, ap, ◌∙◌, Option-cases, inl, inr, some, List, [], ◌∷◌, ◌++◌, length,
  take_all, sym, append_assoc,
}
use fifo.Effect.{done, ◌>>=◌}
use fifo.Os.{FilePath}
use fifo.Syslog.System.{System, Trace, read_config, resolved}
use fifo.Syslog.Logger.{
  Logger, split_at, config_path, parse_line, read_address, init_logger_addr, set_syslog_host,
}
use fifo.Syslog.Logger.Split.{Lacks, split_at-found, Lacks-append}

-- a line `host:port`, with the line's end of Windows
abbrev pub host_line : List ℕ → List ℕ → List ℕ
host_line host digits = (host ++ 58 ∷ digits) ++ 13 ∷ 10 ∷ []

pub record IsHostLine (host digits : List ℕ) : Type 0 where
  pub host_newline : Lacks 10 host
  pub host_return : Lacks 13 host
  pub host_colon : Lacks 58 host
  pub digits_newline : Lacks 10 digits
  pub digits_return : Lacks 13 digits
  pub short : length (host_line host digits) ≤ 255

parse_line-host_line :
    (host digits : List ℕ)
    → IsHostLine host digits
    → parse_line (host_line host digits) ≡ (host, some digits)
unfolding parse_line
parse_line-host_line host digits is =
    let text = host ++ 58 ∷ digits in
    let no_newline =
      Lacks-append 10 text (13 ∷ [])
        (Lacks-append 10 host (58 ∷ digits) is.host_newline (refl, is.digits_newline)) (refl, tt) in
    let no_return = Lacks-append 13 host (58 ∷ digits) is.host_return (refl, is.digits_return) in
    ap (λ s. split_at 58 (split_at 13 (split_at 10 s).0).0)
      (sym (append_assoc text (13 ∷ []) (10 ∷ [])))
    ∙ rw
        (
          split_at-found 10 (text ++ 13 ∷ []) [] no_newline,
          split_at-found 13 text [] no_return,
          split_at-found 58 host digits is.host_colon,
        )
        refl

-- If the configuration file's first line is `host:port` with a carriage return and a newline, is not
-- longer than 255 bytes, and the host is found, `init_logger_addr` makes the logger's address from
-- the host's address and the port modulo 2 ^ 16.
pub init_logger_addr-host_line :
    (sys : System) (host digits found : List ℕ) (st : Logger) (path : FilePath) (t : Trace)
    → IsHostLine host digits
    → config_path sys.program st.conf_dir ≡ some path
    → sys.config_line t path ≡ some (host_line host digits)
    → sys.gethostbyname (read_config path ∷ t) host ≡ some found
    → init_logger_addr sys st t
      ≡ done
          (record st { address = record { host = found; port = sys.strtoul digits % 2 ^ 16 } })
          (resolved host ∷ read_config path ∷ t)
unfolding init_logger_addr read_address
init_logger_addr-host_line sys host digits found st path t is at line there =
    rw
      (
        at,
        line,
        take_all 255 (host_line host digits) is.short,
        parse_line-host_line host digits is,
        there,
      )
      refl

-- An address that was set by `set_syslog_host` before the log is opened has no effect: what
-- `init_logger_addr`, which `openlog` calls, makes of the logger is the same without it.
pub set_syslog_host-lost :
    (sys : System) (host : List ℕ) (port : ℕ) (st : Logger) (t : Trace)
    → (set_syslog_host sys host port st >>= init_logger_addr sys) t
      ≡ init_logger_addr sys st (resolved host ∷ t)
unfolding set_syslog_host init_logger_addr
set_syslog_host-lost sys host port st t = elim (Option-cases (sys.gethostbyname t host)) [
  | inl missing ↦ rw missing refl
  | inr (found, there) ↦ rw there refl
]
