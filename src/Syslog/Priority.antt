-- ===== src/Syslog/Priority.antt =====
-- The macros of src/syslog-win32/syslog.h. An `int` is its 32 bits.
pub mod Masks
use fifo.Prelude.{
  ℕ, zero, suc, ◌+◌, ◌-◌, ◌*◌, ◌/◌, ◌%◌, ◌^◌, not, Bool, Option, none, some, List, [], ◌∷◌, ◌==◌,
  if◌then◌else◌,
}
use fifo.CString.{codes}

-- bitwise or and and of numbers of `w` bits
unfoldable pub bit_or : ℕ → ℕ → ℕ → ℕ
bit_or zero a b = 0
bit_or (suc w) a b = (if a % 2 == 0 then b % 2 else 1) + 2 * bit_or w (a / 2) (b / 2)

unfoldable pub bit_and : ℕ → ℕ → ℕ → ℕ
bit_and zero a b = 0
bit_and (suc w) a b = (if a % 2 == 0 then 0 else b % 2) + 2 * bit_and w (a / 2) (b / 2)

-- LOG_EMERG to LOG_DEBUG
pub data Priority : Type 0 where
  log_emerg log_alert log_crit log_err log_warning log_notice log_info log_debug : Priority

abbrev pub priority_code : Priority → ℕ
priority_code log_emerg = 0
priority_code log_alert = 1
priority_code log_crit = 2
priority_code log_err = 3
priority_code log_warning = 4
priority_code log_notice = 5
priority_code log_info = 6
priority_code log_debug = 7

-- LOG_KERN to LOG_LOCAL7, and the codes 12 to 15 that are reserved
pub data Facility : Type 0 where
  log_kern log_user log_mail log_daemon log_auth log_syslog log_lpr log_news log_uucp log_cron :
      Facility
  log_authpriv log_ftp log_local0 log_local1 log_local2 log_local3 log_local4 log_local5 : Facility
  log_local6 log_local7 : Facility

abbrev pub facility_code : Facility → ℕ
facility_code log_kern = 0 * 8
facility_code log_user = 1 * 8
facility_code log_mail = 2 * 8
facility_code log_daemon = 3 * 8
facility_code log_auth = 4 * 8
facility_code log_syslog = 5 * 8
facility_code log_lpr = 6 * 8
facility_code log_news = 7 * 8
facility_code log_uucp = 8 * 8
facility_code log_cron = 9 * 8
facility_code log_authpriv = 10 * 8
facility_code log_ftp = 11 * 8
facility_code log_local0 = 16 * 8
facility_code log_local1 = 17 * 8
facility_code log_local2 = 18 * 8
facility_code log_local3 = 19 * 8
facility_code log_local4 = 20 * 8
facility_code log_local5 = 21 * 8
facility_code log_local6 = 22 * 8
facility_code log_local7 = 23 * 8

abbrev pub log_nfacilities : ℕ
log_nfacilities = 24

-- LOG_PRI: the bits of LOG_PRIMASK, which is 7
unfoldable pub log_pri : ℕ → ℕ
log_pri p = p % 8

-- the bits of LOG_FACMASK, which is 0x03f8, and LOG_FAC
unfoldable pub facility_bits : ℕ → ℕ
facility_bits p = p / 8 % 128 * 8

unfoldable pub log_fac : ℕ → ℕ
unfolding facility_bits
log_fac p = facility_bits p / 8

unfoldable pub log_makepri : ℕ → ℕ → ℕ
unfolding bit_or
log_makepri fac pri = bit_or 32 (fac * 8 % 2 ^ 32) pri

-- LOG_MASK and LOG_UPTO
unfoldable pub mask_of : ℕ → ℕ
mask_of pri = 2 ^ pri

unfoldable pub log_upto : ℕ → ℕ
log_upto pri = 2 ^ (pri + 1) - 1

-- `LOG_MASK( LOG_PRI( pri )) & log_mask`
unfoldable pub is_logged : ℕ → ℕ → Bool
unfolding bit_and log_pri mask_of
is_logged pri mask = not (bit_and 32 (mask_of (log_pri pri)) mask == 0)

-- LOG_PID, the option flag that `openlog` reads
unfoldable pub has_log_pid : ℕ → Bool
has_log_pid option = not (option % 2 == 0)

-- INTERNAL_NOPRI and INTERNAL_MARK
abbrev pub internal_nopri : ℕ
internal_nopri = 16

unfoldable pub internal_mark : ℕ
unfolding log_makepri
internal_mark = log_makepri log_nfacilities 0

-- The tables `prioritynames` and `facilitynames`, without their end marks.
abbrev pub priority_names : List (List ℕ × ℕ)
priority_names =
    (codes "alert", priority_code log_alert)
    ∷ (codes "crit", priority_code log_crit)
    ∷ (codes "debug", priority_code log_debug)
    ∷ (codes "emerg", priority_code log_emerg)
    ∷ (codes "err", priority_code log_err)
    ∷ (codes "error", priority_code log_err)
    ∷ (codes "info", priority_code log_info)
    ∷ (codes "none", internal_nopri)
    ∷ (codes "notice", priority_code log_notice)
    ∷ (codes "panic", priority_code log_emerg)
    ∷ (codes "warn", priority_code log_warning)
    ∷ (codes "warning", priority_code log_warning)
    ∷ []

unfoldable pub facility_names : List (List ℕ × ℕ)
unfolding internal_mark
facility_names =
    (codes "auth", facility_code log_auth)
    ∷ (codes "authpriv", facility_code log_authpriv)
    ∷ (codes "cron", facility_code log_cron)
    ∷ (codes "daemon", facility_code log_daemon)
    ∷ (codes "ftp", facility_code log_ftp)
    ∷ (codes "kern", facility_code log_kern)
    ∷ (codes "lpr", facility_code log_lpr)
    ∷ (codes "mail", facility_code log_mail)
    ∷ (codes "mark", internal_mark)
    ∷ (codes "news", facility_code log_news)
    ∷ (codes "security", facility_code log_auth)
    ∷ (codes "syslog", facility_code log_syslog)
    ∷ (codes "user", facility_code log_user)
    ∷ (codes "uucp", facility_code log_uucp)
    ∷ (codes "local0", facility_code log_local0)
    ∷ (codes "local1", facility_code log_local1)
    ∷ (codes "local2", facility_code log_local2)
    ∷ (codes "local3", facility_code log_local3)
    ∷ (codes "local4", facility_code log_local4)
    ∷ (codes "local5", facility_code log_local5)
    ∷ (codes "local6", facility_code log_local6)
    ∷ (codes "local7", facility_code log_local7)
    ∷ []
