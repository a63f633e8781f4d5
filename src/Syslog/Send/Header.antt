-- ===== src/Syslog/Send/Header.antt =====
-- What a datagram of the syslog client is, written down without the code that makes it.
use fifo.Prelude.{
  Option, none, some, append_assoc, sym, ◌⊎◌, ◌==◌, ap, ◌∙◌, Bool-cases, inl, inr, ltb,
  length-append, length-replicate, ◌*◌, ℕ, ◌+◌, ◌-◌, ◌^◌, ◌≤◌, ◌<◌, ◌≡◌, refl, List, [], ◌∷◌, ◌++◌,
  length, replicate, arith, zero, suc,
}
use fifo.Syslog.Logger.Split.{Lacks, split_at-Lacks, split_at-keeps}
use fifo.Prelude.Int.{ℤ, pos, negsuc}
use fifo.CString.{decimal, digits}
use fifo.CString.Decimals.{AllDigits, number_of, IsDecimal, decimal-IsDecimal}
use fifo.Message.{signed32}
use fifo.Syslog.System.{SystemTime}
use fifo.Syslog.Logger.{Logger, split_at}
use fifo.Syslog.Send.{padded, decimal_int, timestamp_of, header_of, first_line_of}

-- the decimal digits of an integer, behind a minus if it is negative
abbrev pub IsInteger : ℤ → List ℕ → Type 0
IsInteger (pos n) ds = IsDecimal n ds
IsInteger (negsuc n) [] = ⊥
IsInteger (negsuc n) (c ∷ ds) = (c ≡ 45) × IsDecimal (suc n) ds

-- the decimal digits of `n`, at least `w` of them
pub record IsPadded (w n : ℕ) (ds : List ℕ) : Type 0 where
  pub is_decimal : IsDecimal n ds
  pub wide : w ≤ length ds

-- year-month-dayThour:minute:second.millisecondsZ
pub record IsTimestamp (stm : SystemTime) (s : List ℕ) : Type 0 where
  pub ys : List ℕ
  pub mos : List ℕ
  pub ds : List ℕ
  pub hs : List ℕ
  pub mins : List ℕ
  pub secs : List ℕ
  pub mss : List ℕ
  pub is_text :
      s ≡ ys ++ 45 ∷ mos ++ 45 ∷ ds ++ 84 ∷ hs ++ 58 ∷ mins ++ 58 ∷ secs ++ 46 ∷ mss ++ 90 ∷ []
  pub is_year : IsPadded 4 stm.year ys
  pub is_month : IsPadded 2 stm.month mos
  pub is_day : IsPadded 2 stm.day ds
  pub is_hour : IsPadded 2 stm.hour hs
  pub is_minute : IsPadded 2 stm.minute mins
  pub is_second : IsPadded 2 stm.second secs
  pub is_milliseconds : IsDecimal stm.milliseconds mss

-- "<priority>1 time host program process number  ident "
pub record IsHeader (pri mid : ℕ) (stm : SystemTime) (st : Logger) (s : List ℕ) : Type 0 where
  pub priority : List ℕ
  pub time : List ℕ
  pub number : List ℕ
  pub is_text :
      s
      ≡ 60 ∷ priority
        ++ 62 ∷ 49 ∷ []
        ++ 32 ∷ time
        ++ 32 ∷ st.hostname
        ++ 32 ∷ st.app_name
        ++ 32 ∷ st.str_pid
        ++ 32 ∷ number
        ++ 32 ∷ 32 ∷ st.ident
        ++ 32 ∷ []
  pub is_priority : IsInteger (signed32 pri) priority
  pub is_time : IsTimestamp stm time
  pub is_number : IsInteger (signed32 mid) number

-- the fields of the system's time, each of 16 bits
pub record IsTime (stm : SystemTime) : Type 0 where
  pub year : stm.year < 2 ^ 16
  pub month : stm.month < 2 ^ 16
  pub day : stm.day < 2 ^ 16
  pub hour : stm.hour < 2 ^ 16
  pub minute : stm.minute < 2 ^ 16
  pub second : stm.second < 2 ^ 16
  pub milliseconds : stm.milliseconds < 2 ^ 16

decimal_int-IsInteger : (w : ℕ) → w < 2 ^ 32 → IsInteger (signed32 w) (decimal_int (signed32 w))
unfolding decimal_int
decimal_int-IsInteger w less = elim (Bool-cases (ltb w (2 ^ 31))) [
  | inl positive ↦ rw positive (decimal-IsDecimal w (omega arith))
  | inr negative ↦ rw negative (refl, decimal-IsDecimal (suc (2 ^ 32 - w - 1)) (omega arith))
]

zeros : (k acc : ℕ) (ds : List ℕ) → acc ≡ 0 → number_of acc (replicate k 48 ++ ds) ≡ number_of 0 ds
zeros zero acc ds e = ap (λ a. number_of a ds) e
zeros (suc k) acc ds e = zeros k (10 * acc + (48 - 48)) ds (omega arith)

zeros-AllDigits : (k : ℕ) (ds : List ℕ) → AllDigits ds → AllDigits (replicate k 48 ++ ds)
zeros-AllDigits zero ds all = all
zeros-AllDigits (suc k) ds all = (omega arith, omega arith, zeros-AllDigits k ds all)

padded-IsPadded : (w n : ℕ) → n < 2 ^ 16 → IsPadded w n (padded w n)
unfolding padded
padded-IsPadded w n less =
    let is = decimal-IsDecimal n (omega arith) in
    let k = w - length (decimal n) in
    record {
      is_decimal = record {
        all_digits = zeros-AllDigits k (decimal n) is.all_digits;
        is_number = zeros k 0 (decimal n) refl ∙ is.is_number;
      };
      wide = omega (
        arith,
        length-append (replicate {A = ℕ} k 48) (decimal n),
        length-replicate {A = ℕ} k 48,
      );
    }

timestamp_of-IsTimestamp : (stm : SystemTime) → IsTime stm → IsTimestamp stm (timestamp_of stm)
unfolding timestamp_of
timestamp_of-IsTimestamp stm is = record {
  ys = padded 4 stm.year;
  mos = padded 2 stm.month;
  ds = padded 2 stm.day;
  hs = padded 2 stm.hour;
  mins = padded 2 stm.minute;
  secs = padded 2 stm.second;
  mss = decimal stm.milliseconds;
  is_text = refl;
  is_year = padded-IsPadded 4 stm.year is.year;
  is_month = padded-IsPadded 2 stm.month is.month;
  is_day = padded-IsPadded 2 stm.day is.day;
  is_hour = padded-IsPadded 2 stm.hour is.hour;
  is_minute = padded-IsPadded 2 stm.minute is.minute;
  is_second = padded-IsPadded 2 stm.second is.second;
  is_milliseconds = decimal-IsDecimal stm.milliseconds (omega (arith, is.milliseconds));
}

version : decimal 1 ≡ 49 ∷ []
unfolding digits
version = refl

pub header_of-IsHeader :
    (pri mid : ℕ) (stm : SystemTime) (st : Logger)
    → pri < 2 ^ 32
    → mid < 2 ^ 32
    → IsTime stm
    → IsHeader pri mid stm st (header_of pri (timestamp_of stm) st mid st.app_name st.ident)
unfolding header_of
header_of-IsHeader pri mid stm st small less is = record {
  priority = decimal_int (signed32 pri);
  time = timestamp_of stm;
  number = decimal_int (signed32 mid);
  is_text = rw version refl;
  is_priority = decimal_int-IsInteger pri small;
  is_time = timestamp_of-IsTimestamp stm is;
  is_number = decimal_int-IsInteger mid less;
}

-- nothing, or a newline or a carriage return first
abbrev pub StartsWithBreak : List ℕ → Type 0
StartsWithBreak [] = Unit {0}
StartsWithBreak (b ∷ bs) = (b ≡ 10) ⊎ (b ≡ 13)

-- The first line of a text: it has no newline and no carriage return, and all of the text up to one.
pub record IsFirstLine (text line : List ℕ) : Type 0 where
  pub rest : List ℕ
  pub is_front : line ++ rest ≡ text
  pub no_newline : Lacks 10 line
  pub no_return : Lacks 13 line
  pub stops : StartsWithBreak rest

-- what stands behind the front of a split
abbrev behind : ℕ → Option (List ℕ) → List ℕ
behind c none = []
behind c (some r) = c ∷ r

split_at-whole : (c : ℕ) (s : List ℕ) → (split_at c s).0 ++ behind c (split_at c s).1 ≡ s
unfolding split_at
split_at-whole c [] = refl
split_at-whole c (b ∷ bs) = elim (Bool-cases (b == c)) [
  | inl same ↦ let e : c ≡ b = ground arith in rw same (ap (λ d. d ∷ bs) e)
  | inr other ↦ rw other (ap (◌∷◌ b) (split_at-whole c bs))
]

pub first_line_of-IsFirstLine : (text : List ℕ) → IsFirstLine text (first_line_of text)
unfolding first_line_of
first_line_of-IsFirstLine text =
    let (front, back) = split_at 10 text in
    record {
      rest = behind 13 (split_at 13 front).1 ++ behind 10 back;
      is_front =
          sym
            (append_assoc (split_at 13 front).0 (behind 13 (split_at 13 front).1) (behind 10 back))
          ∙ ap (λ s. s ++ behind 10 back) (split_at-whole 13 front)
          ∙ split_at-whole 10 text;
      no_newline = split_at-keeps 13 10 front (split_at-Lacks 10 text);
      no_return = split_at-Lacks 13 front;
      stops = stop (split_at 13 front).1 back;
    }
  where
    stop : (r r' : Option (List ℕ)) → StartsWithBreak (behind 13 r ++ behind 10 r')
    stop none none = tt
    stop none (some r) = inl refl
    stop (some r) r' = inr refl
