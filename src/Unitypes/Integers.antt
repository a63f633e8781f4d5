-- ===== src/Unitypes/Integers.antt =====
-- The integer types of src/unitypes.h, their casts to pointers of 64 bits, and CHKCONFIG_INT_VALUE.
use fifo.Prelude.{
  ℕ, ◌+◌, ◌-◌, ◌%◌, ◌^◌, ◌<◌, ◌≡◌, refl, inl, inr, Bool, true, false, ltb, if◌then◌else◌,
  Bool-cases, arith,
}
use fifo.Prelude.Int.{ℤ, pos, negsuc, minus_one, eqb_ℤ, ltb_ℤ}
use fifo.Message.{signed32}

pub data IntType : Type 0 where
  ub8 sb8 ub4 sb4 ub2 sb2 ub1 sb1 : IntType

-- UB8BITS, UB4BITS, UB2BITS, UB1BITS
abbrev pub width : IntType → ℕ
width ub8 = 64
width sb8 = 64
width ub4 = 32
width sb4 = 32
width ub2 = 16
width sb2 = 16
width ub1 = 8
width sb1 = 8

abbrev pub is_signed : IntType → Bool
is_signed sb8 = true
is_signed sb4 = true
is_signed sb2 = true
is_signed sb1 = true
is_signed _ = false

-- UB8MAXVAL to SB1MAXVAL
abbrev pub max_value : IntType → ℕ
max_value ub8 = 0xffff_ffff_ffff_ffff
max_value sb8 = 0x7fff_ffff_ffff_ffff
max_value ub4 = 0xffff_ffff
max_value sb4 = 0x7fff_ffff
max_value ub2 = 0xffff
max_value sb2 = 0x7fff
max_value ub1 = 0xff
max_value sb1 = 0x7f

-- The constant of each type is the greatest number that its bits hold.
pub max_value-greatest :
    (type : IntType)
    → max_value type + 1 ≡ 2 ^ (if is_signed type then width type - 1 else width type)
max_value-greatest ub8 = refl
max_value-greatest sb8 = refl
max_value-greatest ub4 = refl
max_value-greatest sb4 = refl
max_value-greatest ub2 = refl
max_value-greatest sb2 = refl
max_value-greatest ub1 = refl
max_value-greatest sb1 = refl

-- the 64 bits of an integer, which is a pointer by its bits
unfoldable pub int64_cast_to_ptr : ℤ → ℕ
int64_cast_to_ptr (pos n) = n % 2 ^ 64
int64_cast_to_ptr (negsuc n) = 2 ^ 64 - 1 - n % 2 ^ 64

unfoldable pub ptr_cast_to_int64 : ℕ → ℤ
ptr_cast_to_int64 p = if ltb p (2 ^ 63) then pos p else negsuc (2 ^ 64 - p - 1)

-- An `int` keeps its value on the way to `uintptr_t`, with its sign.
unfoldable pub int_cast_to_ptr : ℤ → ℕ
int_cast_to_ptr (pos n) = n % 2 ^ 64
int_cast_to_ptr (negsuc n) = 2 ^ 64 - 1 - n % 2 ^ 64

unfoldable pub ptr_cast_to_int : ℕ → ℤ
ptr_cast_to_int p = signed32 (p % 2 ^ 32)

-- the values of a signed type of `w + 1` bits
abbrev pub Fits : ℕ → ℤ → Type 0
Fits w (pos n) = n < 2 ^ w
Fits w (negsuc n) = n < 2 ^ w

-- Every `int` comes back from a pointer.
pub ptr_cast_to_int-int_cast_to_ptr : (n : ℤ) → Fits 31 n → ptr_cast_to_int (int_cast_to_ptr n) ≡ n
unfolding ptr_cast_to_int int_cast_to_ptr
ptr_cast_to_int-int_cast_to_ptr (pos n) h = ground arith
ptr_cast_to_int-int_cast_to_ptr (negsuc n) h = ground arith

pub ptr_cast_to_int64-int64_cast_to_ptr :
    (n : ℤ) → Fits 63 n → ptr_cast_to_int64 (int64_cast_to_ptr n) ≡ n
unfolding ptr_cast_to_int64 int64_cast_to_ptr
ptr_cast_to_int64-int64_cast_to_ptr (pos n) h = ground arith
ptr_cast_to_int64-int64_cast_to_ptr (negsuc n) h = ground arith

-- CHKCONFIG_INT_VALUE: the value that the variable gets.
unfoldable pub chkconfig_int_value : ℤ → ℤ → ℤ → ℤ → ℤ
chkconfig_int_value defval minval maxval var =
    if eqb_ℤ var (pos 0)
    then defval
    else if eqb_ℤ var minus_one
    then maxval
    else if ltb_ℤ var minval
    then minval
    else if ltb_ℤ maxval var
    then maxval
    else var

-- between the two bounds
pub record Between (minval maxval n : ℤ) : Type 0 where
  pub low : ltb_ℤ n minval ≡ false
  pub high : ltb_ℤ maxval n ≡ false

-- With bounds in order and the default between them, every value ends between the bounds.
pub chkconfig_int_value-Between :
    (defval minval maxval var : ℤ)
    → ltb_ℤ maxval minval ≡ false
    → Between minval maxval defval
    → Between minval maxval (chkconfig_int_value defval minval maxval var)
unfolding chkconfig_int_value
chkconfig_int_value-Between defval minval maxval var ordered default =
    elim (Bool-cases (eqb_ℤ var (pos 0))) [
      | inl zero ↦ rw zero default
      | inr some_value ↦ elim (Bool-cases (eqb_ℤ var minus_one)) [
        | inl greatest ↦
            rw (some_value, greatest) (record { low = ordered; high = same_ltb maxval })
        | inr other ↦ elim (Bool-cases (ltb_ℤ var minval)) [
          | inl below ↦
              rw (some_value, other, below) (record { low = same_ltb minval; high = ordered })
          | inr not_below ↦ elim (Bool-cases (ltb_ℤ maxval var)) [
            | inl above ↦
                rw (some_value, other, not_below, above)
                  (record { low = ordered; high = same_ltb maxval })
            | inr inside ↦
                rw (some_value, other, not_below, inside)
                  (record { low = not_below; high = inside })
          ]
        ]
      ]
    ]
  where
    same_ltb : (n : ℤ) → ltb_ℤ n n ≡ false
    same_ltb (pos n) = ground arith
    same_ltb (negsuc n) = ground arith
