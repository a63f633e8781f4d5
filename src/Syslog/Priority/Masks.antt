-- ===== src/Syslog/Priority/Masks.antt =====
-- Priorities put together and taken apart, and the masks that select them.
use native.Mathlib.Nat.{pow-suc}
use fifo.Prelude.{
  ℕ, zero, suc, ◌+◌, ◌*◌, ◌/◌, ◌%◌, ◌^◌, ◌<◌, ◌≡◌, refl, ap, sym, ◌∙◌, not, ◌&&◌, dec_lt, Bool,
  true, false, ◌==◌, leb, if◌then◌else◌, arith,
}
use fifo.Syslog.Priority.{
  bit_or, bit_and, log_pri, facility_bits, log_fac, log_makepri, mask_of, log_upto, is_logged,
}

bit_of_even : (a b : ℕ) → a % 2 ≡ 0 → (if a % 2 == 0 then b else 1) ≡ b
bit_of_even a b h = ground arith

bit_of : (a : ℕ) → (if a % 2 == 0 then 0 else 1) ≡ a % 2
bit_of a = ground arith

bit_or-zero : (w a : ℕ) → a < 2 ^ w → bit_or w a 0 ≡ a
unfolding bit_or
bit_or-zero zero a h = omega arith
bit_or-zero (suc w) a h =
    let step : 2 ^ suc w ≡ 2 ^ w * 2 = pow-suc 2 w in
    let rest = bit_or-zero w (a / 2) (omega arith) in rw (rest, bit_of a) (omega arith)

-- The low bit of an even number is that of the other.
bit_or-even : (w a b : ℕ) → a % 2 ≡ 0 → bit_or (suc w) a b ≡ b % 2 + 2 * bit_or w (a / 2) (b / 2)
unfolding bit_or
bit_or-even w a b even = ap (λ k. k + 2 * bit_or w (a / 2) (b / 2)) (bit_of_even a (b % 2) even)

-- Where the one has no bit below the third and the other no further one, `or` adds.
pub bit_or-add : (w f p : ℕ) → p < 8 → f < 2 ^ w → bit_or (suc (suc (suc w))) (f * 8) p ≡ f * 8 + p
bit_or-add w f p small fits =
    let a1 : f * 8 / 2 ≡ f * 4 = omega arith in
    let a2 : f * 4 / 2 ≡ f * 2 = omega arith in
    let a3 : f * 2 / 2 ≡ f = omega arith in
    let p3 : p / 2 / 2 / 2 ≡ 0 = omega arith in
    let e1 = bit_or-even (suc (suc w)) (f * 8) p (omega arith) in
    let e2 = bit_or-even (suc w) (f * 4) (p / 2) (omega arith) in
    let e3 = bit_or-even w (f * 2) (p / 2 / 2) (omega arith) in
    let e4 = bit_or-zero w f fits in rw (e1, a1, e2, a2, e3, a3, p3, e4) (omega arith)

-- LOG_MAKEPRI puts a facility below 128 and a priority below 8 into one number, from which LOG_FAC
-- and LOG_PRI take them back.
pub log_fac-log_makepri :
    (fac pri : ℕ)
    → fac < 128
    → pri < 8
    → (log_fac (log_makepri fac pri) ≡ fac) × (log_pri (log_makepri fac pri) ≡ pri)
unfolding log_fac log_pri log_makepri facility_bits
log_fac-log_makepri fac pri small low =
    let whole : fac * 8 % 2 ^ 32 ≡ fac * 8 = omega arith in
    let add = bit_or-add 29 fac pri low (omega arith) in rw (whole, add) (omega arith, omega arith)

-- A test of all numbers below `n`.
abbrev holds_below : ℕ → (ℕ → Bool) → Bool
holds_below zero f = true
holds_below (suc n) f = f n && holds_below n f

holds_below-lt : (n k : ℕ) (f : ℕ → Bool) → holds_below n f ≡ true → k < n → f k ≡ true
holds_below-lt zero k f all h = absurd (omega arith)
holds_below-lt (suc n) k f all h = elim (dec_lt k n) [
  | yes less ↦ holds_below-lt n k f (and_right (f n) (holds_below n f) all) less
  | no top ↦ let same : k ≡ n = omega arith in ap f same ∙ and_left (f n) (holds_below n f) all
]
  where
    and_left : (a b : Bool) → (a && b) ≡ true → a ≡ true
    and_left true b h = refl
    and_left false b h = h

    and_right : (a b : Bool) → (a && b) ≡ true → b ≡ true
    and_right true b h = h
    and_right false b h = absurd (ground arith)

abbrev same_bool : Bool → Bool → Bool
same_bool true b = b
same_bool false b = not b

same_bool-eq : (a b : Bool) → same_bool a b ≡ true → a ≡ b
same_bool-eq true true h = refl
same_bool-eq true false h = sym h
same_bool-eq false true h = h
same_bool-eq false false h = refl

abbrev agrees : ℕ → ℕ → Bool
agrees q p = same_bool (not (bit_and 32 (mask_of q) (log_upto p) == 0)) (leb q p)

upto_table : holds_below 8 (λ q. holds_below 8 (agrees q)) ≡ true
unfolding mask_of log_upto bit_and
upto_table = refl

-- With the mask LOG_UPTO of a priority below 8, exactly the messages of that priority and of the more
-- urgent ones, which have smaller codes, are let through, whatever their facility.
pub is_logged-log_upto : (pri p : ℕ) → p < 8 → is_logged pri (log_upto p) ≡ leb (log_pri pri) p
unfolding is_logged log_pri
is_logged-log_upto pri p small =
    let q = pri % 8 in
    let row = holds_below-lt 8 q (λ k. holds_below 8 (agrees k)) upto_table (omega arith) in
    same_bool-eq _ _ (holds_below-lt 8 p (agrees q) row small)
