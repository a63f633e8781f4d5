-- ===== src/Message/Codec.antt =====
-- The size field of a message survives being written and read back.
use fifo.Prelude.{
  ℕ, [], ◌∷◌, ◌≤◌, take, ◌+◌, ◌*◌, ◌/◌, ◌%◌, ◌^◌, ◌<◌, ◌≡◌, refl, ap, ◌∙◌, List, ◌++◌, length, drop,
  arith,
}
use fifo.Prelude.Int.{ℤ, pos, negsuc}
use fifo.Message.{Pipemsg, bits32, signed32, encode32, decode32, msgsz, set_msgsz, msgbuf}

-- the values of an `int32_t`
abbrev pub IsInt32 : ℤ → Type 0
IsInt32 (pos n) = n < 2 ^ 31
IsInt32 (negsuc n) = n < 2 ^ 31

four_bytes :
    (w : ℕ)
    → w < 2 ^ 32
    → w % 256 + 256 * (w / 256 % 256) + 65536 * (w / 65536 % 256) + 16777216 * (w / 16777216 % 256)
      ≡ w
four_bytes w h = omega arith

signed32-bits32 : (n : ℤ) → IsInt32 n → signed32 (bits32 n) ≡ n
signed32-bits32 (pos n) h = ground arith
signed32-bits32 (negsuc n) h = ground arith

bits32-lt : (n : ℤ) → bits32 n < 2 ^ 32
bits32-lt (pos n) = omega arith
bits32-lt (negsuc n) = omega arith

pub length-encode32 : (n : ℤ) → length (encode32 n) ≡ 4
unfolding encode32
length-encode32 n = refl

pub decode32-encode32 : (n : ℤ) (rest : List ℕ) → IsInt32 n → decode32 (encode32 n ++ rest) ≡ n
unfolding encode32 decode32
decode32-encode32 n rest h = ap signed32 (four_bytes (bits32 n) (bits32-lt n)) ∙ signed32-bits32 n h

-- A message whose first bytes encode `n` has that size.
pub msgsz-encode32 : (n : ℤ) (rest : List ℕ) → IsInt32 n → msgsz (encode32 n ++ rest) ≡ n
unfolding msgsz
msgsz-encode32 n rest h = decode32-encode32 n rest h

pub msgbuf-set_msgsz : (n : ℤ) (msg : Pipemsg) → msgbuf (set_msgsz n msg) ≡ msgbuf msg
unfolding set_msgsz
msgbuf-set_msgsz n msg = refl

-- Setting the size of a message makes it the size that is read back and leaves the body as it was.
pub msgsz-set_msgsz :
    (n : ℤ) (msg : Pipemsg)
    → IsInt32 n
    → (msgsz (set_msgsz n msg) ≡ n) × (msgbuf (set_msgsz n msg) ≡ msgbuf msg)
unfolding set_msgsz
msgsz-set_msgsz n msg h = (msgsz-encode32 n (drop 4 msg) h, refl)

-- The size of a message stands in its first four bytes.
pub msgsz-append :
    (header rest : List ℕ) → length header ≡ 4 → msgsz (header ++ rest) ≡ decode32 header
unfolding msgsz decode32
msgsz-append [] rest four = absurd (omega arith)
msgsz-append (a ∷ []) rest four = absurd (omega arith)
msgsz-append (a ∷ b ∷ []) rest four = absurd (omega arith)
msgsz-append (a ∷ b ∷ c ∷ []) rest four = absurd (omega arith)
msgsz-append (a ∷ b ∷ c ∷ d ∷ tail) rest four = refl

-- Every message is its size field and its body.
pub msgsz-take : (msg : Pipemsg) → 4 ≤ length msg → decode32 (take 4 msg) ≡ msgsz msg
unfolding msgsz decode32
msgsz-take [] long = absurd (omega arith)
msgsz-take (a ∷ []) long = absurd (omega arith)
msgsz-take (a ∷ b ∷ []) long = absurd (omega arith)
msgsz-take (a ∷ b ∷ c ∷ []) long = absurd (omega arith)
msgsz-take (a ∷ b ∷ c ∷ d ∷ tail) long = refl
