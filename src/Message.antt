-- ===== src/Message.antt =====
-- `fifo_pipemsg_t` of src/fifo.h as its bytes in memory: a little-endian `int32_t msgsz`, then
-- `msgbuf`. `read` and `write` move these bytes.
pub mod Codec
pub mod Frame
pub mod Store
use fifo.Prelude.{
  ℕ, ◌+◌, ◌-◌, ◌*◌, ◌/◌, ◌%◌, ◌^◌, Option, none, some, List, [], ◌∷◌, ◌++◌, length, take, drop,
  replicate, ltb, leb, if◌then◌else◌,
}
use fifo.Prelude.Int.{ℤ, pos, negsuc}

-- PIPEMSG_SIZE_MAX
abbrev pub pipemsg_size_max : ℕ
pipemsg_size_max = 4096

-- sizeof(int32_t)
abbrev pub sizeof_msgsz : ℕ
sizeof_msgsz = 4

-- sizeof(msgbuf)
abbrev pub sizeof_msgbuf : ℕ
sizeof_msgbuf = 4092

abbrev pub Pipemsg : Type 0
Pipemsg = List ℕ

-- the 32 bits of an `int32_t`
abbrev pub bits32 : ℤ → ℕ
bits32 (pos n) = n % 2 ^ 32
bits32 (negsuc n) = 2 ^ 32 - 1 - n % 2 ^ 32

abbrev pub signed32 : ℕ → ℤ
signed32 w = if ltb w (2 ^ 31) then pos w else negsuc (2 ^ 32 - w - 1)

unfoldable pub encode32 : ℤ → List ℕ
encode32 n = let w = bits32 n in w % 256 ∷ w / 256 % 256 ∷ w / 65536 % 256 ∷ w / 16777216 % 256 ∷ []

unfoldable pub decode32 : List ℕ → ℤ
decode32 (a ∷ b ∷ c ∷ d ∷ _) = signed32 (a + 256 * b + 65536 * c + 16777216 * d)
decode32 _ = pos 0

-- msg->msgsz
unfoldable pub msgsz : Pipemsg → ℤ
unfolding decode32
msgsz msg = decode32 msg

-- msg->msgsz = n
unfoldable pub set_msgsz : ℤ → Pipemsg → Pipemsg
unfolding encode32
set_msgsz n msg = encode32 n ++ drop 4 msg

abbrev pub msgbuf : Pipemsg → List ℕ
msgbuf msg = drop 4 msg

-- The bytes that `read(fd, (char *)msg + offset, ...)` stores; `none` where they leave the struct.
unfoldable pub store_bytes : ℤ → List ℕ → Pipemsg → Option Pipemsg
store_bytes (pos offset) bytes msg =
    if leb (offset + length bytes) (length msg)
    then some (take offset msg ++ (bytes ++ drop (offset + length bytes) msg))
    else none
store_bytes (negsuc n) [] msg = some msg
store_bytes (negsuc n) (b ∷ bytes) msg = none

-- the message of `mem_alloc_zero`
abbrev pub zero_msg : Pipemsg
zero_msg = replicate pipemsg_size_max 0
