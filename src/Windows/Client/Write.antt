-- ===== src/Windows/Client/Write.antt =====
-- `fifo_client_write` of src/fifo-win.c hands over its whole message, in whatever pieces the system
-- takes it.
use fifo.Prelude.{
  ge→ltb, ℕ, zero, suc, ◌+◌, ◌-◌, ◌%◌, ◌^◌, ◌≤◌, ◌<◌, ◌≡◌, sym, ap, ◌∙◌, true, false, List, [], ◌∷◌,
  ◌++◌, append_assoc, append-nil, length, take, drop, ◌==◌, arith, take-append-drop, drop-drop,
  drop-take,
}
use fifo.Prelude.Signs.{all_done, not_negative}
use fifo.Prelude.Int.{ℤ, pos}
use fifo.Effect.{done}
use fifo.Message.{Pipemsg, sizeof_msgbuf, msgsz}
use fifo.Api.{fifo_s_ok}
use fifo.Windows.System.{System, Trace, wrote_file}
use fifo.Windows.Client.{Client, write_loop, client_write}

-- the bytes that the system took, in order
unfoldable pub taken : Trace → List ℕ
taken [] = []
taken (wrote_file h bytes ok k ∷ t) = taken t ++ take k bytes
taken (_ ∷ t) = taken t

not_yet : (a b : ℕ) → a < b → (a == b) ≡ false
not_yet a b h = ground arith

module _ (sys : System) (h : ℤ) (msg : Pipemsg) (size : ℕ) where
  -- the bytes from `offset` on
  abbrev pub rest : ℕ → List ℕ
  rest offset = take (size - offset) (drop offset msg)

  -- The trace behind the writes of which the system takes these numbers of bytes.
  abbrev pub writes : List ℕ → ℕ → Trace → Trace
  writes [] offset t = t
  writes (k ∷ ks) offset t = writes ks (offset + k) (wrote_file h (rest offset) true k ∷ t)

  -- The system takes at least one byte of each write, and by and by all of them.
  abbrev pub Accepts : List ℕ → ℕ → Trace → Type 0
  Accepts [] offset t = offset ≡ size
  Accepts (k ∷ ks) offset t =
      (0 < k)
      × (sys.write_file t h (rest offset) ≡ (true, k))
      × Accepts ks (offset + k) (wrote_file h (rest offset) true k ∷ t)

  Accepts-le :
      (ks : List ℕ) (offset : ℕ) (t : Trace) → Accepts ks offset t → offset + length ks ≤ size
  Accepts-le [] offset t e = omega arith
  Accepts-le (k ∷ ks) offset t (some_bytes, _, next) =
      omega (arith, Accepts-le ks (offset + k) (wrote_file h (rest offset) true k ∷ t) next)

  write_loop-Accepts :
      (fuel k : ℕ) (ks : List ℕ) (offset : ℕ) (t : Trace)
      → size ≤ 4096
      → length ks < fuel
      → Accepts (k ∷ ks) offset t
      → write_loop sys fuel h msg offset size t ≡ done true (writes (k ∷ ks) offset t)
  unfolding write_loop
  write_loop-Accepts zero k ks offset t small enough (_, _, next) = absurd (omega arith)
  write_loop-Accepts (suc fuel) k [] offset t small enough (some_bytes, took, e) =
      let asked : (size + 2 ^ 32 - offset) % 2 ^ 32 ≡ size - offset = omega arith in
      let moved : (offset + k) % 2 ^ 32 ≡ offset + k = omega arith in
      rw (asked, took, moved, all_done (offset + k) size e)
  write_loop-Accepts (suc fuel) k (j ∷ js) offset t small enough (some_bytes, took, next) =
      let bound = Accepts-le (j ∷ js) (offset + k) (wrote_file h (rest offset) true k ∷ t) next in
      let asked : (size + 2 ^ 32 - offset) % 2 ^ 32 ≡ size - offset = omega arith in
      let moved : (offset + k) % 2 ^ 32 ≡ offset + k = omega arith in
      rw (asked, took, moved, not_yet (offset + k) size (omega arith))
        (write_loop-Accepts fuel j js (offset + k) _ small (omega arith) next)

  taken-writes :
      (ks : List ℕ) (offset : ℕ) (t : Trace)
      → Accepts ks offset t
      → taken (writes ks offset t) ≡ taken t ++ rest offset
  unfolding taken
  taken-writes [] offset t e =
      let none_left : size - offset ≡ 0 = omega arith in rw (none_left, append-nil (taken t))
  taken-writes (k ∷ ks) offset t (some_bytes, took, next) =
      let bound = Accepts-le ks (offset + k) (wrote_file h (rest offset) true k ∷ t) next in
      let sum : k + (size - (offset + k)) ≡ size - offset = omega arith in
      taken-writes ks (offset + k) (wrote_file h (rest offset) true k ∷ t) next
      ∙ append_assoc (taken t) (take k (rest offset)) (rest (offset + k))
      ∙ ap (λ bytes. taken t ++ (take k (rest offset) ++ bytes))
          (sym (
            ap (λ n. drop k (take n (drop offset msg))) (sym sum)
            ∙ drop-take k (size - (offset + k)) (drop offset msg)
            ∙ ap (take (size - (offset + k))) (drop-drop k offset msg)))
      ∙ ap (◌++◌ (taken t)) (take-append-drop k (rest offset))

-- A message with a size in 0..4092, and a system that takes at least one byte of each `WriteFile`
-- and by and by all of them. Then with as much fuel as there are writes `fifo_client_write` returns
-- FIFO_S_OK, and what the system has taken is the size field and that many bytes of the body, in
-- order and each once.
pub client_write-Accepts :
    (sys : System) (client : Client) (msg : Pipemsg) (n fuel k : ℕ) (ks : List ℕ) (t : Trace)
    → let u = writes sys client.named_pipe msg (4 + n) (k ∷ ks) 0 t in
      msgsz msg ≡ pos n
      → n ≤ sizeof_msgbuf
      → length ks < fuel
      → Accepts sys client.named_pipe msg (4 + n) (k ∷ ks) 0 t
      → (client_write sys fuel client msg t ≡ done fifo_s_ok u)
        × (taken u ≡ taken t ++ take (4 + n) msg)
unfolding client_write
client_write-Accepts sys client msg n fuel k ks t size small enough accepts = (
  rw (
    size,
    not_negative n,
    ge→ltb sizeof_msgbuf n small,
    write_loop-Accepts sys client.named_pipe msg (4 + n) fuel k ks 0 t (omega arith) enough accepts,
  ),
  taken-writes sys client.named_pipe msg (4 + n) (k ∷ ks) 0 t accepts
      ∙ ap (λ k. taken t ++ take k msg) whole,
)
  where
    whole : 4 + n - 0 ≡ 4 + n
    whole = omega arith
