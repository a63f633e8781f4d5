-- ===== src/Memory.antt =====
-- The operations of src/memapi.h beside `mem_alloc_zero` and `mem_free`, which stand in Os.antt.
use fifo.Prelude.{
  ℕ, ◌+◌, ◌≡◌, refl, Bool-cases, inl, inr, false, Option, none, some, List, [], ◌∷◌, ◌++◌, length,
  ◌==◌, if◌then◌else◌,
}
use fifo.Os.{Os, allocated, freed, reallocated, Trace, Cmd, done, exited, pure, ◌>>=◌, ◌>>◌, log}
use fifo.Os.Balance.{Owes, Owes-start, Owes-allocated}
use fifo.CString.{until_nul}
use fifo.CString.Strings.{NulFree, until_nul-append_nul}

module _ (os : Os) where
  unfoldable pub mem_alloc_unset : ℕ → Cmd ℕ
  mem_alloc_unset size t =
      if os.malloc t == 0 then exited t else done (os.malloc t) (allocated (os.malloc t) size ∷ t)

  unfoldable pub mem_realloc : ℕ → ℕ → Cmd ℕ
  mem_realloc ptr size t =
      if os.realloc t ptr == 0
      then exited t
      else done (os.realloc t ptr) (reallocated ptr (os.realloc t ptr) size ∷ t)

  -- The address of the copy and its bytes; `none` is NULL.
  unfoldable pub mem_strdup : Option (List ℕ) → Cmd (ℕ × List ℕ)
  unfolding mem_alloc_unset
  mem_strdup none = pure (0, [])
  mem_strdup (some s) = do d ← mem_alloc_unset (length s + 1); pure (d, s ++ 0 ∷ [])

-- What the pointer at `pptr` holds behind the call; `none` is a NULL `pptr`.
unfoldable pub mem_free_s : Option ℕ → Cmd (Option ℕ)
mem_free_s none = pure none
mem_free_s (some ptr) = if ptr == 0 then pure (some ptr) else (log (freed ptr) >> pure (some 0))

-- A second `mem_free_s` on the same pointer does nothing.
pub mem_free_s-mem_free_s :
    (pptr : Option ℕ) (t : Trace) → (mem_free_s pptr >>= mem_free_s) t ≡ mem_free_s pptr t
unfolding mem_free_s
mem_free_s-mem_free_s none t = refl
mem_free_s-mem_free_s (some ptr) t = elim (Bool-cases (ptr == 0)) [
  | inl null ↦ rw (null, null)
  | inr held ↦ rw held
]

-- If memory is granted, the copy of a C string holds the same string, in one new block.
pub mem_strdup-some :
    (os : Os) (s : List ℕ) (t : Trace)
    → NulFree s
    → (os.malloc t == 0) ≡ false
    → (mem_strdup os (some s) t
        ≡ done (os.malloc t, s ++ 0 ∷ []) (allocated (os.malloc t) (length s + 1) ∷ t))
      × (until_nul (s ++ 0 ∷ []) ≡ s)
      × Owes [] (os.malloc t ∷ []) t (allocated (os.malloc t) (length s + 1) ∷ t)
unfolding mem_strdup
mem_strdup-some os s t free granted = (
  rw granted,
  until_nul-append_nul s [] free,
  Owes-allocated (os.malloc t) (length s + 1) (Owes-start t),
)
