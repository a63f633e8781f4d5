-- ===== src/Os/Balance.antt =====
-- What a run has taken from the system and not given back, each descriptor and each block by itself.
use fifo.Prelude.{ℕ, ◌+◌, ◌≡◌, true, false, Option, List, [], ◌∷◌, ◌==◌, if◌then◌else◌, arith}
use fifo.Prelude.Int.{ℤ, minus_one, eqb_ℤ}
use fifo.Os.{
  FilePath, Flags, opened, closed, allocated, freed, did_write, did_read, did_select, Timeval,
  made_fifo, unlinked, Trace,
}

-- 1 for this descriptor, 0 for any other
unfoldable pub is_fd : ℤ → ℤ → ℕ
is_fd x fd = if eqb_ℤ x fd then 1 else 0

-- 1 for this block, 0 for any other
unfoldable pub is_block : ℕ → ℕ → ℕ
is_block y p = if y == p then 1 else 0

-- how often the descriptor `x` is in a list
abbrev pub times : ℤ → List ℤ → ℕ
times x [] = 0
times x (fd ∷ fds) = is_fd x fd + times x fds

-- how often the block `y` is in a list
abbrev pub block_times : ℕ → List ℕ → ℕ
block_times y [] = 0
block_times y (p ∷ ps) = is_block y p + block_times y ps

-- how often the descriptor `x` was opened; an `open` that returned -1 opens nothing
unfoldable pub opened_count : ℤ → Trace → ℕ
opened_count x [] = 0
opened_count x (opened path flags fd ∷ t) =
    (if eqb_ℤ fd minus_one then 0 else is_fd x fd) + opened_count x t
opened_count x (_ ∷ t) = opened_count x t

unfoldable pub closed_count : ℤ → Trace → ℕ
closed_count x [] = 0
closed_count x (closed fd ∷ t) = is_fd x fd + closed_count x t
closed_count x (_ ∷ t) = closed_count x t

unfoldable pub allocated_count : ℕ → Trace → ℕ
allocated_count y [] = 0
allocated_count y (allocated p size ∷ t) = is_block y p + allocated_count y t
allocated_count y (_ ∷ t) = allocated_count y t

unfoldable pub freed_count : ℕ → Trace → ℕ
freed_count y [] = 0
freed_count y (freed p ∷ t) = is_block y p + freed_count y t
freed_count y (_ ∷ t) = freed_count y t

-- Since `t` the run has opened each descriptor as often as it has closed it, and once more for each
-- time that it is in `fds`; and it has allocated each block as often as it has freed it, and once more
-- for each time that it is in `blocks`.
pub record Owes (fds : List ℤ) (blocks : List ℕ) (t u : Trace) : Type 0 where
  pub descriptors :
      (x : ℤ)
      → opened_count x u + closed_count x t ≡ opened_count x t + closed_count x u + times x fds
  pub memory :
      (y : ℕ)
      → allocated_count y u + freed_count y t
        ≡ allocated_count y t + freed_count y u + block_times y blocks

module _ {k : List ℤ} {a : List ℕ} {t u : Trace} where
  pub Owes-open_failed :
      (path : FilePath) (flags : Flags) (fd : ℤ)
      → eqb_ℤ fd minus_one ≡ true
      → Owes k a t u
      → Owes k a t (opened path flags fd ∷ u)
  unfolding opened_count closed_count allocated_count freed_count
  Owes-open_failed path flags fd e owes = record {
    descriptors = λ x. ground (arith, owes.descriptors x);
    memory = λ y. ground (arith, owes.memory y);
  }

  pub Owes-opened :
      (path : FilePath) (flags : Flags) (fd : ℤ)
      → eqb_ℤ fd minus_one ≡ false
      → Owes k a t u
      → Owes (fd ∷ k) a t (opened path flags fd ∷ u)
  unfolding opened_count closed_count allocated_count freed_count
  Owes-opened path flags fd e owes = record {
    descriptors = λ x. ground (arith, owes.descriptors x);
    memory = λ y. ground (arith, owes.memory y);
  }

  pub Owes-closed : (fd : ℤ) → Owes (fd ∷ k) a t u → Owes k a t (closed fd ∷ u)
  unfolding opened_count closed_count allocated_count freed_count
  Owes-closed fd owes = record {
    descriptors = λ x. omega (arith, owes.descriptors x);
    memory = λ y. omega (arith, owes.memory y);
  }

  pub Owes-allocated : (p size : ℕ) → Owes k a t u → Owes k (p ∷ a) t (allocated p size ∷ u)
  unfolding opened_count closed_count allocated_count freed_count
  Owes-allocated p size owes = record {
    descriptors = λ x. omega (arith, owes.descriptors x);
    memory = λ y. omega (arith, owes.memory y);
  }

  pub Owes-freed : (p : ℕ) → Owes k (p ∷ a) t u → Owes k a t (freed p ∷ u)
  unfolding opened_count closed_count allocated_count freed_count
  Owes-freed p owes = record {
    descriptors = λ x. omega (arith, owes.descriptors x);
    memory = λ y. omega (arith, owes.memory y);
  }

  pub Owes-did_write :
      (fd : ℤ) (bytes : List ℕ) (r : ℤ) → Owes k a t u → Owes k a t (did_write fd bytes r ∷ u)
  unfolding opened_count closed_count allocated_count freed_count
  Owes-did_write fd bytes r owes = record {
    descriptors = λ x. omega (arith, owes.descriptors x);
    memory = λ y. omega (arith, owes.memory y);
  }

  pub Owes-did_read :
      (fd : ℤ) (n : ℕ) (got : Option (List ℕ)) → Owes k a t u → Owes k a t (did_read fd n got ∷ u)
  unfolding opened_count closed_count allocated_count freed_count
  Owes-did_read fd n got owes = record {
    descriptors = λ x. omega (arith, owes.descriptors x);
    memory = λ y. omega (arith, owes.memory y);
  }

  pub Owes-did_select :
      (fd : ℤ) (timeout : Option Timeval) (rc : ℤ)
      → Owes k a t u
      → Owes k a t (did_select fd timeout rc ∷ u)
  unfolding opened_count closed_count allocated_count freed_count
  Owes-did_select fd timeout rc owes = record {
    descriptors = λ x. omega (arith, owes.descriptors x);
    memory = λ y. omega (arith, owes.memory y);
  }

  pub Owes-made_fifo : (path : FilePath) (r : ℤ) → Owes k a t u → Owes k a t (made_fifo path r ∷ u)
  unfolding opened_count closed_count allocated_count freed_count
  Owes-made_fifo path r owes = record {
    descriptors = λ x. omega (arith, owes.descriptors x);
    memory = λ y. omega (arith, owes.memory y);
  }

  pub Owes-unlinked : (path : FilePath) → Owes k a t u → Owes k a t (unlinked path ∷ u)
  unfolding opened_count closed_count allocated_count freed_count
  Owes-unlinked path owes = record {
    descriptors = λ x. omega (arith, owes.descriptors x);
    memory = λ y. omega (arith, owes.memory y);
  }

pub Owes-start : (t : Trace) → Owes [] [] t t
Owes-start t = record { descriptors = λ x. omega arith; memory = λ y. omega arith }

-- The order of what is held does not matter.
pub Owes-swap :
    {x y : ℤ} {k : List ℤ} {a : List ℕ} {t u : Trace}
    → Owes (x ∷ y ∷ k) a t u
    → Owes (y ∷ x ∷ k) a t u
Owes-swap owes = record {
  descriptors = λ z. omega (arith, owes.descriptors z);
  memory = λ z. owes.memory z;
}
