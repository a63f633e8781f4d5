-- ===== src/Server/Handed.antt =====
-- What the loop of `fifo_server_runforever` has taken from the system and neither given back nor
-- handed to a worker.
use fifo.Prelude.{ℕ, ◌+◌, ◌≡◌, true, false, List, [], ◌∷◌, ◌++◌, if◌then◌else◌, arith}
use fifo.Prelude.Int.{ℤ, pos, minus_one, eqb_ℤ}
use fifo.Effect.Emits.{Extends, same, newer}
use fifo.Os.{
  Event, FilePath, Flags, opened, closed, allocated, freed, created, did_read, did_write,
  did_select, called_back, asked_loop, reallocated, made_fifo, unlinked, Trace,
}
use fifo.Os.Balance.{
  is_fd, is_block, times, block_times, opened_count, closed_count, allocated_count, freed_count,
}
use fifo.Worker.Emits.{Permits}

-- the address of the newest block
unfoldable pub newest_block : Trace → ℕ
newest_block [] = 0
newest_block (allocated p size ∷ t) = p
newest_block (_ ∷ t) = newest_block t

-- how often the descriptor `x` was handed to a worker: `pthread_create` has started it if it returned
-- 0, and then it has the two descriptors of its instance
unfoldable pub handed_count : ℤ → Trace → ℕ
handed_count x [] = 0
handed_count x (created requestfd replyfd r ∷ t) =
    (if eqb_ℤ r (pos 0) then is_fd x requestfd + is_fd x replyfd else 0) + handed_count x t
handed_count x (_ ∷ t) = handed_count x t

-- how often the block `y` was handed to a worker that was started: it is that of its instance, the
-- newest one
unfoldable pub handed_blocks : ℕ → Trace → ℕ
handed_blocks y [] = 0
handed_blocks y (created requestfd replyfd r ∷ t) =
    (if eqb_ℤ r (pos 0) then is_block y (newest_block t) else 0) + handed_blocks y t
handed_blocks y (_ ∷ t) = handed_blocks y t

-- Since `t` the run has opened each descriptor as often as it has closed it or handed it to a worker,
-- and once more for each time that it is in `fds`; and it has allocated each block as often as it has
-- freed it or handed it to a worker, and once more for each time that it is in `blocks`.
pub record Holds (fds : List ℤ) (blocks : List ℕ) (t u : Trace) : Type 0 where
  pub descriptors :
      (x : ℤ)
      → opened_count x u + closed_count x t + handed_count x t
        ≡ opened_count x t + closed_count x u + handed_count x u + times x fds
  pub memory :
      (y : ℕ)
      → allocated_count y u + freed_count y t + handed_blocks y t
        ≡ allocated_count y t + freed_count y u + handed_blocks y u + block_times y blocks

pub Holds-start : (t : Trace) → Holds [] [] t t
Holds-start t = record { descriptors = λ x. omega arith; memory = λ y. omega arith }

pub Holds-swap :
    {x y : ℤ} {k : List ℤ} {a : List ℕ} {t u : Trace}
    → Holds (x ∷ y ∷ k) a t u
    → Holds (y ∷ x ∷ k) a t u
Holds-swap h = record {
  descriptors = λ z. omega (arith, h.descriptors z);
  memory = λ z. h.memory z;
}

-- The third is brought to the front.
pub Holds-to_front :
    {x y z : ℤ} {a : List ℕ} {t u : Trace}
    → Holds (x ∷ y ∷ z ∷ []) a t u
    → Holds (z ∷ x ∷ y ∷ []) a t u
Holds-to_front h = record {
  descriptors = λ fd. omega (arith, h.descriptors fd);
  memory = λ y. h.memory y;
}

-- an event that takes nothing and gives nothing back
abbrev pub IsNeutral : Event → Type 0
IsNeutral (did_read fd n got) = Unit {0}
IsNeutral (did_write fd bytes r) = Unit {0}
IsNeutral (did_select fd timeout rc) = Unit {0}
IsNeutral (called_back request reply) = Unit {0}
IsNeutral (asked_loop answer) = Unit {0}
IsNeutral _ = ⊥

pub IsNeutral-Permits : Permits IsNeutral
IsNeutral-Permits = record {
  reads = λ fd n got. tt;
  selects = λ fd timeout rc. tt;
  callbacks = λ request reply. tt;
  frames = λ fd r m body frame p q is. tt;
}

module _ {k : List ℤ} {a : List ℕ} {t u : Trace} where
  pub neutral : (e : Event) → IsNeutral e → Holds k a t u → Holds k a t (e ∷ u)
  unfolding opened_count closed_count allocated_count freed_count handed_count handed_blocks
  neutral (did_read fd n got) p h = record {
    descriptors = λ x. omega (arith, h.descriptors x);
    memory = λ y. omega (arith, h.memory y);
  }
  neutral (did_write fd bytes r) p h = record {
    descriptors = λ x. omega (arith, h.descriptors x);
    memory = λ y. omega (arith, h.memory y);
  }
  neutral (did_select fd timeout rc) p h = record {
    descriptors = λ x. omega (arith, h.descriptors x);
    memory = λ y. omega (arith, h.memory y);
  }
  neutral (called_back request reply) p h = record {
    descriptors = λ x. omega (arith, h.descriptors x);
    memory = λ y. omega (arith, h.memory y);
  }
  neutral (asked_loop answer) p h = record {
    descriptors = λ x. omega (arith, h.descriptors x);
    memory = λ y. omega (arith, h.memory y);
  }
  neutral (allocated _ _) p h = elim p [ ]
  neutral (freed _) p h = elim p [ ]
  neutral (reallocated _ _ _) p h = elim p [ ]
  neutral (made_fifo _ _) p h = elim p [ ]
  neutral (opened _ _ _) p h = elim p [ ]
  neutral (closed _) p h = elim p [ ]
  neutral (unlinked _) p h = elim p [ ]
  neutral (created _ _ _) p h = elim p [ ]

  pub Holds-open_failed :
      (path : FilePath) (flags : Flags) (fd : ℤ)
      → eqb_ℤ fd minus_one ≡ true
      → Holds k a t u
      → Holds k a t (opened path flags fd ∷ u)
  unfolding opened_count closed_count allocated_count freed_count handed_count handed_blocks
  Holds-open_failed path flags fd e h = record {
    descriptors = λ x. ground (arith, h.descriptors x);
    memory = λ y. ground (arith, h.memory y);
  }

  pub Holds-opened :
      (path : FilePath) (flags : Flags) (fd : ℤ)
      → eqb_ℤ fd minus_one ≡ false
      → Holds k a t u
      → Holds (fd ∷ k) a t (opened path flags fd ∷ u)
  unfolding opened_count closed_count allocated_count freed_count handed_count handed_blocks
  Holds-opened path flags fd e h = record {
    descriptors = λ x. ground (arith, h.descriptors x);
    memory = λ y. ground (arith, h.memory y);
  }

  pub Holds-closed : (fd : ℤ) → Holds (fd ∷ k) a t u → Holds k a t (closed fd ∷ u)
  unfolding opened_count closed_count allocated_count freed_count handed_count handed_blocks
  Holds-closed fd h = record {
    descriptors = λ x. omega (arith, h.descriptors x);
    memory = λ y. omega (arith, h.memory y);
  }

  pub Holds-allocated : (p size : ℕ) → Holds k a t u → Holds k (p ∷ a) t (allocated p size ∷ u)
  unfolding opened_count closed_count allocated_count freed_count handed_count handed_blocks
  Holds-allocated p size h = record {
    descriptors = λ x. omega (arith, h.descriptors x);
    memory = λ y. omega (arith, h.memory y);
  }

  pub Holds-freed : (p : ℕ) → Holds k (p ∷ a) t u → Holds k a t (freed p ∷ u)
  unfolding opened_count closed_count allocated_count freed_count handed_count handed_blocks
  Holds-freed p h = record {
    descriptors = λ x. omega (arith, h.descriptors x);
    memory = λ y. omega (arith, h.memory y);
  }

  pub Holds-unlinked : (path : FilePath) → Holds k a t u → Holds k a t (unlinked path ∷ u)
  unfolding opened_count closed_count allocated_count freed_count handed_count handed_blocks
  Holds-unlinked path h = record {
    descriptors = λ x. omega (arith, h.descriptors x);
    memory = λ y. omega (arith, h.memory y);
  }

  pub Holds-created :
      (requestfd replyfd r : ℤ) (p size : ℕ)
      → eqb_ℤ r (pos 0) ≡ true
      → Holds (replyfd ∷ requestfd ∷ k) a t u
      → Holds k a t (created requestfd replyfd r ∷ allocated p size ∷ u)
  unfolding opened_count closed_count allocated_count freed_count handed_count handed_blocks
      newest_block
  Holds-created requestfd replyfd r p size e h = record {
    descriptors = λ x. rw e (omega (arith, h.descriptors x));
    memory = λ y. rw e (omega (arith, h.memory y));
  }

times-append : (x : ℤ) (fds fds' : List ℤ) → times x (fds ++ fds') ≡ times x fds + times x fds'
times-append x [] fds' = omega arith
times-append x (fd ∷ fds) fds' = omega (arith, times-append x fds fds')

block_times-append :
    (y : ℕ) (ps ps' : List ℕ) → block_times y (ps ++ ps') ≡ block_times y ps + block_times y ps'
block_times-append y [] ps' = omega arith
block_times-append y (p ∷ ps) ps' = omega (arith, block_times-append y ps ps')

-- What was held before and what was taken since.
pub Holds-trans :
    {j k : List ℤ} {i a : List ℕ} {t u v : Trace}
    → Holds j i t u
    → Holds k a u v
    → Holds (k ++ j) (a ++ i) t v
Holds-trans {j} {k} {i} {a} h h' = record {
  descriptors = λ x. omega (arith, h.descriptors x, h'.descriptors x, times-append x k j);
  memory = λ y. omega (arith, h.memory y, h'.memory y, block_times-append y a i);
}

pub Holds-Extends :
    {k : List ℤ} {a : List ℕ} {t u v : Trace}
    → Holds k a t u
    → Extends IsNeutral u v
    → Holds k a t v
Holds-Extends h same = h
Holds-Extends h (newer {e = e} p rest) = neutral e p (Holds-Extends h rest)
