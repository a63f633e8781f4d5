-- ===== src/Windows/Balance.antt =====
-- What the code of src/fifo-win.c has taken from the system and not given back.
use fifo.Prelude.{ℕ, ◌+◌, ◌≡◌, true, false, [], ◌∷◌, List, ◌==◌, if◌then◌else◌, Bool, arith}
use fifo.Prelude.Int.{ℤ, pos, eqb_ℤ}
use fifo.Os.{FilePath}
use fifo.Windows.System.{
  Trace, allocated, freed, opened, waited_for_pipe, set_read_mode, closed_handle, created_event,
  created_pipe, global_allocated, global_freed, Event, connected, event_set, waited, got_result,
  asked_loop, read_started, write_started, called_back, disconnected, invalid_handle,
}

-- 1 for this handle, 0 for any other
unfoldable pub is_handle : ℤ → ℤ → ℕ
is_handle x h = if eqb_ℤ x h then 1 else 0

-- 1 for this block, 0 for any other
unfoldable pub is_block : ℕ → ℕ → ℕ
is_block y p = if y == p then 1 else 0

-- how often the handle `x` is in a list
abbrev pub times : ℤ → List ℤ → ℕ
times x [] = 0
times x (h ∷ hs) = is_handle x h + times x hs

-- how often the block `y` is in a list
abbrev pub block_times : ℕ → List ℕ → ℕ
block_times y [] = 0
block_times y (p ∷ ps) = is_block y p + block_times y ps

-- how often the handle `x` was made: the files opened and the events and pipes created, each call that
-- did not fail
unfoldable pub handles_made : ℤ → Trace → ℕ
handles_made x [] = 0
handles_made x (opened path h ∷ t) =
    (if eqb_ℤ h invalid_handle then 0 else is_handle x h) + handles_made x t
handles_made x (created_event h ∷ t) =
    (if eqb_ℤ h (pos 0) then 0 else is_handle x h) + handles_made x t
handles_made x (created_pipe path timeout h ∷ t) =
    (if eqb_ℤ h invalid_handle then 0 else is_handle x h) + handles_made x t
handles_made x (_ ∷ t) = handles_made x t

unfoldable pub handles_closed : ℤ → Trace → ℕ
handles_closed x [] = 0
handles_closed x (closed_handle h ∷ t) = is_handle x h + handles_closed x t
handles_closed x (_ ∷ t) = handles_closed x t

-- the blocks of `calloc` and of `GlobalAlloc`
unfoldable pub blocks_made : ℕ → Trace → ℕ
blocks_made y [] = 0
blocks_made y (allocated p size ∷ t) = is_block y p + blocks_made y t
blocks_made y (global_allocated p ∷ t) = (if p == 0 then 0 else is_block y p) + blocks_made y t
blocks_made y (_ ∷ t) = blocks_made y t

unfoldable pub blocks_freed : ℕ → Trace → ℕ
blocks_freed y [] = 0
blocks_freed y (freed p ∷ t) = is_block y p + blocks_freed y t
blocks_freed y (global_freed p ∷ t) = is_block y p + blocks_freed y t
blocks_freed y (_ ∷ t) = blocks_freed y t

-- Since `t` the run has made each handle as often as it has closed it, and once more for each time
-- that it is in `hs`; and it has allocated each block as often as it has freed it, and once more for
-- each time that it is in `ps`.
pub record Holds (hs : List ℤ) (ps : List ℕ) (t u : Trace) : Type 0 where
  pub handles :
      (x : ℤ)
      → handles_made x u + handles_closed x t ≡ handles_made x t + handles_closed x u + times x hs
  pub memory :
      (y : ℕ)
      → blocks_made y u + blocks_freed y t ≡ blocks_made y t + blocks_freed y u + block_times y ps

pub Holds-start : (t : Trace) → Holds [] [] t t
Holds-start t = record { handles = λ x. omega arith; memory = λ y. omega arith }

-- The order of what is held does not matter.
pub Holds-same :
    {hs hs' : List ℤ} {ps ps' : List ℕ} {t u : Trace}
    → ((x : ℤ) → times x hs ≡ times x hs')
    → ((y : ℕ) → block_times y ps ≡ block_times y ps')
    → Holds hs ps t u
    → Holds hs' ps' t u
Holds-same same same' h = record {
  handles = λ x. omega (arith, h.handles x, same x);
  memory = λ y. omega (arith, h.memory y, same' y);
}

module _ {k : List ℤ} {b : List ℕ} {t u : Trace} where
  pub Holds-open_failed :
      (path : FilePath) (h : ℤ)
      → eqb_ℤ h invalid_handle ≡ true
      → Holds k b t u
      → Holds k b t (opened path h ∷ u)
  unfolding handles_made handles_closed blocks_made blocks_freed
  Holds-open_failed path h e holds = record {
    handles = λ x. ground (arith, holds.handles x);
    memory = λ y. ground (arith, holds.memory y);
  }

  pub Holds-opened :
      (path : FilePath) (h : ℤ)
      → eqb_ℤ h invalid_handle ≡ false
      → Holds k b t u
      → Holds (h ∷ k) b t (opened path h ∷ u)
  unfolding handles_made handles_closed blocks_made blocks_freed
  Holds-opened path h e holds = record {
    handles = λ x. ground (arith, holds.handles x);
    memory = λ y. ground (arith, holds.memory y);
  }

  pub Holds-no_event :
      (h : ℤ) → eqb_ℤ h (pos 0) ≡ true → Holds k b t u → Holds k b t (created_event h ∷ u)
  unfolding handles_made handles_closed blocks_made blocks_freed
  Holds-no_event h e holds = record {
    handles = λ x. ground (arith, holds.handles x);
    memory = λ y. ground (arith, holds.memory y);
  }

  pub Holds-event :
      (h : ℤ) → eqb_ℤ h (pos 0) ≡ false → Holds k b t u → Holds (h ∷ k) b t (created_event h ∷ u)
  unfolding handles_made handles_closed blocks_made blocks_freed
  Holds-event h e holds = record {
    handles = λ x. ground (arith, holds.handles x);
    memory = λ y. ground (arith, holds.memory y);
  }

  pub Holds-closed : (h : ℤ) → Holds (h ∷ k) b t u → Holds k b t (closed_handle h ∷ u)
  unfolding handles_made handles_closed blocks_made blocks_freed
  Holds-closed h holds = record {
    handles = λ x. omega (arith, holds.handles x);
    memory = λ y. omega (arith, holds.memory y);
  }

  pub Holds-allocated : (p size : ℕ) → Holds k b t u → Holds k (p ∷ b) t (allocated p size ∷ u)
  unfolding handles_made handles_closed blocks_made blocks_freed
  Holds-allocated p size holds = record {
    handles = λ x. omega (arith, holds.handles x);
    memory = λ y. omega (arith, holds.memory y);
  }

  pub Holds-freed : (p : ℕ) → Holds k (p ∷ b) t u → Holds k b t (freed p ∷ u)
  unfolding handles_made handles_closed blocks_made blocks_freed
  Holds-freed p holds = record {
    handles = λ x. omega (arith, holds.handles x);
    memory = λ y. omega (arith, holds.memory y);
  }

  pub Holds-waited :
      (path : FilePath) (timeout : ℤ) (ready : Bool)
      → Holds k b t u
      → Holds k b t (waited_for_pipe path timeout ready ∷ u)
  unfolding handles_made handles_closed blocks_made blocks_freed
  Holds-waited path timeout ready holds = record {
    handles = λ x. omega (arith, holds.handles x);
    memory = λ y. omega (arith, holds.memory y);
  }

  pub Holds-read_mode : (h : ℤ) (ok : Bool) → Holds k b t u → Holds k b t (set_read_mode h ok ∷ u)
  unfolding handles_made handles_closed blocks_made blocks_freed
  Holds-read_mode h ok holds = record {
    handles = λ x. omega (arith, holds.handles x);
    memory = λ y. omega (arith, holds.memory y);
  }

  pub Holds-pipe :
      (path : FilePath) (timeout h : ℤ)
      → eqb_ℤ h invalid_handle ≡ false
      → Holds k b t u
      → Holds (h ∷ k) b t (created_pipe path timeout h ∷ u)
  unfolding handles_made handles_closed blocks_made blocks_freed
  Holds-pipe path timeout h e holds = record {
    handles = λ x. ground (arith, holds.handles x);
    memory = λ y. ground (arith, holds.memory y);
  }

  pub Holds-global :
      (p : ℕ) → (p == 0) ≡ false → Holds k b t u → Holds k (p ∷ b) t (global_allocated p ∷ u)
  unfolding handles_made handles_closed blocks_made blocks_freed
  Holds-global p e holds = record {
    handles = λ x. ground (arith, holds.handles x);
    memory = λ y. ground (arith, holds.memory y);
  }

  pub Holds-global_freed : (p : ℕ) → Holds k (p ∷ b) t u → Holds k b t (global_freed p ∷ u)
  unfolding handles_made handles_closed blocks_made blocks_freed
  Holds-global_freed p holds = record {
    handles = λ x. omega (arith, holds.handles x);
    memory = λ y. omega (arith, holds.memory y);
  }

-- the calls of the server that take nothing and give nothing back
pub data IsNeutral : Event → Type 0 where
  connects : (h : ℤ) (ok : Bool) → IsNeutral (connected h ok)
  sets : (h : ℤ) (ok : Bool) → IsNeutral (event_set h ok)
  waits : (h : ℤ) → IsNeutral (waited h)
  results : (h : ℤ) (ok : Bool) → IsNeutral (got_result h ok)
  asks : (answer : ℤ) → IsNeutral (asked_loop answer)
  reads : (h : ℤ) (ok : Bool) → IsNeutral (read_started h ok)
  writes : (h : ℤ) (bytes : List ℕ) (ok : Bool) → IsNeutral (write_started h bytes ok)
  calls : (request reply : List ℕ) → IsNeutral (called_back request reply)
  disconnects : (h : ℤ) (ok : Bool) → IsNeutral (disconnected h ok)

module _ {k : List ℤ} {b : List ℕ} {t u : Trace} where
  pub neutral : {e : Event} → IsNeutral e → Holds k b t u → Holds k b t (e ∷ u)
  unfolding handles_made handles_closed blocks_made blocks_freed
  neutral (connects h ok) holds = record {
    handles = λ x. omega (arith, holds.handles x);
    memory = λ y. omega (arith, holds.memory y);
  }
  neutral (sets h ok) holds = record {
    handles = λ x. omega (arith, holds.handles x);
    memory = λ y. omega (arith, holds.memory y);
  }
  neutral (waits h) holds = record {
    handles = λ x. omega (arith, holds.handles x);
    memory = λ y. omega (arith, holds.memory y);
  }
  neutral (results h ok) holds = record {
    handles = λ x. omega (arith, holds.handles x);
    memory = λ y. omega (arith, holds.memory y);
  }
  neutral (asks answer) holds = record {
    handles = λ x. omega (arith, holds.handles x);
    memory = λ y. omega (arith, holds.memory y);
  }
  neutral (reads h ok) holds = record {
    handles = λ x. omega (arith, holds.handles x);
    memory = λ y. omega (arith, holds.memory y);
  }
  neutral (writes h bytes ok) holds = record {
    handles = λ x. omega (arith, holds.handles x);
    memory = λ y. omega (arith, holds.memory y);
  }
  neutral (calls request reply) holds = record {
    handles = λ x. omega (arith, holds.handles x);
    memory = λ y. omega (arith, holds.memory y);
  }
  neutral (disconnects h ok) holds = record {
    handles = λ x. omega (arith, holds.handles x);
    memory = λ y. omega (arith, holds.memory y);
  }
