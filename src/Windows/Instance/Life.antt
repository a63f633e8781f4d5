-- ===== src/Windows/Instance/Life.antt =====
-- The life of an instance: whatever completes in whatever order, it is released once at most.
use fifo.Prelude.{
  ℕ, ◌≡◌, refl, ap, ◌∙◌, ◌&&◌, not, Bool, Bool-cases, inl, inr, true, false, Option, none, some,
  List, [], ◌∷◌, ◌==◌,
}
use fifo.Prelude.Int.{ℤ, pos}
use mathlib.Core.Path.{subst}
use fifo.Effect.Emits.{Extends, same, newer, Extends-trans}
use fifo.Effect.{Run, and_then, done, exited, fault, out_of_fuel, pure, ◌>>=◌}
use fifo.Message.{set_msgsz}
use fifo.Windows.System.{
  Completion, write_ended, read_ended, System, Event, Trace, disconnected, closed_handle,
  global_freed, Cmd,
}
use fifo.Windows.Instance.{
  complete, OnPipemsg, PipeInstance, unless_started, disconnect_and_close, expected_written,
  completed_write, cut_reply, completed_read,
}

-- events that end nothing
abbrev pub IsKept : Event → Type 0
IsKept (closed_handle h) = ⊥
IsKept (global_freed p) = ⊥
IsKept (disconnected h ok) = ⊥
IsKept _ = Unit {0}

-- An instance that lives has kept its memory and its pipe, and nothing was given back; one that was
-- released has given back its pipe and then its memory, once and last.
abbrev pub Lives : System → ℕ → ℤ → Trace → Run Event (Option PipeInstance) → Type 0
Lives sys address pipe t (done (some inst) u) =
    (inst.address ≡ address) × (inst.pipe_inst ≡ pipe) × Extends IsKept t u
Lives sys address pipe t (done none u) =
    (v : Trace) × Extends IsKept t v
    × (u
        ≡ global_freed address ∷ closed_handle pipe ∷ disconnected pipe (sys.disconnect v pipe) ∷ v)
Lives sys address pipe t (exited u) = ⊥
Lives sys address pipe t (fault u) = ⊥
Lives sys address pipe t (out_of_fuel u) = ⊥

module _ (sys : System) (pipemsgcb : OnPipemsg) where
  -- The completions of an instance, one after the other; a released one has no more.
  unfoldable pub serve : List Completion → Option PipeInstance → Cmd (Option PipeInstance)
  serve cs none = pure none
  serve [] (some inst) = pure (some inst)
  serve (c ∷ cs) (some inst) = complete sys pipemsgcb c inst >>= serve cs

module _ (sys : System) where
  unless_started-Lives :
      (started : Bool) (inst : PipeInstance) (t u : Trace)
      → (inst.address == 0) ≡ false
      → Extends IsKept t u
      → Lives sys inst.address inst.pipe_inst t (unless_started sys started inst u)
  unfolding unless_started disconnect_and_close
  unless_started-Lives true inst t u some_address kept = (refl, refl, kept)
  unless_started-Lives false inst t u some_address kept = rw some_address (u, kept, refl)

  completed_write-Lives :
      (err written : ℕ) (inst : PipeInstance) (t : Trace)
      → (inst.address == 0) ≡ false
      → Lives sys inst.address inst.pipe_inst t (completed_write sys err written inst t)
  unfolding completed_write
  completed_write-Lives err written inst t some_address =
      elim (Bool-cases ((err == 0) && (written == expected_written inst.reply))) [
        | inl ok ↦ rw ok (unless_started-Lives _ inst t _ some_address (newer tt same))
        | inr bad ↦ rw bad (unless_started-Lives false inst t t some_address same)
      ]

  completed_read-Lives :
      (pipemsgcb : OnPipemsg) (err bytes_read : ℕ) (inst : PipeInstance) (t : Trace)
      → (inst.address == 0) ≡ false
      → Lives sys inst.address inst.pipe_inst t (completed_read sys pipemsgcb err bytes_read inst t)
  unfolding completed_read
  completed_read-Lives pipemsgcb err bytes_read inst t some_address =
      let reply = pipemsgcb t inst.request (set_msgsz (pos 0) inst.reply) in
      elim (Bool-cases ((err == 0) && not (bytes_read == 0))) [
        | inl ok ↦ rw ok (
            unless_started-Lives _ (record inst { reply = (cut_reply reply).1 }) t _ some_address
              (newer tt (newer tt same)))
        | inr bad ↦ rw bad (unless_started-Lives false inst t t some_address same)
      ]

  complete-Lives :
      (pipemsgcb : OnPipemsg) (c : Completion) (inst : PipeInstance) (t : Trace)
      → (inst.address == 0) ≡ false
      → Lives sys inst.address inst.pipe_inst t (complete sys pipemsgcb c inst t)
  complete-Lives pipemsgcb (write_ended err written) inst t some_address =
      completed_write-Lives err written inst t some_address
  complete-Lives pipemsgcb (read_ended err bytes_read request) inst t some_address =
      completed_read-Lives pipemsgcb err bytes_read (record inst { request = request }) t
        some_address

module _ (sys : System) (pipemsgcb : OnPipemsg) where
  -- One routine, and then the rest of the life.
  then-Lives :
      (cs : List Completion) (address : ℕ) (pipe : ℤ) (t : Trace)
      (r : Run Event (Option PipeInstance))
      → Lives sys address pipe t r
      → ((inst : PipeInstance) (u : Trace)
          → inst.address ≡ address
          → inst.pipe_inst ≡ pipe
          → Extends IsKept t u
          → Lives sys address pipe t (serve sys pipemsgcb cs (some inst) u))
      → Lives sys address pipe t (and_then r (serve sys pipemsgcb cs))
  unfolding serve
  then-Lives cs address pipe t (done (some inst) u) (a, p, kept) next = next inst u a p kept
  then-Lives cs address pipe t (done none u) h next = h
  then-Lives cs address pipe t (exited u) h next = absurd h
  then-Lives cs address pipe t (fault u) h next = absurd h
  then-Lives cs address pipe t (out_of_fuel u) h next = absurd h

Lives-later :
    (sys : System) (address : ℕ) (pipe : ℤ) (t u : Trace) (r : Run Event (Option PipeInstance))
    → Extends IsKept t u
    → Lives sys address pipe u r
    → Lives sys address pipe t r
Lives-later sys address pipe t u (done (some inst) w) kept (a, p, later) =
    (a, p, Extends-trans kept later)
Lives-later sys address pipe t u (done none w) kept (v, later, e) = (v, Extends-trans kept later, e)
Lives-later sys address pipe t u (exited w) kept h = h
Lives-later sys address pipe t u (fault w) kept h = h
Lives-later sys address pipe t u (out_of_fuel w) kept h = h

-- Whatever the system answers, whatever operations complete and however: as long as an instance lives
-- it keeps its memory and its pipe and gives nothing back; where a routine releases it, its pipe is
-- disconnected and closed and its memory freed, in this order, once, and nothing comes after.
pub serve-Lives :
    (sys : System) (pipemsgcb : OnPipemsg) (cs : List Completion) (inst : PipeInstance) (t : Trace)
    → (inst.address == 0) ≡ false
    → Lives sys inst.address inst.pipe_inst t (serve sys pipemsgcb cs (some inst) t)
unfolding serve
serve-Lives sys pipemsgcb [] inst t some_address = (refl, refl, same)
serve-Lives sys pipemsgcb (c ∷ cs) inst t some_address =
    then-Lives sys pipemsgcb cs inst.address inst.pipe_inst t (complete sys pipemsgcb c inst t)
      (complete-Lives sys pipemsgcb c inst t some_address)
      (λ inst' u a p kept. Lives-later sys inst.address inst.pipe_inst t u _ kept (
        subst (λ k. Lives sys k inst.pipe_inst u (serve sys pipemsgcb cs (some inst') u)) a
          (subst (λ h. Lives sys inst'.address h u (serve sys pipemsgcb cs (some inst') u)) p
            (serve-Lives sys pipemsgcb cs inst' u (ap (λ k. k == 0) a ∙ some_address)))))
