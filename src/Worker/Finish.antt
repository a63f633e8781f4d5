-- ===== src/Worker/Finish.antt =====
-- The end of a worker: it gives back what it was started with, and nothing before.
use fifo.Prelude.{◌∙◌, length, ℕ, ◌≡◌, refl, ◌≢◌, false, ◌∷◌, ◌==◌, arith}
use fifo.Os.{
  Os, Event, freed, closed, Trace, Run, done, exited, fault, out_of_fuel, and_then, mem_free,
}
use fifo.Effect.Emits.{Extends, trace_of}
use fifo.Effect.Yields.{YieldsRun}
use fifo.Worker.{OnPipemsg, PipeInstance, pipe_instance_free, worker_loop, client_fifo_worker}
use fifo.Worker.Emits.{Permits, worker_loop-Emits}
use fifo.Worker.Keeps.{KeepsLength, IsKeptBy, worker_loop-Yields}

-- the instance of the same client
pub record SameClient (inst inst' : PipeInstance) : Type 0 where
  pub address : inst'.address ≡ inst.address
  pub requestfd : inst'.requestfd ≡ inst.requestfd
  pub replyfd : inst'.replyfd ≡ inst.replyfd

-- Nothing is closed or freed.
abbrev pub IsKept : Event → Type 0
IsKept (closed fd) = ⊥
IsKept (freed p) = ⊥
IsKept _ = Unit {0}

IsKept-Permits : Permits IsKept
IsKept-Permits = record {
  reads = λ fd n got. tt;
  selects = λ fd timeout rc. tt;
  callbacks = λ request reply. tt;
  frames = λ fd r m body frame p q is. tt;
}

-- The fields that name the client are assigned nowhere.
SameClient-fields :
    {start inst inst' : PipeInstance}
    → SameClient start inst
    → inst'.address ≡ inst.address
    → inst'.requestfd ≡ inst.requestfd
    → inst'.replyfd ≡ inst.replyfd
    → SameClient start inst'
SameClient-fields s a q r = record {
  address = a ∙ s.address;
  requestfd = q ∙ s.requestfd;
  replyfd = r ∙ s.replyfd;
}

SameClient-IsKeptBy :
    (pipemsgcb : OnPipemsg) (start : PipeInstance) → IsKeptBy pipemsgcb (SameClient start)
SameClient-IsKeptBy pipemsgcb start = record {
  with_timeout = λ inst left s. SameClient-fields s refl refl refl;
  with_request = λ inst msg s. SameClient-fields s refl refl refl;
  with_reply = λ inst t s. SameClient-fields s refl refl refl;
  with_cut = λ inst reply s. SameClient-fields s refl refl refl;
}

-- A run that ends gives back the two descriptors and the memory of `inst`, as its last three events
-- and only then; a run that does not end gives back nothing.
abbrev pub Finished : PipeInstance → Trace → Run (Unit {0}) → Type 0
Finished inst t (done _ u) =
    (v : Trace) × Extends IsKept t v
    × (u ≡ freed inst.address ∷ closed inst.replyfd ∷ closed inst.requestfd ∷ v)
Finished inst t (exited u) = Extends IsKept t u
Finished inst t (fault u) = Extends IsKept t u
Finished inst t (out_of_fuel u) = Extends IsKept t u

pipe_instance_free-Finished :
    (inst : PipeInstance) (t : Trace) (r : Run PipeInstance)
    → (inst.address == 0) ≡ false
    → Extends IsKept t (trace_of r)
    → YieldsRun (SameClient inst) r
    → Finished inst t (and_then r pipe_instance_free)
unfolding pipe_instance_free mem_free
pipe_instance_free-Finished inst t (done inst' u) some_address kept s =
    rw (s.address, s.requestfd, s.replyfd, some_address) (u, kept, refl)
pipe_instance_free-Finished inst t (exited u) some_address kept s = kept
pipe_instance_free-Finished inst t (fault u) some_address kept s = kept
pipe_instance_free-Finished inst t (out_of_fuel u) some_address kept s = kept

-- Whatever the system and the client do, if the reply has its 4096 bytes and the callback leaves it
-- them, and the instance is not at NULL: while the worker runs it closes and frees nothing, and when it ends it
-- closes the two pipes and frees the instance, each once.
pub client_fifo_worker-Finished :
    (os : Os) (pipemsgcb : OnPipemsg) (rounds fuel : ℕ) (inst : PipeInstance) (t : Trace)
    → KeepsLength pipemsgcb
    → length inst.reply ≡ 4096
    → inst.address ≢ 0
    → Finished inst t (client_fifo_worker os pipemsgcb rounds fuel inst t)
unfolding client_fifo_worker
client_fifo_worker-Finished os pipemsgcb rounds fuel inst t keeps whole some_address =
    pipe_instance_free-Finished inst t (worker_loop os pipemsgcb rounds fuel inst t) (ground arith)
      ((worker_loop-Emits IsKept-Permits os pipemsgcb keeps rounds fuel inst whole).emits t)
      ((worker_loop-Yields os pipemsgcb (SameClient-IsKeptBy pipemsgcb inst) rounds fuel inst
          (record { address = refl; requestfd = refl; replyfd = refl })).yields
        t)
