-- ===== src/Programs/Serving.antt =====
-- A whole run of examples/fifoserver.c: what it leaves behind.
use fifo.Prelude.{List, [], ◌∷◌, List, ℕ}
use fifo.Prelude.Int.{ℤ}
use fifo.Effect.Ends.{Ends}
use fifo.Effect.Outcomes.{Stops, Outcome}
use fifo.Os.{Os, Event, Trace, Run}
use fifo.Server.{Server}
use fifo.Server.Handed.{Holds}
use fifo.Server.Invariant.{LostAtExit}
use fifo.Server.Settled.{Settled}

-- Nothing is held, or the two descriptors of one client.
abbrev pub AtEnd : Trace → Trace → Type 0
AtEnd t u = LostAtExit t u

-- The server has its descriptor and its block.
abbrev pub IsServing : Trace → Trace → Type 0
IsServing t u = (fd : ℤ) × (address : ℕ) × Holds (fd ∷ []) (address ∷ []) t u

-- Behind a run of the program, and while it serves.
abbrev pub at_program_end : Trace → Stops Event
at_program_end t = record {
  on_exit = λ u. AtEnd t u;
  on_fault = λ u. Unit {0};
  on_fuel = λ u. IsServing t u;
}

abbrev pub ServerEnds : Trace → Run (Unit {0}) → Type 0
ServerEnds t = Outcome (at_program_end t) (λ _ u. AtEnd t u)
