-- ===== src/Windows/Server/Loop.antt =====
-- The loop of the server of src/fifo-win.c, round by round.
use fifo.Effect.{Run}
use fifo.Effect.Outcomes.{Stops, Outcome}
use fifo.Windows.System.{System, Event, Trace}
use fifo.Windows.Instance.Owned.{Owned}
use fifo.Windows.Server.{Server, Listener}
use fifo.Windows.Server.Invariant.{OwnedByServer}

-- What is held since `t` is what some state of the loop owns.
abbrev pub OwnedBySome : Trace → Trace → Type 0
OwnedBySome t u = (st : Listener) × OwnedByServer t st u

abbrev pub serving : Trace → Stops Event
serving t = record { on_exit = λ u. Unit {0}; on_fault = λ u. ⊥; on_fuel = λ u. OwnedBySome t u }

-- So it is when the loop returns, and after any number of rounds.
abbrev pub Serves : Trace → Run Event (Unit {0}) → Type 0
Serves t = Outcome (serving t) (λ _ u. OwnedBySome t u)
