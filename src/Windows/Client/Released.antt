-- ===== src/Windows/Client/Released.antt =====
-- `fifo_client_new` of src/fifo-win.c as a whole: what it returns and what it leaves open.
use fifo.Prelude.{[], ◌≡◌, Option, none, some, ◌∷◌}
use fifo.Prelude.Int.{ℤ}
use fifo.Effect.{Run, done, exited, fault, out_of_fuel}
use fifo.Effect.Ends.{Ends}
use fifo.Os.{FilePath}
use fifo.Api.{fifo_s_ok, fifo_e_failed}
use fifo.Windows.System.{System, Event, Trace}
use fifo.Windows.Balance.{Holds}
use fifo.Windows.Client.{Client, client_free, stored_timeout}

-- A failure leaves nothing open and nothing allocated; a success leaves a client for the name and
-- the timeout, and `fifo_client_free` gives back all that it holds. The loop has nothing open while
-- it waits.
abbrev pub ClientReleased : FilePath → ℤ → Trace → Run Event (ℤ × Option Client) → Type 0
ClientReleased pipename wait_timeout t (done (rc, none) u) = (rc ≡ fifo_e_failed) × Holds [] [] t u
ClientReleased pipename wait_timeout t (done (rc, some client) u) =
    (rc ≡ fifo_s_ok)
    × (client.pipename ≡ pipename)
    × (client.wait_timeout ≡ stored_timeout wait_timeout)
    × Ends (λ _ v. Holds [] [] t v) (client_free client u)
ClientReleased pipename wait_timeout t (exited u) = Unit {0}
ClientReleased pipename wait_timeout t (fault u) = ⊥
ClientReleased pipename wait_timeout t (out_of_fuel u) = Holds [] [] t u

module _ (sys : System) (pipename : FilePath) (wait_timeout : ℤ) (t0 : Trace) where
  -- what the loop leaves: a handle, or nothing
  abbrev Opened : Run Event (Option ℤ) → Type 0
  Opened (done none u) = Holds [] [] t0 u
  Opened (done (some h) u) = Holds (h ∷ []) [] t0 u
  Opened (exited u) = ⊥
  Opened (fault u) = ⊥
  Opened (out_of_fuel u) = Holds [] [] t0 u
