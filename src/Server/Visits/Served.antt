-- ===== src/Server/Visits/Served.antt =====
-- The server of src/fifo.c serves the clients that announce themselves, all and in their order.
use fifo.Prelude.{ℕ, ◌≡◌, length, take}
use fifo.Effect.Ends.{Ends}
use fifo.Effect.Outcomes.{Stops}
use fifo.Os.{Os, FilePath, Event, Trace}
use fifo.Server.{Server}
use fifo.Server.Accept.{Acceptor, ServerLoop}

module _ (os : Os) (prefix : FilePath) (fuel : ℕ) (servloopcb : ServerLoop) where
  -- what the rounds keep of the loop
  record Keeps (st : Acceptor) : Type 0 where
    whole : length st.clientmsg ≡ 4096
    namelen : (st.server).namelen ≡ length prefix
    name : take (length prefix) st.client_fifo ≡ prefix

-- the run ends by `exit`, with this
abbrev pub exits_with : (Trace → Type 0) → Stops Event
exits_with P = record { on_exit = P; on_fault = λ u. ⊥; on_fuel = λ u. ⊥ }
