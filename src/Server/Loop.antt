-- ===== src/Server/Loop.antt =====
-- The loop of the server never comes to a return.
use fifo.Prelude.{ℕ, Option}
use fifo.Os.{Os, Trace}
use fifo.Effect.Yields.{YieldsRun, Yields-after}
use fifo.Message.{Pipemsg}
use fifo.Server.{Server}
use fifo.Server.Accept.{ServerLoop, accept_loop, server_runforever}

-- `fifo_server_runforever` returns to its caller in no run, whatever the system and the callback
-- answer: what it ends in is `exit`, an access outside an object, or the end of the fuel.
pub server_runforever-never_returns :
    (os : Os) (rounds fuel : ℕ) (servloopcb : Option ServerLoop) (stack : Pipemsg) (server : Server)
    (t : Trace)
    → YieldsRun (λ _. ⊥) (server_runforever os rounds fuel servloopcb stack server t)
unfolding server_runforever
server_runforever-never_returns os rounds fuel servloopcb stack server t =
    (Yields-after (accept_loop os rounds fuel servloopcb _)
        (λ _. record { yields = λ u. tt })).yields
      t
