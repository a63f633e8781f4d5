-- ===== src/Server/Rounds.antt =====
-- The rounds of `fifo_server_runforever`, and its loop as a whole.
use fifo.Prelude.{[], ℕ, Bool-cases, inl, inr}
use fifo.Prelude.Int.{pos, eqb_ℤ}
use fifo.Os.{Os, FilePath, did_select, Trace}
use fifo.Timeout.Select.{asked, answer, left, behind, select_readable_lem}
use fifo.Server.{Server}
use fifo.Server.Accept.{Acceptor, accept_round}
use fifo.Server.Handed.{Holds, neutral}
use fifo.Server.Invariant.{IsReady, Leaves, Ready, StartsThreads, accept_client-Ready}

module _ (os : Os) (starts : StartsThreads os) (server : Server) (prefix : FilePath)
    (t0 : Trace) where
  -- Whatever the system and the client do, if `pthread_create` returns 0 each time: a round of the
  -- server's loop that begins with nothing held, and with the name of the server's pipe in front of
  -- `client_fifo`, ends so, if it does not end the process or leave an array. It
  -- has opened each descriptor as often as it has closed it or handed it to a worker, and allocated
  -- each block as often as it has freed it or handed it to a worker; the server's descriptor, the timeout of its clients and the
  -- length of its name are the same.
  pub accept_round-Ready :
      (fuel : ℕ) (st : Acceptor) (t : Trace)
      → IsReady server prefix st
      → Holds [] [] t0 t
      → Leaves (Ready server prefix) t0 (accept_round os fuel st t)
  unfolding accept_round
  accept_round-Ready fuel st t ready h =
      let srvr = st.server in
      let fd = srvr.accept_pipefd in
      let timeout = srvr.connect_timeout in
      let rc = (answer os fd timeout t).0 in
      let st' = record st { server = record srvr { connect_timeout = left os fd timeout t } } in
      let ready' : IsReady server prefix st' = record {
        accept_pipefd = ready.accept_pipefd;
        client_timeout = ready.client_timeout;
        namelen = ready.namelen;
        name = ready.name;
      } in
      let u = behind os fd timeout t in
      let h' = neutral (did_select fd (asked timeout) rc) tt h in
      elim (Bool-cases (eqb_ℤ rc (pos 1))) [
        | inl one ↦
            rw (select_readable_lem os fd timeout t, one)
              (accept_client-Ready os starts server prefix t0 fuel st' u ready' h')
        | inr other ↦ rw (select_readable_lem os fd timeout t, other) (ready', h')
      ]
