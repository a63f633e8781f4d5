-- ===== src/Server/Visits/Rounds.antt =====
-- One round of the server's loop for each thing that comes to its pipe.
use fifo.Prelude.{
  length-drop, length-append, ℕ, ◌+◌, ◌≡◌, ◌≤◌, ap, ◌∙◌, sym, true, List, [], ◌∷◌, ◌++◌, length,
  take, arith,
}
use fifo.Prelude.Int.{pos}
use fifo.Os.{Os, Trace, done}
use fifo.Message.{msgbuf}
use fifo.Message.Store.{overlay, length-overlay}
use fifo.Reader.Arrived.{arrived-size, arrived-body}
use fifo.Reader.Assembly.{readpipemsg_nb-Delivers}
use fifo.Reader.Delivery.{Arrival, payload}
use fifo.Timeout.Select.{answer, select_readable_lem}
use fifo.Server.Accept.{Acceptor, accept_client, accept_round}
use fifo.Server.Accepts.{Announces, worker_started, accept_client-Announces}
use fifo.Server.Visits.{IsAnnouncement, waited, ready, heard, greeted, Welcomes}

module _ (os : Os) (fuel : ℕ) where
  pub round-nobody :
      (st : Acceptor) (t : Trace)
      → (answer os (st.server).accept_pipefd (st.server).connect_timeout t).0 ≡ pos 0
      → accept_round os fuel st t ≡ done (true, waited os st t) (ready os st t)
  unfolding accept_round
  round-nobody st t e =
      rw (select_readable_lem os (st.server).accept_pipefd (st.server).connect_timeout t, e)

  round-ready :
      (st : Acceptor) (t : Trace)
      → (answer os (st.server).accept_pipefd (st.server).connect_timeout t).0 ≡ pos 1
      → accept_round os fuel st t ≡ accept_client os fuel (waited os st t) (ready os st t)
  unfolding accept_round
  round-ready st t e =
      rw (select_readable_lem os (st.server).accept_pipefd (st.server).connect_timeout t, e)

  module _ (prefix suffix header : List ℕ) (arrivals : List Arrival)
      (is : IsAnnouncement prefix fuel suffix header arrivals) where
    payload-length : length (payload arrivals) ≡ length suffix + 1
    payload-length = ap length is.bytes ∙ length-append suffix (0 ∷ [])

    -- the message behind the read
    arrived-Announces :
        (st : Acceptor)
        → length st.clientmsg ≡ 4096
        → Announces suffix (overlay (header ++ payload arrivals) st.clientmsg)
    arrived-Announces st whole =
        let body = payload arrivals in
        let msg = overlay (header ++ body) st.clientmsg in
        let small : length (header ++ body) ≤ length st.clientmsg =
          omega (arith, length-append header body, payload-length, is.four, is.short) in
        record {
          free = is.free;
          size = arrived-size header body st.clientmsg is.four ∙ is.size;
          bytes =
              ap (λ n. take n (msgbuf msg)) (sym payload-length)
              ∙ arrived-body header body st.clientmsg is.four
              ∙ is.bytes;
          room = omega (
            arith,
            length-drop 4 msg,
            length-overlay (header ++ body) st.clientmsg small,
            is.short,
          );
        }

    pub round-client :
        (st : Acceptor) (t : Trace)
        → length st.clientmsg ≡ 4096
        → (st.server).namelen ≡ length prefix
        → take (length prefix) st.client_fifo ≡ prefix
        → Welcomes os (prefix ++ suffix) header arrivals st t
        → accept_round os fuel st t
          ≡ done
              (true, greeted os (prefix ++ suffix) header arrivals st t)
              (worker_started os (prefix ++ suffix) (heard os header arrivals st t))
    round-client st t whole len named welcomes =
        let fd = (st.server).accept_pipefd in
        round-ready st t welcomes.comes
        ∙ accept_client-Announces os fuel (waited os st t) prefix suffix
            (overlay (header ++ payload arrivals) st.clientmsg) (ready os st t)
            (heard os header arrivals st t)
            (readpipemsg_nb-Delivers os fd fuel arrivals header st.clientmsg (ready os st t) whole
              is.four (is.size ∙ ap pos (sym payload-length))
              (omega (arith, payload-length, is.short)) is.enough welcomes.got welcomes.delivered)
            (arrived-Announces st whole) (ap (λ n. take n st.client_fifo) len ∙ named) len is.short
            welcomes.grants
