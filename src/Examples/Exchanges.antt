-- ===== src/Examples/Exchanges.antt =====
-- Runs of a client and a server together.
use fifo.Prelude.{ℕ, ◌≡◌, refl, true, some, List, [], ◌∷◌, ◌++◌, take, length, arith}
use fifo.Client.Granted.{GrantsAll, clnt, connected, run}
use fifo.Prelude.Int.{pos, eqb_ℤ, ◌-ℤ◌}
use fifo.Os.{Os, Trace, did_read, did_write, called_back, done}
use fifo.CString.{strnlen, digits, until_nul}
use fifo.Message.{msgsz, set_msgsz, msgbuf, decode32, encode32, store_bytes, zero_msg}
use fifo.Message.Store.{overlay}
use fifo.Api.{fifo_s_ok, read_suffix}
use fifo.Reader.{readpipemsg_nb}
use fifo.Reader.Delivery.{reads}
use fifo.Worker.{clamp_reply, answer_request}
use fifo.Client.{Client, client_write, client_read}
use fifo.Client.Read.{waited, ready}
use fifo.Client.Connect.{client_new, client_name, announcement}
use fifo.Client.Settled.{reply_name}
use fifo.Server.Accept.{accept_client}
use fifo.Server.Accepts.{worker_started}
use fifo.Exchange.Request.{readpipemsg_nb-client_write}
use fifo.Exchange.Reply.{reply_frame, client_read-answer_request}
use fifo.Exchange.Rendezvous.{accept_client-client_new}
use fifo.Examples.Systems.{
  arrivals, announced, announcing, behind_announcement, announced-read, calm, piecemeal,
  answers_two, instance, server_name, client, acceptor, two_bytes, two_bytes-length, two_bytes-size,
  zero_msg-length,
}

abbrev request : List ℕ
request = 2 ∷ 0 ∷ 0 ∷ 0 ∷ 9 ∷ 8 ∷ []

abbrev header_read : Trace
header_read = did_read (pos 3) 4 (some (2 ∷ 0 ∷ 0 ∷ 0 ∷ [])) ∷ []

readpipemsg_nb-client_write_example :
    (client_write calm client two_bytes []
      ≡ done fifo_s_ok (did_write client.writefd request (pos 6) ∷ []))
    × (readpipemsg_nb piecemeal 4 (pos 3) zero_msg []
        ≡ done (pos 0, overlay request zero_msg) (reads piecemeal (pos 3) arrivals header_read))
    × (msgsz (overlay request zero_msg) ≡ msgsz two_bytes)
    × (take 2 (msgbuf (overlay request zero_msg)) ≡ take 2 (msgbuf two_bytes))
readpipemsg_nb-client_write_example =
    readpipemsg_nb-client_write calm client two_bytes [] 2 piecemeal (pos 3) 4 arrivals zero_msg []
      two_bytes-length two_bytes-size (omega arith) zero_msg-length refl refl
      (refl, (omega arith, refl, refl, (refl, tt))) (omega arith)

two_bytes-frame : reply_frame calm answers_two instance [] ≡ request
unfolding clamp_reply msgsz decode32
two_bytes-frame = refl

-- the reply waits in the pipe of the client
abbrev replied : Os
replied = record calm { read = λ t fd n. some (reply_frame calm answers_two instance []) }

client_read-answer_request_example :
    (answer_request calm answers_two instance []
      ≡ done
          (
            eqb_ℤ
                (pos (length (reply_frame calm answers_two instance [])))
                (pos (clamp_reply two_bytes).0),
            record instance { reply = (clamp_reply two_bytes).1 },
          )
          (did_write instance.replyfd
              (reply_frame calm answers_two instance [])
              (pos (length (reply_frame calm answers_two instance [])))
            ∷ called_back instance.request two_bytes
            ∷ []))
    × (client_read replied client zero_msg []
        ≡ done
            (
              fifo_s_ok,
              waited replied client zero_msg [],
              set_msgsz
                  (pos (length (reply_frame calm answers_two instance [])) -ℤ pos 4)
                  (overlay (reply_frame calm answers_two instance []) zero_msg),
            )
            (did_read client.readfd 4096 (some (reply_frame calm answers_two instance []))
              ∷ ready replied client zero_msg []))
    × (msgsz (
          set_msgsz
            (pos (length (reply_frame calm answers_two instance [])) -ℤ pos 4)
            (overlay (reply_frame calm answers_two instance []) zero_msg))
        ≡ pos 2)
    × (take 2 (
          msgbuf (
            set_msgsz
              (pos (length (reply_frame calm answers_two instance [])) -ℤ pos 4)
              (overlay (reply_frame calm answers_two instance []) zero_msg)))
        ≡ take 2 (msgbuf two_bytes))
client_read-answer_request_example =
    client_read-answer_request calm answers_two instance [] 2 replied client zero_msg []
      two_bytes-length two_bytes-size (omega arith) zero_msg-length refl refl

-- the client of the process 7
abbrev client_seven : Client
client_seven = clnt calm server_name 7 []

announced-sent :
    announcement client_seven.pipename (strnlen server_name 235) zero_msg ≡ some announced
unfolding announcement client_name set_msgsz encode32 store_bytes digits until_nul
announced-sent = refl

calm-GrantsAll : GrantsAll calm
calm-GrantsAll = record {
  memory = λ t. refl;
  makes = λ t path. refl;
  opens = λ t path flags. refl;
  writes = λ t fd bytes. refl;
}

accept_client-client_new_example :
    (client_new calm (some server_name) (pos 1500) zero_msg []
      ≡ done
          (fifo_s_ok, some (connected calm server_name 7 [] (pos 1500) announced))
          (run calm server_name 7 [] announced))
    × (accept_client announcing 2 acceptor []
        ≡ done
            (true, record acceptor { client_fifo = reply_name client_seven; clientmsg = announced })
            (worker_started announcing client_seven.pipename behind_announcement))
    × (reply_name client_seven ≡ client_seven.pipename ++ read_suffix)
accept_client-client_new_example =
    accept_client-client_new calm announcing 2 acceptor server_name 7 (pos 1500) zero_msg announced
      announced [] [] behind_announcement (refl, (refl, (refl, (refl, (refl, (refl, tt))))))
      (omega arith) zero_msg-length calm-GrantsAll refl announced-sent
      (omega (arith, zero_msg-length)) refl refl announced-read refl refl
      (record { request = refl; reply = refl; memory = refl; thread = refl })
