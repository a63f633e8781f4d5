-- ===== src/Examples/Visits.antt =====
-- Whole runs of the server of src/fifo.c and of the client program.
use fifo.Prelude.{ℕ, ◌+◌, take, ◌≡◌, refl, some, List, [], ◌∷◌, ◌++◌, ◌==◌, if◌then◌else◌, arith}
use fifo.Programs.Texts.{SaysHellos}
use fifo.Prelude.Int.{ℤ, pos, minus_one}
use fifo.Os.{Os, Timeval, Trace, asked_loop, created, Flags, nonblock_rdwr, wronly}
use fifo.CString.{codes}
use fifo.Message.{zero_msg}
use fifo.Reader.Delivery.{chunk}
use fifo.Server.Accept.{ServerLoop}
use fifo.Server.Visits.{Visit, nobody, client, served}
use fifo.Client.Free.{IsConnected}
use fifo.Effect.Ends.{Ends}
use fifo.Worker.Session.{written}
use fifo.Programs.{chat_if_connected}
use fifo.Programs.Chat.{reads_count, chat_if_connected-talks}
use fifo.Examples.Systems
use fifo.Examples.Systems.{two_bytes, calm, five_seconds, server_name, zero_msg-length}

-- The wait for a client fails.
abbrev no_wait : Os
no_wait = record calm { select = λ t fd timeout. (minus_one, five_seconds) }

-- A timeout, and a client that announces ".7".
abbrev visits : List Visit
visits = nobody ∷ client (codes ".7") (3 ∷ 0 ∷ 0 ∷ 0 ∷ []) (chunk 46 (55 ∷ 0 ∷ []) ∷ []) ∷ []

abbrev visited_select : Trace → ℤ × Timeval
visited_select (asked_loop n ∷ []) = (pos 0, five_seconds)
visited_select t = (pos 1, five_seconds)

abbrev fd_for : Flags → ℤ
fd_for nonblock_rdwr = pos 5
fd_for wronly = pos 6

abbrev visited : Os
visited = record calm {
  read = λ t fd n. if n == 4 then some (3 ∷ 0 ∷ 0 ∷ 0 ∷ []) else some (46 ∷ 55 ∷ 0 ∷ []);
  select = λ t fd timeout. visited_select t;
  open_file = λ t path flags. fd_for flags;
}

-- The callback stops the loop behind a worker.
abbrev one_worker : ServerLoop
one_worker (created requestfd replyfd r ∷ t) = pos 0
one_worker t = pos 1

-- its worker, on the two pipes of the client
served_pipes :
    served server_name visits ≡ (some (codes "/tmp/p.7"), some (codes "/tmp/p.7-read")) ∷ []
unfolding served
served_pipes = refl

-- A server that answers every request with two bytes.
abbrev answering : Os
answering = record calm { read = λ t fd n. some (take 6 two_bytes) }

client-IsConnected : IsConnected Systems.client
client-IsConnected = record {
  room = omega arith;
  some_address = refl;
  reading = refl;
  writing = refl;
}

chat_if_connected-talks_example :
    Ends
      (λ _ u.
        (texts : List (ℤ × List ℕ)) × SaysHellos (pos 6) 10_000 1 texts
        × (written u ≡ ([] ++ texts) ++ (pos 6, []) ∷ [])
        × (reads_count u ≡ 0 + 10_000))
      (chat_if_connected answering (pos 0, some Systems.client) zero_msg [])
chat_if_connected-talks_example =
    chat_if_connected-talks answering (pos 0) Systems.client zero_msg [] client-IsConnected
      (record {
        takes = λ t frame. refl;
        comes = λ t timeout. refl;
        reply = λ t. take 6 two_bytes;
        some_bytes = λ t. omega arith;
        fits = λ t. omega arith;
        got = λ t. refl;
      })
      zero_msg-length
