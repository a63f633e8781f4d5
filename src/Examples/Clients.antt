-- ===== src/Examples/Clients.antt =====
-- Runs of the client.
use fifo.Prelude.{◌≡◌, refl, none, some, [], ◌∷◌, take}
use fifo.Prelude.Int.{pos}
use fifo.Os.{Os, did_read, done, exited}
use fifo.Message.{set_msgsz, zero_msg}
use fifo.Api.{fifo_s_ok}
use fifo.Client.{client_read}
use fifo.Client.Connect.{client_new}
use fifo.Client.Settled.{Settled, client_new-Settled}
use fifo.Client.Read.{waited, ready, client_read-eof, client_read-exits}
use fifo.Programs.{client_main}
use fifo.Programs.Whole.{Leaves, Any, client_main-Leaves}
use fifo.Examples.Systems.{
  generous, generous-ReadsAtMost, calm, five_seconds, server_name, two_bytes, zero_msg-length,
  client,
}

client_new-Settled_example : Settled [] (client_new calm (some server_name) (pos 1500) zero_msg [])
client_new-Settled_example =
    client_new-Settled calm (some server_name) (pos 1500) zero_msg [] (λ t path flags. refl)
      zero_msg-length

-- a reply waits in the pipe
abbrev replied : Os
replied = record calm { read = λ t fd n. some (take 6 two_bytes) }

client_read-eof_example :
    client_read calm client two_bytes []
    ≡ done
        (fifo_s_ok, waited calm client two_bytes [], set_msgsz (pos 0) two_bytes)
        (did_read client.readfd 4096 (some []) ∷ ready calm client two_bytes [])
client_read-eof_example = client_read-eof calm client two_bytes [] refl refl

-- every wait ends with its timeout
abbrev silent : Os
silent = record calm { select = λ t fd timeout. (pos 0, five_seconds) }

-- `read` fails on a ready descriptor
abbrev broken : Os
broken = record calm { read = λ t fd n. none }

client_read-exits_example :
    client_read broken client two_bytes []
    ≡ exited (did_read client.readfd 4096 none ∷ ready broken client two_bytes [])
client_read-exits_example = client_read-exits broken client two_bytes [] refl refl

client_main-Leaves_example : Leaves Any [] [] [] (client_main generous zero_msg zero_msg [])
client_main-Leaves_example =
    client_main-Leaves generous zero_msg zero_msg [] generous-ReadsAtMost (λ t path flags. refl)
      zero_msg-length zero_msg-length
