-- ===== src/Examples/Servers.antt =====
-- Runs of the server.
use fifo.Prelude.{ℕ, ◌≡◌, refl, some, List, [], ◌∷◌, arith, replicate, length}
use fifo.Prelude.Int.{pos, minus_one}
use fifo.Os.{Os, nonblock_rdwr, Trace, did_read, opened, done, fault}
use fifo.CString.{codes, until_nul}
use fifo.Message.{Pipemsg, msgsz, decode32, zero_msg}
use fifo.Message.Store.{overlay}
use fifo.Reader.{readpipemsg_nb}
use fifo.Reader.Delivery.{chunk}
use fifo.Reader.Assembly.{readpipemsg_nb-Delivers}
use fifo.Api.{pipename_or_default}
use fifo.Server.{server_new}
use fifo.Server.Settled.{Settled, server_new-Settled}
use fifo.Server.Accept.{accept_client}
use fifo.Server.Accepts.{Announces}
use fifo.Server.Overflow.{announced_name, accept_client-overflow}
use fifo.Examples.Systems.{calm, server_name, zero_msg-length, announced, acceptor}

server_new-Settled_example :
    Settled calm
      (pipename_or_default (some server_name))
      (pos 1500)
      minus_one
      []
      (server_new calm (some server_name) (pos 1500) minus_one [])
server_new-Settled_example = server_new-Settled calm (some server_name) (pos 1500) minus_one []

announced-size : msgsz announced ≡ pos 3
unfolding msgsz decode32
announced-size = refl

announced-Announces : Announces (codes ".7") announced
announced-Announces = record {
  free = (refl, (refl, tt));
  size = announced-size;
  bytes = refl;
  room = omega arith;
}

-- A client announces 250 bytes.
abbrev long_name : List ℕ
long_name = replicate 250 97

abbrev announcing_long : Os
announcing_long = record calm {
  read = λ t fd n. elim t [ [] ↦ some (250 ∷ 0 ∷ 0 ∷ 0 ∷ []) | _ ∷ _ ↦ some long_name ];
}

abbrev announced_long : Pipemsg
announced_long = overlay (250 ∷ 0 ∷ 0 ∷ 0 ∷ long_name) zero_msg

abbrev behind_long : Trace
behind_long =
    did_read (pos 3) 250 (some long_name) ∷ did_read (pos 3) 4 (some (250 ∷ 0 ∷ 0 ∷ 0 ∷ [])) ∷ []

long_header : decode32 (250 ∷ 0 ∷ 0 ∷ 0 ∷ []) ≡ pos 250
unfolding decode32
long_header = refl

announced_long-size : msgsz announced_long ≡ pos 250
unfolding msgsz decode32
announced_long-size = refl

announced_long-read :
    readpipemsg_nb announcing_long 2 (pos 3) zero_msg [] ≡ done (pos 0, announced_long) behind_long
announced_long-read =
    readpipemsg_nb-Delivers announcing_long (pos 3) 2 (chunk 97 (replicate 249 97) ∷ [])
      (250 ∷ 0 ∷ 0 ∷ 0 ∷ []) zero_msg [] zero_msg-length refl long_header (omega arith)
      (omega arith) refl (refl, tt)

announced_name-length : length (announced_name acceptor 250 announced_long) ≡ 254
unfolding until_nul
announced_name-length = refl

accept_client-overflow_example :
    accept_client announcing_long 2 acceptor []
    ≡ fault
        (opened (announced_name acceptor 250 announced_long) nonblock_rdwr (pos 5) ∷ behind_long)
accept_client-overflow_example =
    accept_client-overflow announcing_long 2 250 acceptor announced_long [] behind_long
      announced_long-read announced_long-size (omega arith) (omega arith)
      (omega (arith, announced_name-length)) refl
