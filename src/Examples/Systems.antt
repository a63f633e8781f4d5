-- ===== src/Examples/Systems.antt =====
-- Concrete systems and messages for runs of the code of src/fifo.c.
use fifo.Prelude.{
  ℕ, ◌+◌, ◌≡◌, refl, ap, Option, none, some, List, [], ◌∷◌, length, take, replicate,
  length-replicate, length-take, ◌==◌, if◌then◌else◌, arith,
}
use fifo.Prelude.Int.{pos}
use fifo.Os.{Os, eagain, FilePath, Timeval, Trace, did_read, done}
use fifo.CString.{codes}
use fifo.Message.{Pipemsg, msgsz, decode32, zero_msg}
use fifo.Message.Store.{overlay}
use fifo.Reader.{readpipemsg_nb}
use fifo.Reader.Delivery.{Arrival, again, chunk}
use fifo.Reader.Assembly.{readpipemsg_nb-Delivers}
use fifo.Reader.Safety.{ReadsAtMost}
use fifo.Worker.{OnPipemsg, PipeInstance}
use fifo.Worker.Keeps.{KeepsLength}
use fifo.Client.{Client}
use fifo.Server.Accept.{Acceptor}

abbrev pub five_seconds : Timeval
five_seconds = record { tv_sec = pos 5; tv_usec = 0 }

-- Every call succeeds, every wait ends at once, and every `read` is at the end of the file.
abbrev pub calm : Os
calm = record {
  calloc = λ t. 4096;
  malloc = λ t. 4096;
  realloc = λ t p. 8192;
  errno = λ t. eagain;
  mkfifo = λ t path. pos 0;
  open_file = λ t path flags. pos 5;
  read = λ t fd n. some [];
  write = λ t fd bytes. pos (length bytes);
  select = λ t fd timeout. (pos 1, five_seconds);
  pthread_create = λ t. pos 0;
  getpid = λ t. 7;
}

-- a message of size 2 with the body 9, 8
abbrev pub two_bytes : Pipemsg
two_bytes = 2 ∷ 0 ∷ 0 ∷ 0 ∷ 9 ∷ 8 ∷ replicate 4090 0

pub two_bytes-length : length two_bytes ≡ 4096
two_bytes-length = ap (◌+◌ 6) (length-replicate {A = ℕ} 4090 0)

pub two_bytes-size : msgsz two_bytes ≡ pos 2
unfolding msgsz decode32
two_bytes-size = refl

pub zero_msg-length : length zero_msg ≡ 4096
zero_msg-length = length-replicate {A = ℕ} 4096 0

pub zero_msg-size : msgsz zero_msg ≡ pos 0
unfolding msgsz decode32
zero_msg-size = refl

-- `two_bytes` arrives: the size field, the first byte, EAGAIN, the second byte.
abbrev pub pieces : Trace → ℕ → Option (List ℕ)
pieces (did_read fd n none ∷ t) m = some (8 ∷ [])
pieces t m = if m == 4 then some (2 ∷ 0 ∷ 0 ∷ 0 ∷ []) else if m == 2 then some (9 ∷ []) else none

abbrev pub piecemeal : Os
piecemeal = record calm { read = λ t fd n. pieces t n }

-- A pipe that delivers as much as is asked for of the bytes 3, 0, 0, 0.
abbrev pub generous : Os
generous = record calm { read = λ t fd n. some (take n (3 ∷ 0 ∷ 0 ∷ 0 ∷ [])) }

value_of : Option (List ℕ) → List ℕ
value_of none = []
value_of (some bytes) = bytes

pub generous-ReadsAtMost : ReadsAtMost generous
unfolding value_of
generous-ReadsAtMost t fd n bytes e =
    let same : take n (3 ∷ 0 ∷ 0 ∷ 0 ∷ []) ≡ bytes = ap value_of e in
    omega (arith, length-take {A = ℕ} n (3 ∷ 0 ∷ 0 ∷ 0 ∷ []), ap length same)

-- a callback that answers every request with `two_bytes`
abbrev pub answers_two : OnPipemsg
answers_two = λ t request reply. two_bytes

pub answers_two-KeepsLength : KeepsLength answers_two
answers_two-KeepsLength t request reply whole = two_bytes-length

abbrev pub instance : PipeInstance
instance = record {
  address = 4096;
  requestfd = pos 5;
  replyfd = pos 6;
  timeout = five_seconds;
  request = zero_msg;
  reply = zero_msg;
}

-- "/tmp/p"
abbrev pub server_name : FilePath
server_name = codes "/tmp/p"

abbrev pub client : Client
client = record {
  address = 4096;
  readfd = pos 5;
  writefd = pos 6;
  wait_timeout = five_seconds;
  capacity = 18;
  namelen = 8;
  pipename = codes "/tmp/p.7";
}

abbrev pub acceptor : Acceptor
acceptor = record {
  server = record {
    address = 4096;
    accept_pipefd = pos 3;
    client_timeout = five_seconds;
    connect_timeout = five_seconds;
    namelen = 6;
    pipename = server_name;
  };
  client_fifo = server_name;
  clientmsg = zero_msg;
}

-- how `piecemeal` delivers the body
abbrev pub arrivals : List Arrival
arrivals = chunk 9 [] ∷ again ∷ chunk 8 [] ∷ []

-- A client announces ".7".
abbrev pub announcing : Os
announcing = record calm {
  read = λ t fd n. elim t [ [] ↦ some (3 ∷ 0 ∷ 0 ∷ 0 ∷ []) | _ ∷ _ ↦ some (46 ∷ 55 ∷ 0 ∷ []) ];
}

abbrev pub announced : Pipemsg
announced = overlay (3 ∷ 0 ∷ 0 ∷ 0 ∷ 46 ∷ 55 ∷ 0 ∷ []) zero_msg

abbrev pub behind_announcement : Trace
behind_announcement =
    did_read (pos 3) 3 (some (46 ∷ 55 ∷ 0 ∷ []))
    ∷ did_read (pos 3) 4 (some (3 ∷ 0 ∷ 0 ∷ 0 ∷ []))
    ∷ []

three_header : decode32 (3 ∷ 0 ∷ 0 ∷ 0 ∷ []) ≡ pos 3
unfolding decode32
three_header = refl

pub announced-read :
    readpipemsg_nb announcing 2 (pos 3) zero_msg [] ≡ done (pos 0, announced) behind_announcement
announced-read =
    readpipemsg_nb-Delivers announcing (pos 3) 2 (chunk 46 (55 ∷ 0 ∷ []) ∷ []) (3 ∷ 0 ∷ 0 ∷ 0 ∷ [])
      zero_msg [] zero_msg-length refl three_header (omega arith) (omega arith) refl (refl, tt)
