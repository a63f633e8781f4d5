-- ===== src/Server/Visits.antt =====
-- What the server of src/fifo.c owes the clients that announce themselves, over a whole run.
pub mod Rounds
pub mod Served
use fifo.Prelude.{
  ℕ, ◌+◌, ◌<◌, ◌≤◌, ◌≡◌, true, false, Option, none, some, List, [], ◌∷◌, ◌++◌, length,
  if◌then◌else◌,
}
use fifo.Prelude.Int.{ℤ, pos, eqb_ℤ}
use fifo.Os.{Os, FilePath, Trace, opened, created, asked_loop, did_read}
use fifo.CString.Strings.{NulFree}
use fifo.Message.{decode32}
use fifo.Message.Store.{overlay}
use fifo.Message.{Pipemsg}
use fifo.CString.{snprintf, precision}
use fifo.Server.{Server}
use fifo.Api.{fifo_namelen_max, read_suffix}
use fifo.Reader.Delivery.{Arrival, payload, Delivers, reads}
use fifo.Timeout.Select.{answer, left, behind}
use fifo.Server.Accept.{Acceptor, ServerLoop}
use fifo.Server.Accepts.{Grants, worker_started, request_fd, reply_fd}

-- the loop as `fifo_server_runforever` begins it
abbrev pub begun : Server → Pipemsg → Acceptor
begun server stack = record {
  server = server;
  client_fifo = snprintf fifo_namelen_max (precision server.namelen server.pipename);
  clientmsg = stack;
}

-- what a round of the loop meets: nothing for the time of the timeout, or the announcement of a
-- suffix as it arrives
pub data Visit : Type 0 where
  nobody : Visit
  client : (suffix header : List ℕ) → List Arrival → Visit

-- The specification: the pipes on which the workers are started, in this order.
unfoldable pub served : FilePath → List Visit → List (Option FilePath × Option FilePath)
served prefix [] = []
served prefix (nobody ∷ rest) = served prefix rest
served prefix (client suffix header arrivals ∷ rest) =
    (some (prefix ++ suffix), some ((prefix ++ suffix) ++ read_suffix)) ∷ served prefix rest

-- the path of the newest `open` that returned this descriptor
abbrev pub path_of : ℤ → Trace → Option FilePath
path_of fd [] = none
path_of fd (opened path flags fd' ∷ t) = if eqb_ℤ fd fd' then some path else path_of fd t
path_of fd (_ ∷ t) = path_of fd t

-- the pipes of the workers that a run has started, oldest first: `pthread_create` has returned 0
abbrev pub workers : Trace → List (Option FilePath × Option FilePath)
workers [] = []
workers (created requestfd replyfd r ∷ t) =
    if eqb_ℤ r (pos 0)
    then workers t ++ (path_of requestfd t, path_of replyfd t) ∷ []
    else workers t
workers (_ ∷ t) = workers t

-- an announcement: the size of the suffix with its NUL, and those bytes, in fewer answers than there
-- is fuel; with the server's name it leaves room for "-read"
pub record IsAnnouncement (prefix : FilePath) (fuel : ℕ) (suffix header : List ℕ)
    (arrivals : List Arrival) : Type 0 where
  pub four : length header ≡ 4
  pub size : decode32 header ≡ pos (length suffix + 1)
  pub bytes : payload arrivals ≡ suffix ++ 0 ∷ []
  pub free : NulFree suffix
  pub short : length prefix + length suffix ≤ 250
  pub enough : length arrivals < fuel

module _ (os : Os) where
  -- the loop with what `select` leaves of its timeout
  abbrev pub waited : Acceptor → Trace → Acceptor
  waited st t = record st {
    server = record (st.server) {
      connect_timeout = left os (st.server).accept_pipefd (st.server).connect_timeout t;
    };
  }

  abbrev pub ready : Acceptor → Trace → Trace
  ready st t = behind os (st.server).accept_pipefd (st.server).connect_timeout t

  -- the trace with the announcement read
  abbrev pub heard : List ℕ → List Arrival → Acceptor → Trace → Trace
  heard header arrivals st t =
      let fd = (st.server).accept_pipefd in
      reads os fd arrivals (did_read fd 4 (some header) ∷ ready st t)

  -- the loop behind a client
  abbrev pub greeted : FilePath → List ℕ → List Arrival → Acceptor → Trace → Acceptor
  greeted name header arrivals st t = record {
    server = (waited st t).server;
    client_fifo = name ++ read_suffix;
    clientmsg = overlay (header ++ payload arrivals) st.clientmsg;
  }

  -- What the system does for one client: the announcement comes, and the calls are granted, with two
  -- descriptors.
  pub record Welcomes (name : FilePath) (header : List ℕ) (arrivals : List Arrival) (st : Acceptor)
      (t : Trace) : Type 0 where
    pub comes : (answer os (st.server).accept_pipefd (st.server).connect_timeout t).0 ≡ pos 1
    pub got : os.read (ready st t) (st.server).accept_pipefd 4 ≡ some header
    pub delivered :
        Delivers os
          (st.server).accept_pipefd
          arrivals
          (did_read (st.server).accept_pipefd 4 (some header) ∷ ready st t)
    pub grants : Grants os name (heard header arrivals st t)
    pub two_fds :
        eqb_ℤ
          (request_fd os name (heard header arrivals st t))
          (reply_fd os name (heard header arrivals st t))
        ≡ false

  module _ (prefix : FilePath) (fuel : ℕ) (servloopcb : ServerLoop) where
    abbrev pub on : Trace → Trace
    on t = asked_loop (servloopcb t) ∷ t

    -- From the trace `t` on the system brings these, and then the callback of the loop stops it.
    abbrev pub Brings : List Visit → Acceptor → Trace → Type 0
    Brings [] st t = servloopcb t ≡ pos 0
    Brings (nobody ∷ rest) st t =
        (eqb_ℤ (servloopcb t) (pos 0) ≡ false)
        × ((answer os (st.server).accept_pipefd (st.server).connect_timeout (on t)).0 ≡ pos 0)
        × Brings rest (waited st (on t)) (ready st (on t))
    Brings (client suffix header arrivals ∷ rest) st t =
        let name = prefix ++ suffix in
        (eqb_ℤ (servloopcb t) (pos 0) ≡ false)
        × IsAnnouncement prefix fuel suffix header arrivals
        × Welcomes name header arrivals st (on t)
        × Brings rest (greeted name header arrivals st (on t))
            (worker_started os name (heard header arrivals st (on t)))
