-- ===== src/Server/Settled.antt =====
-- `fifo_server_new` as a whole, on every branch.
use fifo.Prelude.{
  [], ℕ, ◌+◌, ◌≡◌, refl, Bool, ◌&&◌, not, Bool-cases, inl, inr, Option, none, some, true, false,
  ◌∷◌, take, ◌==◌,
}
use fifo.Effect.{name_fits}
use fifo.Prelude.Int.{ℤ, pos, minus_one, eqb_ℤ, ltb_ℤ}
use fifo.Os.{
  mem_free, mem_alloc_zero, Os, FilePath, nonblock_rdwr, allocated, made_fifo, Trace, Run, done,
  exited, fault, out_of_fuel,
}
use fifo.Os.Balance.{
  Owes, Owes-start, Owes-open_failed, Owes-opened, Owes-allocated, Owes-freed, Owes-made_fifo,
  Owes-unlinked,
}
use fifo.Api.{fifo_s_ok, fifo_e_failed, mkfifo_failed, is_eexist, pipename_or_default}
use fifo.CString.{strnlen}
use fifo.Timeout.{timeval_of}
use fifo.Server.{Server, sizeof_server, server_free, open_accept_pipe, server_new}

-- a server whose pipe is open: its name is the start of `path`, its descriptor is one that `open`
-- returned for that name
pub record IsListening (os : Os) (path : FilePath) (server : Server) : Type 0 where
  pub has_name : server.pipename ≡ take (strnlen path 235) path
  pub counted : server.namelen ≡ strnlen path 235
  pub some_address : (server.address == 0) ≡ false
  pub is_fd : eqb_ℤ server.accept_pipefd minus_one ≡ false
  pub before : Trace
  pub from_open : server.accept_pipefd ≡ os.open_file before server.pipename nonblock_rdwr

-- The outcome of a `fifo_server_new` that began at `t` with these arguments.
abbrev pub Settled : Os → FilePath → ℤ → ℤ → Trace → Run (ℤ × Option Server) → Type 0
Settled os path client_timeout connect_timeout t (done (rc, none) u) =
    (rc ≡ fifo_e_failed) × Owes [] [] t u
Settled os path client_timeout connect_timeout t (done (rc, some server) u) =
    (rc ≡ fifo_s_ok)
    × Owes (server.accept_pipefd ∷ []) (server.address ∷ []) t u
    × IsListening os path server
    × (server.client_timeout ≡ timeval_of client_timeout)
    × (server.connect_timeout ≡ timeval_of connect_timeout)
Settled os path client_timeout connect_timeout t (exited u) = Owes [] [] t u
Settled os path client_timeout connect_timeout t (fault u) = ⊥
Settled os path client_timeout connect_timeout t (out_of_fuel u) = ⊥

-- the server that `server_new` opens the pipe of
abbrev pub new_server : ℕ → FilePath → Server
new_server p path = record {
  address = p;
  accept_pipefd = pos 0;
  client_timeout = record { tv_sec = pos 0; tv_usec = 0 };
  connect_timeout = record { tv_sec = pos 0; tv_usec = 0 };
  namelen = strnlen path 235;
  pipename = take (strnlen path 235) path;
}

abbrev mkfifo_fails : Os → FilePath → Trace → Bool
mkfifo_fails os path t =
    let r = os.mkfifo t path in ltb_ℤ r (pos 0) && not (is_eexist (os.errno (made_fifo path r ∷ t)))

and_false : (b : Bool) → (b && false) ≡ false
and_false true = refl
and_false false = refl

open_accept_pipe-Settled :
    (os : Os) (path : FilePath) (srvr : Server) (client_timeout connect_timeout : ℤ) (t0 t : Trace)
    → srvr.pipename ≡ take (strnlen path 235) path
    → srvr.namelen ≡ strnlen path 235
    → (srvr.address == 0) ≡ false
    → Owes [] (srvr.address ∷ []) t0 t
    → Settled os path client_timeout connect_timeout t0
        (open_accept_pipe os srvr client_timeout connect_timeout t)
unfolding open_accept_pipe server_free mem_free
open_accept_pipe-Settled os path srvr client_timeout connect_timeout t0 t named counted some_address
      owes =
    let fd = os.open_file t srvr.pipename nonblock_rdwr in
    elim (Bool-cases (eqb_ℤ fd minus_one)) [
      | inl failed ↦
          rw (failed, and_false (not (eqb_ℤ fd (pos 0))), some_address)
            (Owes-freed srvr.address (
              Owes-unlinked srvr.pipename
                (Owes-open_failed srvr.pipename nonblock_rdwr fd failed owes)))
      | inr ok ↦
          let listening : IsListening os path (record srvr {
            accept_pipefd = fd;
            client_timeout = timeval_of client_timeout;
            connect_timeout = timeval_of connect_timeout;
          }) =
            record {
              has_name = named;
              counted = counted;
              some_address = some_address;
              is_fd = ok;
              before = t;
              from_open = refl;
            } in
          simp ok (refl, Owes-opened srvr.pipename nonblock_rdwr fd ok owes, listening, refl, refl)
    ]

-- Whatever the system answers: `fifo_server_new` stays inside its memory. If it returns a failure, or
-- ends the process because memory is out or its pipe does not open, it has closed every descriptor
-- that it opened and freed its memory. If it succeeds it returns FIFO_S_OK, with one descriptor and
-- one block left to the server, whose pipe has the first 235 bytes of the name at most, whose
-- descriptor is one that `open` returned for that name, and whose timeouts are those that were asked
-- for.
pub server_new-Settled :
    (os : Os) (pathname : Option FilePath) (client_timeout connect_timeout : ℤ) (t : Trace)
    → Settled os
        (pipename_or_default pathname)
        client_timeout
        connect_timeout
        t
        (server_new os pathname client_timeout connect_timeout t)
unfolding server_new mkfifo_failed mem_alloc_zero mem_free
server_new-Settled os pathname client_timeout connect_timeout t =
    let path = pipename_or_default pathname in
    let name = take (strnlen path 235) path in
    let size = sizeof_server + strnlen path 235 + 1 in
    let p = os.calloc t in
    let made =
      Owes-made_fifo name (os.mkfifo (allocated p size ∷ t) name)
        (Owes-allocated p size (Owes-start t)) in
    elim (Bool-cases (p == 0)) [
      | inl oom ↦ rw oom (Owes-start t)
      | inr some_address ↦ elim (Bool-cases (mkfifo_fails os name (allocated p size ∷ t))) [
        | inl failed ↦
            rw (some_address, name_fits sizeof_server (strnlen path 235), failed, some_address)
              (refl, Owes-freed p made)
        | inr fine ↦
            rw (some_address, name_fits sizeof_server (strnlen path 235), fine)
              (open_accept_pipe-Settled os path (new_server p path) client_timeout connect_timeout t
                _ refl refl some_address made)
      ]
    ]
