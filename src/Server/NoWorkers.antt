-- ===== src/Server/NoWorkers.antt =====
-- `fifo_server_new` starts no worker.
use fifo.Prelude.{
  inr, inl, List, ltb, ◌∷◌, ◌∙◌, arith, Bool-cases, ℕ, ◌+◌, ◌≡◌, refl, Option, none, some, take,
  ◌==◌,
}
use fifo.Prelude.Int.{ℤ, minus_one, eqb_ℤ}
use fifo.Effect.{log}
use fifo.Effect.Emits.{Extends, same, newer, Emits, Emits-pure, Emits-if, Emits-bind}
use fifo.CString.{strnlen}
use fifo.Timeout.{timeval_of}
use fifo.Os.{
  FilePath, Os, Event, allocated, reallocated, freed, made_fifo, opened, closed, unlinked, did_read,
  did_write, did_select, called_back, asked_loop, created, nonblock_rdwr, Trace, exited, mem_free,
  mem_alloc_zero, open_file,
}
use fifo.Os.Balance.{Owes}
use fifo.Api.{fifo_s_ok, fifo_e_failed, is_open, mkfifo_failed, pipename_or_default}
use fifo.Server.{Server, sizeof_server, server_free, open_accept_pipe, server_new}
use fifo.Server.Settled.{new_server}
use fifo.Server.Handed.{Holds, handed_count, handed_blocks}

-- every event but the start of a worker
abbrev pub StartsNone : Event → Type 0
StartsNone (created requestfd replyfd r) = ⊥
StartsNone _ = Unit {0}

handed_count-newer :
    (x : ℤ) (e : Event) (t : Trace) → StartsNone e → handed_count x (e ∷ t) ≡ handed_count x t
unfolding handed_count
handed_count-newer x (created _ _ _) t p = elim p [ ]
handed_count-newer x (allocated _ _) t p = refl
handed_count-newer x (freed _) t p = refl
handed_count-newer x (reallocated _ _ _) t p = refl
handed_count-newer x (made_fifo _ _) t p = refl
handed_count-newer x (opened _ _ _) t p = refl
handed_count-newer x (closed _) t p = refl
handed_count-newer x (unlinked _) t p = refl
handed_count-newer x (did_read _ _ _) t p = refl
handed_count-newer x (did_write _ _ _) t p = refl
handed_count-newer x (did_select _ _ _) t p = refl
handed_count-newer x (called_back _ _) t p = refl
handed_count-newer x (asked_loop _) t p = refl

handed_blocks-newer :
    (y : ℕ) (e : Event) (t : Trace) → StartsNone e → handed_blocks y (e ∷ t) ≡ handed_blocks y t
unfolding handed_blocks
handed_blocks-newer y (created _ _ _) t p = elim p [ ]
handed_blocks-newer y (allocated _ _) t p = refl
handed_blocks-newer y (freed _) t p = refl
handed_blocks-newer y (reallocated _ _ _) t p = refl
handed_blocks-newer y (made_fifo _ _) t p = refl
handed_blocks-newer y (opened _ _ _) t p = refl
handed_blocks-newer y (closed _) t p = refl
handed_blocks-newer y (unlinked _) t p = refl
handed_blocks-newer y (did_read _ _ _) t p = refl
handed_blocks-newer y (did_write _ _ _) t p = refl
handed_blocks-newer y (did_select _ _ _) t p = refl
handed_blocks-newer y (called_back _ _) t p = refl
handed_blocks-newer y (asked_loop _) t p = refl

handed_count-Extends :
    (x : ℤ) {t u : Trace} → Extends StartsNone t u → handed_count x u ≡ handed_count x t
handed_count-Extends x same = refl
handed_count-Extends x (newer {u = u} {e = e} p h) =
    handed_count-newer x e u p ∙ handed_count-Extends x h

handed_blocks-Extends :
    (y : ℕ) {t u : Trace} → Extends StartsNone t u → handed_blocks y u ≡ handed_blocks y t
handed_blocks-Extends y same = refl
handed_blocks-Extends y (newer {u = u} {e = e} p h) =
    handed_blocks-newer y e u p ∙ handed_blocks-Extends y h

-- Where no worker was started, what is held is what is owed.
pub Owes-Holds :
    {k : List ℤ} {b : List ℕ} {t u : Trace} → Owes k b t u → Extends StartsNone t u → Holds k b t u
Owes-Holds owes h = record {
  descriptors = λ x. omega (arith, owes.descriptors x, handed_count-Extends x h);
  memory = λ y. omega (arith, owes.memory y, handed_blocks-Extends y h);
}

one : (e : Event) → StartsNone e → Emits StartsNone (log e)
one e p = record { emits = λ t. newer p same }

mem_free-StartsNone : (p : ℕ) → Emits StartsNone (mem_free p)
unfolding mem_free
mem_free-StartsNone p = Emits-if (p == 0) (Emits-pure tt) (one (freed p) tt)

server_free-StartsNone : (server : Server) → Emits StartsNone (server_free server)
unfolding server_free
server_free-StartsNone server =
    Emits-bind
      (Emits-if (is_open server.accept_pipefd) (one (closed server.accept_pipefd) tt)
        (Emits-pure tt))
      (λ _.
        Emits-bind (one (unlinked server.pipename) tt) (λ _. mem_free-StartsNone server.address))

module _ (os : Os) where
  mem_alloc_zero-StartsNone : (size : ℕ) → Emits StartsNone (mem_alloc_zero os size)
  unfolding mem_alloc_zero
  mem_alloc_zero-StartsNone size = record {
    emits = λ t. elim (Bool-cases (os.calloc t == 0)) [
      | inl null ↦ rw null same
      | inr some_block ↦ rw some_block (newer tt same)
    ];
  }

  open_accept_pipe-StartsNone :
      (srvr : Server) (client_timeout connect_timeout : ℤ)
      → Emits StartsNone (open_accept_pipe os srvr client_timeout connect_timeout)
  unfolding open_accept_pipe
  open_accept_pipe-StartsNone srvr client_timeout connect_timeout =
      Emits-bind {m = open_file os srvr.pipename nonblock_rdwr}
        (record { emits = λ t. newer tt same })
        (λ fd.
          Emits-if (eqb_ℤ fd minus_one)
            (Emits-bind {k = λ _. exited}
              (server_free-StartsNone (record srvr { accept_pipefd = fd }))
              (λ _. record { emits = λ t. same }))
            (Emits-pure (
              fifo_s_ok,
              some (record srvr {
                accept_pipefd = fd;
                client_timeout = timeval_of client_timeout;
                connect_timeout = timeval_of connect_timeout;
              }),
            )))

  mkfifo_failed-StartsNone : (path : FilePath) → Emits StartsNone (mkfifo_failed os path)
  unfolding mkfifo_failed
  mkfifo_failed-StartsNone path = record { emits = λ t. newer tt same }

  pub server_new-StartsNone :
      (pathname : Option FilePath) (client_timeout connect_timeout : ℤ)
      → Emits StartsNone (server_new os pathname client_timeout connect_timeout)
  unfolding server_new
  server_new-StartsNone pathname client_timeout connect_timeout =
      let path = pipename_or_default pathname in
      Emits-bind (mem_alloc_zero-StartsNone (sizeof_server + strnlen path 235 + 1)) (λ p.
        Emits-bind
          (Emits-if (ltb (sizeof_server + strnlen path 235) (sizeof_server + strnlen path 235 + 1))
            (Emits-pure tt) (record { emits = λ t. same }))
          (λ _. Emits-bind (mkfifo_failed-StartsNone (take (strnlen path 235) path)) (λ failed.
            Emits-if failed
              (Emits-bind (mem_free-StartsNone p) (λ _. Emits-pure (fifo_e_failed, none)))
              (open_accept_pipe-StartsNone (new_server p path) client_timeout connect_timeout))))
