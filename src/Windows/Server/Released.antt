-- ===== src/Windows/Server/Released.antt =====
-- `fifo_server_new` of src/fifo-win.c as a whole: what it returns and what it leaves open.
use fifo.Prelude.{
  [], ◌+◌, ◌-◌, ◌≡◌, refl, Bool-cases, inl, inr, Option, none, some, ◌∷◌, ◌==◌, take,
}
use fifo.Effect.{name_fits}
use fifo.Prelude.Int.{ℤ, pos, eqb_ℤ}
use fifo.Effect.{Run, done, exited, fault, out_of_fuel}
use fifo.Effect.Ends.{Ends}
use fifo.Os.{FilePath}
use fifo.CString.{strnlen}
use fifo.Api.{fifo_s_ok, fifo_e_failed, fifo_namelen_max}
use fifo.Windows.System.{System, Event, Trace, allocated, mem_alloc_zero, mem_free}
use fifo.Windows.Balance.{
  Holds, Holds-start, Holds-no_event, Holds-event, Holds-closed, Holds-allocated, Holds-freed,
}
use fifo.Windows.Client.{win_name_or_default}
use fifo.Windows.Server.{Server, sizeof_server, server_new, server_free}

-- As of a client; the process ends if there is no memory.
abbrev pub ServerReleased : FilePath → ℤ → ℤ → Trace → Run Event (ℤ × Option Server) → Type 0
ServerReleased pipename client_timeout connect_timeout t (done (rc, none) u) =
    (rc ≡ fifo_e_failed) × Holds [] [] t u
ServerReleased pipename client_timeout connect_timeout t (done (rc, some server) u) =
    (rc ≡ fifo_s_ok)
    × (server.pipename ≡ take (strnlen pipename 243) pipename)
    × (server.client_timeout ≡ client_timeout)
    × (server.connect_timeout ≡ connect_timeout)
    × Ends (λ _ v. Holds [] [] t v) (server_free server u)
ServerReleased pipename client_timeout connect_timeout t (exited u) = u ≡ t
ServerReleased pipename client_timeout connect_timeout t (fault u) = ⊥
ServerReleased pipename client_timeout connect_timeout t (out_of_fuel u) = ⊥

-- Whatever the system answers, `fifo_server_new` copies the name inside its block, and returns, or
-- ends the process before it has done anything. If it fails it returns FIFO_E_FAILED, has closed each
-- handle as often as it has made it, and freed each block as often as it has allocated it. If it
-- returns a server, the result is FIFO_S_OK, the server has the first 243 bytes of the given name or
-- of the default one and the given timeouts, and behind `fifo_server_free` of it each handle is
-- closed as often as it was made, and each block freed as often as it was allocated.
pub server_new-Released :
    (sys : System) (pathname : Option FilePath) (client_timeout connect_timeout : ℤ) (t : Trace)
    → ServerReleased
        (win_name_or_default pathname)
        client_timeout
        connect_timeout
        t
        (server_new sys pathname client_timeout connect_timeout t)
unfolding server_new server_free mem_alloc_zero mem_free
server_new-Released sys pathname client_timeout connect_timeout t =
    let size = sizeof_server + strnlen (win_name_or_default pathname) (fifo_namelen_max - 12) + 1 in
    let p = sys.calloc t in
    let u = allocated p size ∷ t in
    let h = sys.create_event u in
    let holds = Holds-allocated p size (Holds-start t) in
    elim (Bool-cases (p == 0)) [
      | inl null ↦ rw null refl
      | inr some_block ↦ elim (Bool-cases (eqb_ℤ h (pos 0))) [
        | inl failed ↦
            rw
              (
                some_block,
                name_fits sizeof_server (strnlen (win_name_or_default pathname) 243),
                failed,
                some_block,
              )
              (refl, Holds-freed p (Holds-no_event h failed holds))
        | inr fine ↦
            rw
              (
                some_block,
                name_fits sizeof_server (strnlen (win_name_or_default pathname) 243),
                fine,
                some_block,
              )
              (refl, refl, refl, refl, Holds-freed p (Holds-closed h (Holds-event h fine holds)))
      ]
    ]
