-- ===== src/Client/Settled.antt =====
-- `fifo_client_new` as a whole: whatever the system answers, it stays inside its buffers, and leaves
-- nothing open behind a failure.
use fifo.Prelude.{
  ℕ, ◌+◌, ◌-◌, ◌≤◌, ◌≡◌, refl, Bool, ◌&&◌, not, Bool-cases, inl, inr, Option, none, some, true,
  false, List, ◌∷◌, ◌++◌, length, take, ◌==◌, if◌then◌else◌, arith, length-take,
}
use fifo.Effect.{name_fits_behind}
use fifo.Prelude.Int.{ℤ, pos, minus_one, eqb_ℤ, ltb_ℤ}
use fifo.Os.{
  mem_free, mem_alloc_zero, Os, FilePath, Flags, nonblock_rdwr, wronly, allocated, made_fifo, Trace,
  Run, done, exited, fault, out_of_fuel,
}
use fifo.Os.Balance.{
  Owes-swap, Owes, Owes-start, Owes-open_failed, Owes-opened, Owes-closed, Owes-allocated,
  Owes-freed, Owes-did_write, Owes-made_fifo, Owes-unlinked,
}
use fifo.Message.{Pipemsg}
use fifo.Api.{
  fifo_s_ok, fifo_e_failed, is_open, fifo_namelen_max, read_suffix, is_eexist, pipename_or_default,
}
use fifo.CString.{snprintf, precision, strnlen}
use fifo.Client.Announcement.{announcement-some}
use fifo.Client.{[], Client}
use fifo.Client.Free.{Roomy, IsConnected, client_free-Owes}
use fifo.Client.Connect.{
  fail_with, open_request_pipe, announce, reach_server, announcement, open_reply_pipe,
  create_client, client_new, client_name, sizeof_client,
}

-- An `open` does not return 0: descriptor 0 is taken while the standard input is open.
abbrev pub OpensNonzero : Os → Type 0
OpensNonzero os =
    (t : Trace) (path : FilePath) (flags : Flags)
    → eqb_ℤ (os.open_file t path flags) (pos 0) ≡ false

-- The outcome of a `fifo_client_new` that began at `t`.
abbrev pub Settled : Trace → Run (ℤ × Option Client) → Type 0
Settled t (done (rc, none) u) = (rc ≡ fifo_e_failed) × Owes [] [] t u
Settled t (done (rc, some client) u) =
    (rc ≡ fifo_s_ok)
    × IsConnected client
    × Owes (client.readfd ∷ client.writefd ∷ []) (client.address ∷ []) t u
Settled t (exited u) = u ≡ t
Settled t (fault u) = ⊥
Settled t (out_of_fuel u) = ⊥

-- what the steps keep of the client that they build
record IsNew (clnt : Client) : Type 0 where
  room : Roomy clnt
  some_address : (clnt.address == 0) ≡ false
  unconnected : clnt.writefd ≡ pos 0

with_readfd : {clnt : Client} {fd : ℤ} → IsNew clnt → IsNew (record clnt { readfd = fd })
with_readfd new = record {
  room = new.room;
  some_address = new.some_address;
  unconnected = new.unconnected;
}

is_open_failed : (fd : ℤ) → eqb_ℤ fd minus_one ≡ true → is_open fd ≡ false
is_open_failed fd e = ground arith

pub is_open_ok :
    (fd : ℤ) → eqb_ℤ fd minus_one ≡ false → eqb_ℤ fd (pos 0) ≡ false → is_open fd ≡ true
is_open_ok fd e z = rw (e, z)

-- the client that `create_client` starts from
abbrev pub new_client : ℕ → List ℕ → Client
new_client p full = record {
  address = p;
  readfd = pos 0;
  writefd = pos 0;
  wait_timeout = record { tv_sec = pos 0; tv_usec = 0 };
  capacity = sizeof_client + length full + 10 - sizeof_client;
  namelen = length full;
  pipename = take (length full) (snprintf fifo_namelen_max full);
}

new_client-IsNew : (p : ℕ) (full : List ℕ) → (p == 0) ≡ false → IsNew (new_client p full)
new_client-IsNew p full some_address = record {
  room = omega (arith, length-take (length full) (take 254 full), length-take 254 full);
  some_address = some_address;
  unconnected = refl;
}

abbrev pub reply_name : Client → FilePath
reply_name clnt = snprintf fifo_namelen_max (precision clnt.namelen clnt.pipename ++ read_suffix)

abbrev mkfifo_fails : Os → FilePath → Trace → Bool
mkfifo_fails os path t =
    let r = os.mkfifo t path in ltb_ℤ r (pos 0) && not (is_eexist (os.errno (made_fifo path r ∷ t)))

module _ (os : Os) (nonzero : OpensNonzero os) (t0 : Trace) where
  fail_with-Settled :
      (clnt : Client) (t : Trace)
      → IsNew clnt
      → Owes (if is_open clnt.readfd then clnt.readfd ∷ [] else []) (clnt.address ∷ []) t0 t
      → Settled t0 (fail_with os clnt t)
  fail_with-Settled clnt t new owes =
      let (u, run, settled) =
        client_free-Owes os clnt t new.room new.some_address new.unconnected t0 owes in
      rw run (refl, settled)

  open_request_pipe-Settled :
      (clnt : Client) (wait_timeout : ℤ) (t : Trace)
      → IsNew clnt
      → is_open clnt.readfd ≡ true
      → Owes (clnt.readfd ∷ []) (clnt.address ∷ []) t0 t
      → Settled t0 (open_request_pipe os clnt wait_timeout t)
  unfolding open_request_pipe
  open_request_pipe-Settled clnt wait_timeout t new reading owes =
      elim (Bool-cases (eqb_ℤ (os.open_file t clnt.pipename wronly) minus_one)) [
        | inl failed ↦ rw failed (
            fail_with-Settled clnt _ new
              (rw reading (Owes-open_failed clnt.pipename wronly _ failed owes)))
        | inr ok ↦ rw ok (
          refl,
          record {
            room = new.room;
            some_address = new.some_address;
            reading = reading;
            writing =
                is_open_ok (os.open_file t clnt.pipename wronly) ok
                  (nonzero t clnt.pipename wronly);
          },
          Owes-swap (Owes-opened clnt.pipename wronly _ ok owes),
        )
      ]

  announce-Settled :
      (clnt : Client) (writefd : ℤ) (pipelen : ℕ) (wait_timeout : ℤ) (clientmsg : Pipemsg)
      (t : Trace)
      → IsNew clnt
      → is_open clnt.readfd ≡ true
      → Owes (writefd ∷ clnt.readfd ∷ []) (clnt.address ∷ []) t0 t
      → Settled t0 (announce os clnt writefd pipelen wait_timeout (some clientmsg) t)
  unfolding announce
  announce-Settled clnt writefd pipelen wait_timeout clientmsg t new reading owes =
      let bytes = take pipelen clientmsg in
      let r = os.write t writefd bytes in
      let given_back = Owes-closed writefd (Owes-did_write writefd bytes r owes) in
      elim (Bool-cases (eqb_ℤ r (pos pipelen))) [
        | inl all ↦ rw all (open_request_pipe-Settled clnt wait_timeout _ new reading given_back)
        | inr short ↦ rw short (fail_with-Settled clnt _ new (rw reading given_back))
      ]

  reach_server-Settled :
      (clnt : Client) (pipename : FilePath) (namelen : ℕ) (wait_timeout : ℤ)
      (stack clientmsg : Pipemsg) (t : Trace)
      → IsNew clnt
      → is_open clnt.readfd ≡ true
      → announcement clnt.pipename namelen stack ≡ some clientmsg
      → Owes (clnt.readfd ∷ []) (clnt.address ∷ []) t0 t
      → Settled t0 (reach_server os clnt pipename namelen wait_timeout stack t)
  unfolding reach_server
  reach_server-Settled clnt pipename namelen wait_timeout stack clientmsg t new reading fits owes =
      elim (Bool-cases (eqb_ℤ (os.open_file t pipename wronly) minus_one)) [
        | inl failed ↦ rw failed (
            fail_with-Settled clnt _ new
              (rw reading (Owes-open_failed pipename wronly _ failed owes)))
        | inr ok ↦
            rw (ok, fits)
              (announce-Settled clnt _ _ wait_timeout clientmsg _ new reading
                (Owes-opened pipename wronly _ ok owes))
      ]

  open_reply_pipe-Settled :
      (clnt : Client) (pipename : FilePath) (namelen : ℕ) (wait_timeout : ℤ) (stack : Pipemsg)
      (t : Trace)
      → IsNew clnt
      → length clnt.pipename ≤ 254
      → length stack ≡ 4096
      → Owes [] (clnt.address ∷ []) t0 t
      → Settled t0 (open_reply_pipe os clnt pipename namelen wait_timeout stack t)
  unfolding open_reply_pipe mem_free
  open_reply_pipe-Settled clnt pipename namelen wait_timeout stack t new short whole owes =
      let name = reply_name clnt in
      let made = Owes-made_fifo name (os.mkfifo t name) owes in
      let u = made_fifo name (os.mkfifo t name) ∷ t in
      let fd = os.open_file u name nonblock_rdwr in
      elim (Bool-cases (mkfifo_fails os name t)) [
        | inl failed ↦
            rw (failed, new.some_address) (refl, Owes-freed clnt.address (Owes-unlinked name made))
        | inr fine ↦ elim (Bool-cases (eqb_ℤ fd minus_one)) [
          | inl failed ↦
              rw (fine, failed)
                (fail_with-Settled (record clnt { readfd = fd }) _ (with_readfd new)
                  (rw (is_open_failed fd failed)
                    (Owes-open_failed name nonblock_rdwr fd failed made)))
          | inr ok ↦
              rw (fine, ok)
                (reach_server-Settled (record clnt { readfd = fd }) pipename namelen wait_timeout
                  stack _ _ (with_readfd new) (is_open_ok fd ok (nonzero u name nonblock_rdwr))
                  (announcement-some clnt.pipename namelen stack short whole)
                  (Owes-opened name nonblock_rdwr fd ok made))
        ]
      ]

  create_client-Settled :
      (pipename : FilePath) (namelen pid : ℕ) (wait_timeout : ℤ) (stack : Pipemsg)
      → length stack ≡ 4096
      → Settled t0 (create_client os pipename namelen pid wait_timeout stack t0)
  unfolding create_client mem_alloc_zero mem_free
  create_client-Settled pipename namelen pid wait_timeout stack whole =
      let full = client_name pipename namelen pid in
      let p = os.calloc t0 in
      let size = sizeof_client + length full + 10 in
      let name = take (length full) (snprintf fifo_namelen_max full) in
      let u = allocated p size ∷ t0 in
      elim (Bool-cases (p == 0)) [
        | inl oom ↦ rw oom refl
        | inr some_address ↦ elim (Bool-cases (mkfifo_fails os name u)) [
          | inl failed ↦
              rw (some_address, name_fits_behind sizeof_client (length full), failed, some_address)
                (refl, Owes-freed p (Owes-made_fifo name _ (Owes-allocated p size (Owes-start t0))))
          | inr fine ↦
              rw (some_address, name_fits_behind sizeof_client (length full), fine)
                (open_reply_pipe-Settled (new_client p full) pipename namelen wait_timeout stack _
                  (new_client-IsNew p full some_address)
                  (omega (arith, length-take (length full) (take 254 full), length-take 254 full))
                  whole (Owes-made_fifo name _ (Owes-allocated p size (Owes-start t0))))
        ]
      ]

-- Whatever the system answers, as long as `open` never returns 0, and whatever the name and the
-- process id: `fifo_client_new` stays inside its buffers. If it exits, it has done nothing yet. If it
-- fails it returns FIFO_E_FAILED, and has closed each descriptor as often as `open` has returned it,
-- and freed each block as often as it has allocated it. If it succeeds it returns FIFO_S_OK, and the
-- same holds but for the two descriptors of the client, which it has opened once more each, and the
-- block of the client; those descriptors are neither 0 nor -1, and the client's name leaves room for
-- "-read".
pub client_new-Settled :
    (os : Os) (pathname : Option FilePath) (wait_timeout : ℤ) (stack : Pipemsg) (t : Trace)
    → OpensNonzero os
    → length stack ≡ 4096
    → Settled t (client_new os pathname wait_timeout stack t)
unfolding client_new
client_new-Settled os pathname wait_timeout stack t nonzero whole =
    let pipename = pipename_or_default pathname in
    let namelen = strnlen pipename 235 in
    elim (Bool-cases (namelen == 235)) [
      | inl long ↦ rw long (refl, Owes-start t)
      | inr short ↦ rw short (
          create_client-Settled os nonzero t pipename namelen (os.getpid t) wait_timeout stack
            whole)
    ]
