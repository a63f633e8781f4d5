-- ===== src/Windows/Server/Invariant.antt =====
-- What the loop of the server of src/fifo-win.c owns: the pipe that waits for a client, and for each
-- instance that lives its pipe and its block.
use fifo.Prelude.{
  ◌≡◌, refl, sym, ℕ, ◌+◌, Bool-cases, inl, inr, true, false, Option, none, some, List, [], ◌∷◌,
  ◌==◌, arith,
}
use fifo.Prelude.Int.{ℤ, eqb_ℤ}
use fifo.Effect.{Run, and_then}
use fifo.Effect.Outcomes.{Stops, Outcome, and_then-Outcome}
use fifo.Effect.Ends.{Ends-Outcome, Ends}
use fifo.Windows.System.{
  System, Event, LastError, io_pending, pipe_connected, Trace, Cmd, Completion, invalid_handle,
  created_pipe, connected,
}
use fifo.Windows.Balance.{
  is_handle, is_block, times, block_times, Holds-same, Holds, Holds-pipe, neutral, connects, sets,
}
use fifo.Windows.Instance.{OnPipemsg, PipeInstance, complete}
use fifo.Windows.Instance.Owned.{IsLive, Owned, complete-Owned}
use fifo.Windows.Server.{
  Server, Listener, kept, connecting, connect_to_new_client, listen, complete_at, run_completions,
}

abbrev pub AllLive : List PipeInstance → Type 0
AllLive [] = Unit {0}
AllLive (inst ∷ insts) = IsLive inst × AllLive insts

-- the pipes of the instances, in front of other handles
abbrev pub pipes : List PipeInstance → List ℤ → List ℤ
pipes [] js = js
pipes (inst ∷ insts) js = inst.pipe_inst ∷ pipes insts js

-- the blocks of the instances, in front of others
abbrev pub blocks : List PipeInstance → List ℕ → List ℕ
blocks [] ps = ps
blocks (inst ∷ insts) ps = inst.address ∷ blocks insts ps

-- The instances live; held are the pipe and the block of each, and the handles `js` and the blocks
-- `ps`.
abbrev pub OwnedBy : List ℤ → List ℕ → Trace → List PipeInstance → Trace → Type 0
OwnedBy js ps t insts u = AllLive insts × Holds (pipes insts js) (blocks insts ps) t u

times-pipes :
    (x h : ℤ) (js : List ℤ) (insts : List PipeInstance)
    → times x (pipes insts (h ∷ js)) ≡ is_handle x h + times x (pipes insts js)
times-pipes x h js [] = refl
times-pipes x h js (inst ∷ insts) = omega (arith, times-pipes x h js insts)

times-blocks :
    (y p : ℕ) (ps : List ℕ) (insts : List PipeInstance)
    → block_times y (blocks insts (p ∷ ps)) ≡ is_block y p + block_times y (blocks insts ps)
times-blocks y p ps [] = refl
times-blocks y p ps (inst ∷ insts) = omega (arith, times-blocks y p ps insts)

-- A handle behind those of the instances is as good as in front of them.
module _ (h : ℤ) (js : List ℤ) {ps : List ℕ} {t u : Trace} (insts : List PipeInstance) where
  pub pipe_in_front : Holds (pipes insts (h ∷ js)) ps t u → Holds (h ∷ pipes insts js) ps t u
  pipe_in_front = Holds-same (λ x. times-pipes x h js insts) (λ y. refl)

  pub pipe_behind : Holds (h ∷ pipes insts js) ps t u → Holds (pipes insts (h ∷ js)) ps t u
  pipe_behind = Holds-same (λ x. sym (times-pipes x h js insts)) (λ y. refl)

-- So is a block.
module _ (p : ℕ) (ps : List ℕ) {js : List ℤ} {t u : Trace} (insts : List PipeInstance) where
  block_in_front : Holds js (blocks insts (p ∷ ps)) t u → Holds js (p ∷ blocks insts ps) t u
  block_in_front = Holds-same (λ x. refl) (λ y. times-blocks y p ps insts)

  block_behind : Holds js (p ∷ blocks insts ps) t u → Holds js (blocks insts (p ∷ ps)) t u
  block_behind = Holds-same (λ x. refl) (λ y. sym (times-blocks y p ps insts))

-- between two rounds
abbrev pub OwnedByServer : Trace → Listener → Trace → Type 0
OwnedByServer t st u = OwnedBy (st.named_pipe ∷ []) [] t st.instances u

abbrev pub may_exit : Stops Event
may_exit = record { on_exit = λ u. Unit {0}; on_fault = λ u. ⊥; on_fuel = λ u. ⊥ }

-- The run ends in a result with this, or by `exit`, and never in a fault or for want of fuel.
abbrev pub EndsOrExits : {A : Type 0} → (A → Trace → Type 0) → Run Event A → Type 0
EndsOrExits Q = Outcome may_exit Q

pub and_then-EndsOrExits :
    {A B : Type 0} (Q : A → Trace → Type 0) (R : B → Trace → Type 0) (r : Run Event A)
    (k : A → Cmd B)
    → EndsOrExits Q r
    → ((a : A) (u : Trace) → Q a u → EndsOrExits R (k a u))
    → EndsOrExits R (and_then r k)
and_then-EndsOrExits Q R r k h next = and_then-Outcome may_exit Q R r k h next

pub ends : {A : Type 0} (Q : A → Trace → Type 0) (r : Run Event A) → Ends Q r → EndsOrExits Q r
ends Q r h = Ends-Outcome may_exit Q r h

module _ (sys : System) (t0 : Trace) where
  pub kept-OwnedBy :
      (j : List ℤ) (i : List ℕ) (r : Option PipeInstance) (insts : List PipeInstance) (u : Trace)
      → AllLive insts
      → Owned (pipes insts j) (blocks insts i) t0 r u
      → OwnedBy j i t0 (kept r insts) u
  kept-OwnedBy j i none insts u live h = (live, h)
  kept-OwnedBy j i (some inst) insts u live (inst_live, h) = ((inst_live, live), h)

  complete_at-OwnedBy :
      (pipemsgcb : OnPipemsg) (p : ℕ) (c : Completion) (j : List ℤ) (i : List ℕ)
      (insts : List PipeInstance) (t : Trace)
      → OwnedBy j i t0 insts t
      → EndsOrExits (OwnedBy j i t0) (complete_at sys pipemsgcb p c insts t)
  unfolding complete_at
  complete_at-OwnedBy pipemsgcb p c j i [] t h = h
  complete_at-OwnedBy pipemsgcb p c j i (inst ∷ insts) t ((live, rest), h) =
      let k = pipes insts j in
      let b = blocks insts i in
      elim (Bool-cases (inst.address == p)) [
        | inl here ↦ rw here (
            and_then-EndsOrExits (Owned k b t0) (OwnedBy j i t0) (complete sys pipemsgcb c inst t) _
              (ends (Owned k b t0) (complete sys pipemsgcb c inst t)
                (complete-Owned sys t0 k b pipemsgcb c inst t live h))
              (λ r u o. kept-OwnedBy j i r insts u rest o))
        | inr further ↦ rw further (
            and_then-EndsOrExits (OwnedBy (inst.pipe_inst ∷ j) (inst.address ∷ i) t0)
              (OwnedBy j i t0) (complete_at sys pipemsgcb p c insts t) _
              (complete_at-OwnedBy pipemsgcb p c (inst.pipe_inst ∷ j) (inst.address ∷ i) insts t
                (rest, pipe_behind inst.pipe_inst j insts (block_behind inst.address i insts h)))
              (λ insts' u (rest', h'). (
                (live, rest'),
                block_in_front inst.address i insts' (pipe_in_front inst.pipe_inst j insts' h'),
              )))
      ]

  pub run_completions-OwnedBy :
      (pipemsgcb : OnPipemsg) (cs : List (ℕ × Completion)) (j : List ℤ) (insts : List PipeInstance)
      (t : Trace)
      → OwnedBy j [] t0 insts t
      → EndsOrExits (OwnedBy j [] t0) (run_completions sys pipemsgcb cs insts t)
  unfolding run_completions
  run_completions-OwnedBy pipemsgcb [] j insts t h = h
  run_completions-OwnedBy pipemsgcb ((p, c) ∷ rest) j insts t h =
      and_then-EndsOrExits (OwnedBy j [] t0) (OwnedBy j [] t0)
        (complete_at sys pipemsgcb p c insts t) _ (complete_at-OwnedBy pipemsgcb p c j [] insts t h)
        (λ insts' u h'. run_completions-OwnedBy pipemsgcb rest j insts' u h')

  connecting-Holds :
      (event : ℤ) (e : LastError) (k : List ℤ) (b : List ℕ) (t : Trace)
      → Holds k b t0 t
      → EndsOrExits (λ _ u. Holds k b t0 u) (connecting sys event e t)
  unfolding connecting
  connecting-Holds event io_pending k b t h = h
  connecting-Holds event pipe_connected k b t h = neutral (sets event (sys.set_event t event)) h
  connecting-Holds event LastError.pipe_busy k b t h = h
  connecting-Holds event LastError.more_data k b t h = h
  connecting-Holds event LastError.other_error k b t h = h

  connect_to_new_client-Holds :
      (pipe event : ℤ) (k : List ℤ) (b : List ℕ) (t : Trace)
      → Holds k b t0 t
      → EndsOrExits (λ _ u. Holds k b t0 u) (connect_to_new_client sys pipe event t)
  unfolding connect_to_new_client
  connect_to_new_client-Holds pipe event k b t h =
      elim (Bool-cases (sys.connect_named_pipe t pipe)) [
        | inl ok ↦ rw ok (neutral (connects pipe true) h)
        | inr failed ↦ rw failed (
            connecting-Holds event (sys.last_error (connected pipe false ∷ t)) k b
              (connected pipe false ∷ t) (neutral (connects pipe false) h))
      ]

  -- a new pipe beside those of the instances
  pub listen-Owned :
      (server : Server) (insts : List PipeInstance) (t : Trace)
      → OwnedBy [] [] t0 insts t
      → EndsOrExits (OwnedByServer t0) (listen sys server insts t)
  unfolding listen
  listen-Owned server insts t (live, h) =
      let h0 = sys.create_named_pipe t server.pipename server.client_timeout in
      let u = created_pipe server.pipename server.client_timeout h0 ∷ t in
      let k = h0 ∷ pipes insts [] in
      let b = blocks insts [] in
      elim (Bool-cases (eqb_ℤ h0 invalid_handle)) [
        | inl failed ↦ rw failed tt
        | inr valid ↦ rw valid (
            and_then-EndsOrExits (λ _ u. Holds k b t0 u) (OwnedByServer t0)
              (connect_to_new_client sys h0 server.connect_event u) _
              (connect_to_new_client-Holds h0 server.connect_event k b u
                (Holds-pipe server.pipename server.client_timeout h0 valid h))
              (λ pending v h'. (live, pipe_behind h0 [] insts h')))
      ]
