-- ===== src/Windows/Instance/Owned.antt =====
-- What an instance owns: the handle of its pipe and its block, both or neither.
use fifo.Prelude.{ℕ, List, ◌≡◌, ◌&&◌, not, Bool, true, false, Option, none, some, ◌∷◌, take, ◌==◌}
use fifo.Prelude.Int.{ℤ, pos}
use fifo.Effect.Ends.{Ends, Ends-if}
use fifo.Message.{set_msgsz}
use fifo.Windows.System.{
  System, Trace, Completion, write_ended, read_ended, called_back, read_started, write_started,
}
use fifo.Windows.Balance.{
  Holds, Holds-closed, Holds-global_freed, neutral, calls, disconnects, reads, writes,
}
use fifo.Windows.Instance.{
  OnPipemsg, PipeInstance, cut_reply, expected_written, disconnect_and_close, unless_started,
  completed_write, completed_read, complete,
}

abbrev pub IsLive : PipeInstance → Type 0
IsLive inst = (inst.address == 0) ≡ false

-- The instance lives on and owns its two, or has given them back.
abbrev pub Owned : (k : List ℤ) (b : List ℕ) → Trace → Option PipeInstance → Trace → Type 0
Owned k b t none u = Holds k b t u
Owned k b t (some inst) u = IsLive inst × Holds (inst.pipe_inst ∷ k) (inst.address ∷ b) t u

module _ (sys : System) (t0 : Trace) (k : List ℤ) (b : List ℕ) where
  unless_started-Owned :
      (started : Bool) (inst : PipeInstance) (t : Trace)
      → IsLive inst
      → Holds (inst.pipe_inst ∷ k) (inst.address ∷ b) t0 t
      → Ends (Owned k b t0) (unless_started sys started inst t)
  unfolding unless_started disconnect_and_close
  unless_started-Owned true inst t live h = (live, h)
  unless_started-Owned false inst t live h = rw live (
      Holds-global_freed inst.address (
        Holds-closed inst.pipe_inst
          (neutral (disconnects inst.pipe_inst (sys.disconnect t inst.pipe_inst)) h)))

  pub completed_write-Owned :
      (err written : ℕ) (inst : PipeInstance) (t : Trace)
      → IsLive inst
      → Holds (inst.pipe_inst ∷ k) (inst.address ∷ b) t0 t
      → Ends (Owned k b t0) (completed_write sys err written inst t)
  unfolding completed_write
  completed_write-Owned err written inst t live h =
      let started = sys.read_file_ex t inst.pipe_inst in
      Ends-if (Owned k b t0) ((err == 0) && (written == expected_written inst.reply)) _ _ t
        (λ all.
          unless_started-Owned started inst (read_started inst.pipe_inst started ∷ t) live
            (neutral (reads inst.pipe_inst started) h))
        (λ failed. unless_started-Owned false inst t live h)

  completed_read-Owned :
      (pipemsgcb : OnPipemsg) (err bytes_read : ℕ) (inst : PipeInstance) (t : Trace)
      → IsLive inst
      → Holds (inst.pipe_inst ∷ k) (inst.address ∷ b) t0 t
      → Ends (Owned k b t0) (completed_read sys pipemsgcb err bytes_read inst t)
  unfolding completed_read
  completed_read-Owned pipemsgcb err bytes_read inst t live h =
      let reply = pipemsgcb t inst.request (set_msgsz (pos 0) inst.reply) in
      let u = called_back inst.request reply ∷ t in
      let (count, reply') = cut_reply reply in
      let frame = take count reply' in
      let started = sys.write_file_ex u inst.pipe_inst frame in
      Ends-if (Owned k b t0) ((err == 0) && not (bytes_read == 0)) _ _ t
        (λ some_read.
          unless_started-Owned started (record inst { reply = reply' })
            (write_started inst.pipe_inst frame started ∷ u) live
            (neutral (writes inst.pipe_inst frame started) (neutral (calls inst.request reply) h)))
        (λ failed. unless_started-Owned false inst t live h)

  pub complete-Owned :
      (pipemsgcb : OnPipemsg) (c : Completion) (inst : PipeInstance) (t : Trace)
      → IsLive inst
      → Holds (inst.pipe_inst ∷ k) (inst.address ∷ b) t0 t
      → Ends (Owned k b t0) (complete sys pipemsgcb c inst t)
  complete-Owned pipemsgcb (write_ended err written) inst t live h =
      completed_write-Owned err written inst t live h
  complete-Owned pipemsgcb (read_ended err bytes_read request) inst t live h =
      completed_read-Owned pipemsgcb err bytes_read (record inst { request = request }) t live h
