-- ===== src/Windows/Instance.antt =====
-- `pipe_instance_t` of src/fifo-win.c and the completion routines that move it from one operation to
-- the next.
pub mod Cycle
pub mod Life
pub mod Owned
use fifo.Prelude.{
  ℕ, ◌+◌, ◌&&◌, not, Bool, true, false, Option, none, some, ◌∷◌, take, ltb, ◌==◌, if◌then◌else◌,
}
use fifo.Prelude.Int.{ℤ, pos, pos_part, ltb_ℤ}
use fifo.Effect.{done, pure, ◌>>=◌, ◌>>◌}
use fifo.Message.{Pipemsg, sizeof_msgsz, sizeof_msgbuf, msgsz, set_msgsz}
use fifo.Windows.System.{
  Completion, write_ended, read_ended, System, Trace, called_back, Cmd, close_handle, global_free,
  disconnect, read_file_ex, write_file_ex,
}

-- `fifo_onpipemsg_cb` with its argument
abbrev pub OnPipemsg : Type 0
OnPipemsg = Trace → Pipemsg → Pipemsg → Pipemsg

pub record PipeInstance : Type 0 where
  pub address : ℕ
  pub pipe_inst : ℤ
  pub request : Pipemsg
  pub reply : Pipemsg

-- `cbToWrite`
unfoldable pub expected_written : Pipemsg → ℕ
expected_written reply =
    if ltb_ℤ (pos 0) (msgsz reply) then sizeof_msgsz + pos_part (msgsz reply) else 0

-- the reply cut to the size of `msgbuf`, and `cbBytesToWtite`
unfoldable pub cut_reply : Pipemsg → ℕ × Pipemsg
cut_reply reply =
    if ltb_ℤ (pos 0) (msgsz reply)
    then (if ltb sizeof_msgbuf (pos_part (msgsz reply))
        then (sizeof_msgbuf + sizeof_msgsz, set_msgsz (pos sizeof_msgbuf) reply)
        else (pos_part (msgsz reply) + sizeof_msgsz, reply))
    else (0, reply)

abbrev pub call_back : OnPipemsg → Pipemsg → Pipemsg → Cmd Pipemsg
call_back pipemsgcb request reply t =
    done (pipemsgcb t request reply) (called_back request (pipemsgcb t request reply) ∷ t)

module _ (sys : System) where
  unfoldable pub disconnect_and_close : PipeInstance → Cmd (Unit {0})
  disconnect_and_close inst = do
    ok ← disconnect sys inst.pipe_inst
    close_handle inst.pipe_inst
    if inst.address == 0 then pure tt else global_free inst.address

  -- The end of both routines: `none` is the released instance.
  unfoldable pub unless_started : Bool → PipeInstance → Cmd (Option PipeInstance)
  unfolding disconnect_and_close
  unless_started started inst =
      if started then pure (some inst) else (disconnect_and_close inst >> pure none)

  unfoldable pub completed_write : ℕ → ℕ → PipeInstance → Cmd (Option PipeInstance)
  unfolding unless_started expected_written
  completed_write err written inst =
      if (err == 0) && (written == expected_written inst.reply)
      then (do started ← read_file_ex sys inst.pipe_inst; unless_started started inst)
      else unless_started false inst

  unfoldable pub completed_read : OnPipemsg → ℕ → ℕ → PipeInstance → Cmd (Option PipeInstance)
  unfolding unless_started cut_reply
  completed_read pipemsgcb err bytes_read inst =
      if (err == 0) && not (bytes_read == 0)
      then (do
        reply ← call_back pipemsgcb inst.request (set_msgsz (pos 0) inst.reply)
        started ← write_file_ex sys inst.pipe_inst (take (cut_reply reply).0 (cut_reply reply).1)
        unless_started started (record inst { reply = (cut_reply reply).1 }))
      else unless_started false inst

  -- one completion, handed to the routine of its operation
  abbrev pub complete : OnPipemsg → Completion → PipeInstance → Cmd (Option PipeInstance)
  complete pipemsgcb (write_ended err written) inst = completed_write err written inst
  complete pipemsgcb (read_ended err bytes_read request) inst =
      completed_read pipemsgcb err bytes_read (record inst { request = request })
