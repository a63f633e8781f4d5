-- ===== src/Windows/Instance/Cycle.antt =====
-- A request and its reply on an instance: what one completion routine starts is what the next expects.
use fifo.Prelude.{
  ge→ltb, ℕ, ◌+◌, ◌<◌, ◌≡◌, refl, true, some, List, ◌∷◌, length, take, zero, suc, lt→ltb, dec_lt,
  arith, length-take,
}
use fifo.Prelude.Signs.{all_done, not_positive, pos-ne_zero, some-ltb}
use fifo.Prelude.Int.{ℤ, pos, negsuc}
use fifo.Effect.{done}
use fifo.Message.{Pipemsg, sizeof_msgbuf, msgsz, set_msgsz}
use fifo.Message.Codec.{msgsz-set_msgsz}
use fifo.Worker.Reply.{length-set_msgsz}
use fifo.Windows.System.{System, Trace, called_back, write_started, read_started}
use fifo.Windows.Instance.{
  OnPipemsg, PipeInstance, unless_started, expected_written, completed_write, cut_reply,
  completed_read,
}

-- the bytes that `completed_read` writes for the reply of the callback
abbrev pub frame_of : Pipemsg → List ℕ
frame_of reply = take (cut_reply reply).0 (cut_reply reply).1

cut_positive :
    (reply : Pipemsg) (n : ℕ)
    → length reply ≡ 4096
    → msgsz reply ≡ pos n
    → 0 < n
    → length (frame_of reply) ≡ expected_written (cut_reply reply).1
unfolding cut_reply expected_written
cut_positive reply n whole size some_left = elim (dec_lt sizeof_msgbuf n) [
  | yes big ↦
      rw
        (
          size,
          some-ltb n some_left,
          lt→ltb sizeof_msgbuf n big,
          (msgsz-set_msgsz (pos 4092) reply (omega arith)).0,
        )
        (omega (
          arith,
          length-take 4096 (set_msgsz (pos 4092) reply),
          length-set_msgsz (pos 4092) reply (omega arith),
        ))
  | no fits ↦
      rw
        (
          size,
          some-ltb n some_left,
          ge→ltb sizeof_msgbuf n (omega arith),
          size,
          some-ltb n some_left,
        )
        (omega (arith, length-take (n + 4) reply))
]

-- `completed_write` expects as many bytes as `completed_read` hands over, whatever the callback left.
cut_reply-expected :
    (reply : Pipemsg) (size : ℤ)
    → length reply ≡ 4096
    → msgsz reply ≡ size
    → length (frame_of reply) ≡ expected_written (cut_reply reply).1
unfolding cut_reply expected_written
cut_reply-expected reply (pos zero) whole size = rw (size, size)
cut_reply-expected reply (pos (suc n)) whole size =
    cut_positive reply (suc n) whole size (omega arith)
cut_reply-expected reply (negsuc n) whole size = rw (size, not_positive n, size, not_positive n)

-- A request has been read without an error. Whatever the callback leaves in the reply, one write is
-- started; if it starts, and ends without an error and with all of its bytes, then the next read is
-- started: the instance lives if that starts, and is released if not.
pub completed_write-completed_read :
    (sys : System) (pipemsgcb : OnPipemsg) (inst : PipeInstance) (bytes_read : ℕ) (t : Trace)
    (u : Trace)
    → let reply = pipemsgcb t inst.request (set_msgsz (pos 0) inst.reply) in
      let inst' = record inst { reply = (cut_reply reply).1 } in
      let v = called_back inst.request reply ∷ t in
      length reply ≡ 4096
      → 0 < bytes_read
      → sys.write_file_ex v inst.pipe_inst (frame_of reply) ≡ true
      → (completed_read sys pipemsgcb 0 bytes_read inst t
          ≡ done (some inst') (write_started inst.pipe_inst (frame_of reply) true ∷ v))
        × (completed_write sys 0 (length (frame_of reply)) inst' u
            ≡ unless_started sys
                (sys.read_file_ex u inst.pipe_inst)
                inst'
                (read_started inst.pipe_inst (sys.read_file_ex u inst.pipe_inst) ∷ u))
unfolding completed_read completed_write
completed_write-completed_read sys pipemsgcb inst bytes_read t u whole some_bytes starts =
    let reply = pipemsgcb t inst.request (set_msgsz (pos 0) inst.reply) in
    let all = all_done _ _ (cut_reply-expected reply (msgsz reply) whole refl) in
    (rw (pos-ne_zero bytes_read some_bytes, starts), rw all)
