-- ===== src/Worker/Frames.antt =====
-- What the worker writes.
use fifo.Prelude.{ℕ, ◌+◌, ◌<◌, ◌≤◌, ◌≡◌, length, take}
use fifo.Prelude.Int.{pos}
use fifo.Os.{Os, Event, did_write, Trace}
use fifo.Effect.Emits.{Extends, trace_of}
use fifo.Message.{sizeof_msgbuf, decode32}
use fifo.Worker.{OnPipemsg, PipeInstance, worker_loop}
use fifo.Worker.Emits.{Permits, worker_loop-Emits}
use fifo.Worker.Keeps.{KeepsLength}

-- If the event is a `write`, it is of one whole message, with a size in 1..4092 that is the number of
-- the bytes behind the size field.
abbrev pub IsFramed : Event → Type 0
IsFramed (did_write fd frame r) =
    (m : ℕ) × (0 < m)
    × (m ≤ sizeof_msgbuf)
    × (length frame ≡ 4 + m)
    × (decode32 (take 4 frame) ≡ pos m)
IsFramed _ = Unit {0}

IsFramed-Permits : Permits IsFramed
IsFramed-Permits = record {
  reads = λ fd n got. tt;
  selects = λ fd timeout rc. tt;
  callbacks = λ request reply. tt;
  frames = λ fd r m body frame p q is. (m, p, q, is.len, is.size);
}

-- Whatever the system and the client do, if the reply has its 4096 bytes and the callback leaves it
-- them: every `write` of the worker's loop is of one well-formed message that is not empty and fits a pipe's
-- atomic 4096 bytes.
pub worker_loop-IsFramed :
    (os : Os) (pipemsgcb : OnPipemsg) (rounds fuel : ℕ) (inst : PipeInstance) (t : Trace)
    → KeepsLength pipemsgcb
    → length inst.reply ≡ 4096
    → Extends IsFramed t (trace_of (worker_loop os pipemsgcb rounds fuel inst t))
worker_loop-IsFramed os pipemsgcb rounds fuel inst t keeps whole =
    (worker_loop-Emits IsFramed-Permits os pipemsgcb keeps rounds fuel inst whole).emits t
