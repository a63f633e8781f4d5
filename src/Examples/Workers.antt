-- ===== src/Examples/Workers.antt =====
-- Runs of the worker.
use fifo.Prelude.{[], arith}
use fifo.Effect.Emits.{Extends, trace_of}
use fifo.Worker.{worker_loop, client_fifo_worker}
use fifo.Worker.Frames.{IsFramed, worker_loop-IsFramed}
use fifo.Worker.Finish.{Finished, client_fifo_worker-Finished}
use fifo.Examples.Systems.{
  calm, piecemeal, answers_two, answers_two-KeepsLength, instance, zero_msg-length,
}

worker_loop-IsFramed_example :
    Extends IsFramed [] (trace_of (worker_loop piecemeal answers_two 2 4 instance []))
worker_loop-IsFramed_example =
    worker_loop-IsFramed piecemeal answers_two 2 4 instance [] answers_two-KeepsLength
      zero_msg-length

client_fifo_worker-Finished_example :
    Finished instance [] (client_fifo_worker calm answers_two 2 4 instance [])
client_fifo_worker-Finished_example =
    client_fifo_worker-Finished calm answers_two 2 4 instance [] answers_two-KeepsLength
      zero_msg-length (omega arith)
