-- ===== src/Examples/WindowsExchanges.antt =====
-- A request and its reply on Windows.
use fifo.Prelude.{◌-◌, ◌≡◌, refl, min, [], ◌∷◌, ◌++◌, length, take, some, true, arith}
use fifo.Prelude.Int.{pos}
use fifo.Effect.{done}
use fifo.Message.{Pipemsg, sizeof_msgbuf, msgsz, set_msgsz, msgbuf, decode32, zero_msg}
use fifo.Message.Store.{overlay}
use fifo.Api.{fifo_s_ok}
use fifo.Windows.System.{
  read_ended, write_ended, read_file_done, called_back, write_started, read_started,
}
use fifo.Windows.Instance.{PipeInstance, unless_started, cut_reply, complete}
use fifo.Windows.Instance.Cycle.{frame_of}
use fifo.Windows.Client.{client_write}
use fifo.Windows.Client.Receive.{client_read}
use fifo.Windows.Client.Write.{writes, taken}
use fifo.Windows.Exchange.{requested, client_read-complete-client_write}
use fifo.Examples.Systems.{two_bytes, two_bytes-length, two_bytes-size, zero_msg-length}
use fifo.Examples.WindowsRuns.{windows, win_answers_two, win_instance, win_client}

abbrev asking : PipeInstance
asking = requested win_instance two_bytes 2

abbrev answered : PipeInstance
answered = record asking { reply = (cut_reply two_bytes).1 }

abbrev got : Pipemsg
got = set_msgsz (pos (length (frame_of two_bytes) - 4)) (overlay (frame_of two_bytes) zero_msg)

two_bytes-frame : windows.read_file [] (pos 8) 4096 ≡ (true, frame_of two_bytes)
unfolding cut_reply msgsz decode32
two_bytes-frame = refl

client_read-complete-client_write_example :
    (client_write windows 2 win_client two_bytes []
      ≡ done fifo_s_ok (writes windows (pos 8) two_bytes 6 (3 ∷ 3 ∷ []) 0 []))
    × (taken (writes windows (pos 8) two_bytes 6 (3 ∷ 3 ∷ []) 0 []) ≡ taken [] ++ take 6 two_bytes)
    × (msgsz asking.request ≡ pos 2)
    × (take 2 (msgbuf asking.request) ≡ take 2 (msgbuf two_bytes))
    × (complete windows win_answers_two (read_ended 0 6 asking.request) win_instance []
        ≡ done (some answered) (
            write_started (pos 8) (frame_of two_bytes) true
            ∷ called_back asking.request two_bytes
            ∷ []))
    × (complete windows win_answers_two (write_ended 0 (length (frame_of two_bytes))) answered []
        ≡ unless_started windows true answered (read_started (pos 8) true ∷ []))
    × (client_read windows 1 2 win_client zero_msg []
        ≡ done (fifo_s_ok, got) (read_file_done (pos 8) 4096 true (frame_of two_bytes) ∷ []))
    × (msgsz got ≡ pos (min 2 sizeof_msgbuf))
    × (take (min 2 sizeof_msgbuf) (msgbuf got) ≡ take (min 2 sizeof_msgbuf) (msgbuf two_bytes))
client_read-complete-client_write_example =
    client_read-complete-client_write windows win_client two_bytes zero_msg 2 0 2 3 (3 ∷ []) [] []
      windows win_answers_two win_instance 2 [] [] two_bytes-length two_bytes-size (omega arith)
      (omega arith) (omega arith, refl, (omega arith, refl, refl)) two_bytes-length two_bytes-size
      (omega arith) refl zero_msg-length refl two_bytes-frame
