-- ===== src/Examples/WindowsRuns.antt =====
-- Runs of the code of src/fifo-win.c.
use fifo.Prelude.{
  ◌+◌, ◌≡◌, refl, true, false, some, [], ◌∷◌, ◌++◌, List, length-take, take, arith, ℕ,
}
use fifo.Prelude.Int.{pos, minus_one}
use fifo.Effect.{done}
use fifo.CString.{codes}
use fifo.Message.{set_msgsz, zero_msg}
use fifo.Message.Store.{overlay}
use fifo.Api.{fifo_s_ok}
use fifo.Windows.System.{
  System, Trace, signalled, created_pipe, global_allocated, other_error, more_data, read_file_done,
}
use fifo.Windows.Instance.{OnPipemsg, PipeInstance}
use fifo.Windows.System.{Completion, write_ended, read_ended}
use fifo.Windows.Instance.Life.{Lives, serve, serve-Lives}
use fifo.Windows.Server.{Server, Listener, server_new}
use fifo.Windows.Client.{Client, client_write}
use fifo.Windows.Client.Write.{writes, taken, client_write-Accepts}
use fifo.Windows.Client.Receive.{client_read, client_read-more_data}
use fifo.Windows.Server.Released.{ServerReleased, server_new-Released}
use fifo.Windows.Client.Timely.{ReadsAtMost, Timely, client_read-Timely}
use fifo.Examples.Systems.{two_bytes, two_bytes-size, zero_msg-length}

-- Every call succeeds, `WriteFile` takes three bytes at a time, and `ReadFile` delivers `two_bytes`.
abbrev pub windows : System
windows = record {
  calloc = λ t. 4096;
  global_alloc = λ t. 8192;
  create_event = λ t. pos 4;
  create_named_pipe = λ t path timeout. pos 12;
  connect_named_pipe = λ t h. false;
  set_event = λ t h. true;
  wait_ex = λ t timeout. signalled;
  overlapped_result = λ t h. true;
  last_error = λ t. other_error;
  create_file = λ t path. pos 8;
  wait_named_pipe = λ t path timeout. true;
  set_pipe_state = λ t h. true;
  disconnect = λ t h. true;
  read_file_ex = λ t h. true;
  write_file_ex = λ t h bytes. true;
  write_file = λ t h bytes. (true, 3);
  read_file = λ t h n. (true, take 6 two_bytes);
  peek_named_pipe = λ t h. true;
}

abbrev pub win_answers_two : OnPipemsg
win_answers_two = λ t request reply. two_bytes

abbrev pub win_instance : PipeInstance
win_instance = record { address = 4096; pipe_inst = pos 8; request = zero_msg; reply = zero_msg }

abbrev pub win_client : Client
win_client = record {
  address = 4096;
  named_pipe = pos 8;
  wait_timeout = minus_one;
  namelen = 10;
  pipename = codes "\\\\.\\pipe\\p";
}

-- the start, a request and its reply, and the end of the client
abbrev completions : List Completion
completions =
    write_ended 0 0 ∷ read_ended 0 6 two_bytes ∷ write_ended 0 6 ∷ read_ended 109 0 two_bytes ∷ []

serve-Lives_example :
    Lives windows 4096 (pos 8) [] (serve windows win_answers_two completions (some win_instance) [])
serve-Lives_example = serve-Lives windows win_answers_two completions win_instance [] refl

client_write-Accepts_example :
    (client_write windows 2 win_client two_bytes []
      ≡ done fifo_s_ok (writes windows (pos 8) two_bytes 6 (3 ∷ 3 ∷ []) 0 []))
    × (taken (writes windows (pos 8) two_bytes 6 (3 ∷ 3 ∷ []) 0 []) ≡ taken [] ++ take 6 two_bytes)
client_write-Accepts_example =
    client_write-Accepts windows win_client two_bytes 2 2 3 (3 ∷ []) [] two_bytes-size (omega arith)
      (omega arith) (omega arith, refl, (omega arith, refl, refl))

-- a message of eight bytes in two pieces
abbrev truncating : System
truncating = record windows {
  last_error = λ t. more_data;
  read_file =
      λ t h n. elim t [ [] ↦ (false, 4 ∷ 0 ∷ 0 ∷ 0 ∷ []) | _ ∷ _ ↦ (true, 9 ∷ 8 ∷ 7 ∷ 6 ∷ []) ];
}

client_read-more_data_example :
    client_read truncating 2 1 win_client two_bytes []
    ≡ done
        (
          fifo_s_ok,
          set_msgsz (pos 0) (overlay (9 ∷ 8 ∷ 7 ∷ 6 ∷ []) (overlay (4 ∷ 0 ∷ 0 ∷ 0 ∷ []) two_bytes)),
        )
        (read_file_done (pos 8) 4096 true (9 ∷ 8 ∷ 7 ∷ 6 ∷ [])
          ∷ read_file_done (pos 8) 4096 false (4 ∷ 0 ∷ 0 ∷ 0 ∷ [])
          ∷ [])
client_read-more_data_example =
    client_read-more_data truncating win_client refl 0 1 (4 ∷ 0 ∷ 0 ∷ 0 ∷ []) (9 ∷ 8 ∷ 7 ∷ 6 ∷ [])
      two_bytes [] (omega arith) (omega arith) (omega arith) refl refl refl

abbrev win_server : Server
win_server = record {
  address = 4096;
  connect_event = pos 4;
  client_timeout = pos 6000;
  connect_timeout = pos 6000;
  namelen = 10;
  pipename = codes "\\\\.\\pipe\\p";
}

-- no message comes
abbrev silent : System
silent = record windows {
  peek_named_pipe = λ t h. false;
  read_file = λ t h n. (true, take n two_bytes);
}

silent-ReadsAtMost : ReadsAtMost silent
silent-ReadsAtMost t h n = omega (arith, length-take {A = ℕ} n two_bytes)

abbrev waiting_client : Client
waiting_client = record win_client { wait_timeout = pos 25 }

client_read-Timely_example : Timely (25 + 10) [] (client_read silent 1 4 waiting_client zero_msg [])
client_read-Timely_example =
    client_read-Timely silent silent-ReadsAtMost (λ t. refl) waiting_client 25 refl (omega arith)
      (omega arith) 0 4 zero_msg [] zero_msg-length (omega arith)

server_new-Released_example :
    ServerReleased win_client.pipename
      (pos 25)
      minus_one
      []
      (server_new windows (some win_client.pipename) (pos 25) minus_one [])
server_new-Released_example =
    server_new-Released windows (some win_client.pipename) (pos 25) minus_one []

-- One instance lives beside the pipe that waits: its two calls and that of the pipe.
abbrev serving : Listener
serving = record { named_pipe = pos 8; pending = true; instances = win_instance ∷ [] }

abbrev served : Trace
served =
    created_pipe win_client.pipename (pos 25) (pos 8)
    ∷ global_allocated 4096
    ∷ created_pipe win_client.pipename (pos 25) (pos 8)
    ∷ []
