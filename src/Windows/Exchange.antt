-- ===== src/Windows/Exchange.antt =====
-- A request and its reply on Windows: `fifo_client_write` and `fifo_client_read` on one side, the
-- completion routines of an instance on the other.
use fifo.Prelude.{
  suc, ℕ, ◌+◌, ◌-◌, ◌≤◌, ◌<◌, ◌≡◌, refl, ap, ◌∙◌, true, some, min, List, ◌∷◌, ◌++◌, length, take,
  lt→ltb, ge→ltb, dec_lt, arith, take-take_le,
}
use fifo.Prelude.Signs.{some-ltb}
use fifo.Prelude.Int.{pos, ltb_ℤ}
use fifo.Effect.{done}
use fifo.Message.{Pipemsg, sizeof_msgbuf, msgsz, set_msgsz, msgbuf}
use fifo.Message.Codec.{msgsz-set_msgsz, msgbuf-set_msgsz}
use fifo.Message.Frame.{msgsz-overlay, msgbuf-overlay, length-frame, decode32-frame, msgbuf-frame}
use fifo.Message.Store.{overlay}
use fifo.Api.{fifo_s_ok}
use fifo.Worker.{clamp_reply}
use fifo.Worker.Reply.{IsFrame, clamp_reply-IsFrame}
use fifo.Windows.System.{
  System, Trace, read_ended, write_ended, read_file_done, called_back, write_started, read_started,
}
use fifo.Windows.Instance.{OnPipemsg, PipeInstance, unless_started, cut_reply, complete}
use fifo.Windows.Instance.Cycle.{frame_of, completed_write-completed_read}
use fifo.Windows.Client.{Client, client_write}
use fifo.Windows.Client.Receive.{client_read, client_read-whole}
use fifo.Windows.Client.Write.{writes, taken, Accepts, client_write-Accepts}

-- A reply of positive size is cut as the worker of src/fifo.c cuts it.
cut_reply-clamp_reply :
    (reply : Pipemsg) (n : ℕ) → msgsz reply ≡ pos n → 0 < n → cut_reply reply ≡ clamp_reply reply
unfolding cut_reply clamp_reply
cut_reply-clamp_reply reply n size some_left = elim (dec_lt sizeof_msgbuf n) [
  | yes big ↦
      rw (size, some-ltb n some_left, lt→ltb sizeof_msgbuf n big, lt→ltb 4096 (4 + n) (omega arith))
        refl
  | no fits ↦
      let same : n + 4 ≡ 4 + n = omega arith in
      rw
        (
          size,
          some-ltb n some_left,
          ge→ltb sizeof_msgbuf n (omega arith),
          ge→ltb 4096 (4 + n) (omega arith),
          same,
        )
        refl
]

frame_of-IsFrame :
    (reply : Pipemsg) (n : ℕ)
    → length reply ≡ 4096
    → msgsz reply ≡ pos n
    → 0 < n
    → IsFrame (min n sizeof_msgbuf) (msgbuf reply) (frame_of reply)
frame_of-IsFrame reply n whole size some_left =
    rw (cut_reply-clamp_reply reply n size some_left) (clamp_reply-IsFrame n reply whole size).1

module _ (sys : System) (client : Client) where
  -- A reply comes to a client without a timeout.
  client_read-frame_of :
      (reply buffer : Pipemsg) (n rounds fuel : ℕ) (t : Trace)
      → let frame = frame_of reply in
        let m = min n sizeof_msgbuf in
        let got = set_msgsz (pos (length frame - 4)) (overlay frame buffer) in
        length reply ≡ 4096
        → msgsz reply ≡ pos n
        → 0 < n
        → length buffer ≡ 4096
        → ltb_ℤ client.wait_timeout (pos 0) ≡ true
        → sys.read_file t client.named_pipe 4096 ≡ (true, frame)
        → (client_read sys (suc rounds) fuel client buffer t
            ≡ done (fifo_s_ok, got) (read_file_done client.named_pipe 4096 true frame ∷ t))
          × (msgsz got ≡ pos m)
          × (take m (msgbuf got) ≡ take m (msgbuf reply))
  client_read-frame_of reply buffer n rounds fuel t whole size some_left room infinite got =
      let frame = frame_of reply in
      let m = min n sizeof_msgbuf in
      let is = frame_of-IsFrame reply n whole size some_left in
      let len : length frame ≡ 4 + m = is.len in
      let body : length frame - 4 ≡ m = omega arith in
      (
        client_read-whole sys client infinite rounds fuel frame buffer t (omega arith) (omega arith)
            got,
        ap (λ k. msgsz (set_msgsz (pos k) (overlay frame buffer))) body
            ∙ (msgsz-set_msgsz (pos m) (overlay frame buffer) (omega arith)).0,
        ap (take m) (msgbuf-set_msgsz (pos (length frame - 4)) (overlay frame buffer))
            ∙ msgbuf-overlay m frame buffer len
            ∙ ap (take m) is.tail
            ∙ take-take_le m m (msgbuf reply) (omega arith),
      )

-- the instance with the request of a client whose message has the size `n`
abbrev pub requested : PipeInstance → Pipemsg → ℕ → PipeInstance
requested inst sent n = record inst { request = overlay (take (4 + n) sent) inst.request }

-- the reply that the callback leaves for it, called with the size 0
abbrev pub reply_to : OnPipemsg → PipeInstance → Trace → Pipemsg
reply_to pipemsgcb inst t = pipemsgcb t inst.request (set_msgsz (pos 0) inst.reply)

-- One exchange of a client without a timeout and an instance of the server. The message has a size
-- `n` in 0..4092, the callback's reply a positive size `k`, and every struct its 4096 bytes. The
-- client's system takes the message by and by; the instance's read ends without an error and with
-- those bytes over the last request, and its write starts; one `ReadFile` of the client delivers the
-- bytes of that write. Then `fifo_client_write` returns FIFO_S_OK and hands over the size field and
-- `n` bytes of the body; the callback sees a request with this size and this body; one write is
-- started, and where it ends with all of its bytes the next read is; `fifo_client_read` returns
-- FIFO_S_OK, with the size of the reply, or 4092 if that is less, and with that much of its body.
pub client_read-complete-client_write :
    (client_sys : System) (client : Client) (sent buffer : Pipemsg) (n rounds fuel j : ℕ)
    (js : List ℕ) (v w : Trace)
    → (server_sys : System) (pipemsgcb : OnPipemsg) (old : PipeInstance) (k : ℕ) (t u : Trace)
    → let pipe = client.named_pipe in
      let frame = take (4 + n) sent in
      let handed = writes client_sys pipe sent (4 + n) (j ∷ js) 0 v in
      let inst = requested old sent n in
      let reply = reply_to pipemsgcb inst t in
      let answer = frame_of reply in
      let inst' = record inst { reply = (cut_reply reply).1 } in
      let called = called_back inst.request reply ∷ t in
      let m = min k sizeof_msgbuf in
      let got = set_msgsz (pos (length answer - 4)) (overlay answer buffer) in
      length sent ≡ 4096
      → msgsz sent ≡ pos n
      → n ≤ sizeof_msgbuf
      → length js < fuel
      → Accepts client_sys pipe sent (4 + n) (j ∷ js) 0 v
      → length reply ≡ 4096
      → msgsz reply ≡ pos k
      → 0 < k
      → server_sys.write_file_ex called old.pipe_inst answer ≡ true
      → length buffer ≡ 4096
      → ltb_ℤ client.wait_timeout (pos 0) ≡ true
      → client_sys.read_file w pipe 4096 ≡ (true, answer)
      → (client_write client_sys fuel client sent v ≡ done fifo_s_ok handed)
        × (taken handed ≡ taken v ++ frame)
        × (msgsz inst.request ≡ pos n)
        × (take n (msgbuf inst.request) ≡ take n (msgbuf sent))
        × (complete server_sys pipemsgcb (read_ended 0 (4 + n) inst.request) old t
            ≡ done (some inst') (write_started old.pipe_inst answer true ∷ called))
        × (complete server_sys pipemsgcb (write_ended 0 (length answer)) inst' u
            ≡ unless_started server_sys
                (server_sys.read_file_ex u old.pipe_inst)
                inst'
                (read_started old.pipe_inst (server_sys.read_file_ex u old.pipe_inst) ∷ u))
        × (client_read client_sys (suc rounds) fuel client buffer w
            ≡ done (fifo_s_ok, got) (read_file_done pipe 4096 true answer ∷ w))
        × (msgsz got ≡ pos m)
        × (take m (msgbuf got) ≡ take m (msgbuf reply))
client_read-complete-client_write client_sys client sent buffer n rounds fuel j js v w server_sys
      pipemsgcb old k t u whole size small enough accepts reply_whole reply_size some_left starts
      room infinite delivered =
    let frame = take (4 + n) sent in
    let long : 4 + n ≤ length sent = omega arith in
    let len : length frame ≡ 4 + n = length-frame sent n long in
    let inst = requested old sent n in
    let written =
      client_write-Accepts client_sys client sent n fuel j js v size small enough accepts in
    let cycle =
      completed_write-completed_read server_sys pipemsgcb inst (4 + n) t u reply_whole (omega arith)
        starts in
    let read =
      client_read-frame_of client_sys client (reply_to pipemsgcb inst t) buffer k rounds fuel w
        reply_whole reply_size some_left room infinite delivered in
    (
      written.0,
      written.1,
      msgsz-overlay frame old.request (omega arith) ∙ decode32-frame sent n long ∙ size,
      msgbuf-overlay n frame old.request len ∙ msgbuf-frame sent n long,
      cycle.0,
      cycle.1,
      read.0,
      read.1,
      read.2,
    )
