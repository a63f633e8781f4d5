-- ===== src/Programs/Chat.antt =====
-- A run of examples/fifoclient.c whose requests are all answered.
use fifo.Prelude.{
  ◌^◌, ℕ, zero, suc, ◌+◌, ◌<◌, ◌≤◌, ◌≡◌, refl, ap, ◌∙◌, sym, some, List, [], ◌∷◌, ◌++◌, append-nil,
  append_assoc, length, take, arith, lt→ltb, length-take, drop-take,
}
use fifo.Programs.Texts.{SaysHellos, hello-SaysHello}
use fifo.Prelude.Signs.{same_int}
use fifo.Prelude.Int.{ℤ, pos, ◌-ℤ◌}
use fifo.Effect.Ends.{Ends, Ends-weaken}
use fifo.Os.{
  Os, Timeval, Trace, Run, done, exited, fault, out_of_fuel, did_write, did_read, mem_free,
}
use fifo.Message.{Pipemsg, msgsz, set_msgsz, msgbuf, decode32}
use fifo.Message.Store.{overlay, length-overlay}
use fifo.Api.{fifo_s_ok}
use fifo.Timeout.Select.{answer}
use fifo.Worker.Reply.{length-set_msgsz}
use fifo.Worker.Session.{written}
use fifo.Client.{Client, client_write, client_read, client_free, hang_up, unlink_reply_pipe}
use fifo.Client.Free.{IsConnected}
use fifo.Client.Read.{waited, ready, client_read-bytes}
use fifo.Client.Write.{client_write-frame}
use fifo.Programs.{hello, hello_msg, chat, chat_if_connected, at_exit}
use fifo.Programs.Hello.{hello_msg-text, length-hello_msg}

-- the texts of `n` rounds, of which the first is the `i`-th
unfoldable pub hellos : ℤ → ℕ → ℕ → List (ℤ × List ℕ)
hellos fd zero i = []
hellos fd (suc n) i = (fd, hello i) ∷ hellos fd n (i + 1)

hellos-SaysHellos : (fd : ℤ) (n i : ℕ) → i + n ≤ 10 ^ 10 → SaysHellos fd n i (hellos fd n i)
unfolding hellos
hellos-SaysHellos fd zero i less = tt
hellos-SaysHellos fd (suc n) i less =
    (refl, hello-SaysHello i (omega arith), hellos-SaysHellos fd n (i + 1) (omega arith))

-- the `read`s of a run
abbrev pub reads_count : Trace → ℕ
reads_count [] = 0
reads_count (did_read fd n got ∷ t) = suc (reads_count t)
reads_count (_ ∷ t) = reads_count t

-- The server takes each message and answers it before the timeout, with a message that fits.
pub record IsAnswered (os : Os) (readfd writefd : ℤ) : Type 0 where
  pub takes : (t : Trace) (frame : List ℕ) → os.write t writefd frame ≡ pos (length frame)
  pub comes : (t : Trace) (timeout : Timeval) → (answer os readfd timeout t).0 ≡ pos 1
  pub reply : Trace → List ℕ
  pub some_bytes : (t : Trace) → 0 < length (reply t)
  pub fits : (t : Trace) → length (reply t) ≤ 4096
  pub got : (t : Trace) → os.read t readfd 4096 ≡ some (reply t)

module _ (os : Os) (readfd writefd : ℤ) (answered : IsAnswered os readfd writefd) where
  -- what one round writes and leaves of the message
  module _ (i : ℕ) (client : Client) (msg : Pipemsg) (whole : length msg ≡ 4096) (t : Trace) where
    asking : Pipemsg
    asking = hello_msg i msg

    frame : List ℕ
    frame = take (4 + length (hello i)) (hello_msg i msg)

    frame-length : length frame ≡ 4 + length (hello i)
    unfolding frame
    frame-length = omega (
      arith,
      length-take (4 + length (hello i)) (hello_msg i msg),
      length-hello_msg i msg whole,
      hello_msg-text i msg whole,
    )

    frame-body : msgbuf frame ≡ hello i
    unfolding frame
    frame-body = drop-take 4 (length (hello i)) (hello_msg i msg) ∙ (hello_msg-text i msg whole).1

    write-hello :
        client.writefd ≡ writefd
        → client_write os client (hello_msg i msg) t
          ≡ done fifo_s_ok (did_write writefd frame (pos (length frame)) ∷ t)
    unfolding frame
    write-hello is =
        let n = length (hello i) in
        client_write-frame os client (hello_msg i msg) t n (hello_msg-text i msg whole).0
          (omega (arith, hello_msg-text i msg whole))
        ∙ rw (is, answered.takes t frame, frame-length, same_int (pos (4 + n))) refl

    -- the trace behind the request, and the message behind the reply
    abbrev said : Trace
    said = did_write writefd frame (pos (length frame)) ∷ t

    abbrev bytes : Trace → List ℕ
    bytes u = answered.reply u

    read-reply :
        (u : Trace)
        → client.readfd ≡ readfd
        → let v = ready os client (hello_msg i msg) u in
          client_read os client (hello_msg i msg) u
          ≡ done
              (
                fifo_s_ok,
                waited os client (hello_msg i msg) u,
                set_msgsz (pos (length (bytes v)) -ℤ pos 4) (overlay (bytes v) (hello_msg i msg)),
              )
              (did_read client.readfd 4096 (some (bytes v)) ∷ v)
    read-reply u is =
        let v = ready os client (hello_msg i msg) u in
        client_read-bytes os client (hello_msg i msg) u (bytes v)
          (ap (λ fd. (answer os fd client.wait_timeout u).0) is
            ∙ answered.comes u client.wait_timeout)
          (ap (λ fd. os.read v fd 4096) is ∙ answered.got v) (answered.some_bytes v)
          (omega (arith, answered.fits v, length-hello_msg i msg whole))

    reply-whole :
        (u : Trace)
        → length (set_msgsz (pos (length (bytes u)) -ℤ pos 4) (overlay (bytes u) (hello_msg i msg)))
          ≡ 4096
    reply-whole u =
        let same =
          length-overlay (bytes u) (hello_msg i msg)
            (omega (arith, answered.fits u, length-hello_msg i msg whole)) in
        length-set_msgsz (pos (length (bytes u)) -ℤ pos 4) (overlay (bytes u) (hello_msg i msg))
          (omega (arith, same, length-hello_msg i msg whole))
        ∙ same
        ∙ length-hello_msg i msg whole

  chat-talks :
      (rounds i : ℕ) (client : Client) (msg : Pipemsg) (t : Trace) (total : List (ℤ × List ℕ))
      (count : ℕ)
      → length msg ≡ 4096
      → client.readfd ≡ readfd
      → client.writefd ≡ writefd
      → written t ++ hellos writefd rounds i ≡ total
      → reads_count t + rounds ≡ count
      → Ends (λ _ u. (written u ≡ total) × (reads_count u ≡ count)) (chat os rounds i client msg t)
  unfolding chat hellos
  chat-talks zero i client msg t total count whole is_read is_write same counted =
      (sym (append-nil (written t)) ∙ same, omega arith)
  chat-talks (suc rounds) i client msg t total count whole is_read is_write same counted =
      let u = said i client msg whole t in
      let v = ready os client (hello_msg i msg) u in
      rw (write-hello i client msg whole t is_write, read-reply i client msg whole t u is_read)
        (chat-talks rounds (i + 1) (waited os client (hello_msg i msg) u) _ _ total count
          (reply-whole i client msg whole t v) is_read is_write
          (ap (λ body. (written t ++ (writefd, body) ∷ []) ++ hellos writefd rounds (i + 1))
              (frame-body i client msg whole t)
            ∙ append_assoc (written t) ((writefd, hello i) ∷ []) (hellos writefd rounds (i + 1))
            ∙ same)
          (omega arith))

-- `fifo_client_free` of a connected client writes the end of the conversation, and reads nothing.
client_free-says_end :
    (os : Os) (client : Client) (t : Trace)
    → IsConnected client
    → Ends
        (λ _ u.
          (written u ≡ written t ++ (client.writefd, []) ∷ []) × (reads_count u ≡ reads_count t))
        (client_free os client t)
unfolding client_free hang_up unlink_reply_pipe client_write mem_free msgsz decode32
client_free-says_end os client t con =
    rw (con.reading, con.writing, lt→ltb _ _ con.room, con.some_address) (refl, refl)

-- On a connected client, and if the server takes each message and answers it in time, with at least
-- one byte and no more than a message has: the program fifoclient.c writes 10000 texts, of which the
-- n-th is "[", digits that stand for the number n, and "] hello from client", reads a reply to each, and then its exit handler writes a message without a body, the end of the conversation;
-- it writes and reads nothing else, and returns. The message of `main` has its 4096 bytes.
pub chat_if_connected-talks :
    (os : Os) (rc : ℤ) (client : Client) (stack : Pipemsg) (t : Trace)
    → IsConnected client
    → IsAnswered os client.readfd client.writefd
    → length stack ≡ 4096
    → Ends
        (λ _ u.
          (texts : List (ℤ × List ℕ)) × SaysHellos client.writefd 10_000 1 texts
          × (written u ≡ (written t ++ texts) ++ (client.writefd, []) ∷ [])
          × (reads_count u ≡ reads_count t + 10_000))
        (chat_if_connected os (rc, some client) stack t)
unfolding chat_if_connected
chat_if_connected-talks os rc client stack t con answered whole =
    freed (chat os 10_000 1 client stack t) (
      chat-talks os client.readfd client.writefd answered 10_000 1 client stack t total count whole
        refl refl refl refl)
  where
    total : List (ℤ × List ℕ)
    total = written t ++ hellos client.writefd 10_000 1

    count : ℕ
    count = reads_count t + 10_000

    freed :
        (r : Run (Unit {0}))
        → Ends (λ _ u. (written u ≡ total) × (reads_count u ≡ count)) r
        → Ends
            (λ _ u.
              (texts : List (ℤ × List ℕ)) × SaysHellos client.writefd 10_000 1 texts
              × (written u ≡ (written t ++ texts) ++ (client.writefd, []) ∷ [])
              × (reads_count u ≡ count))
            (at_exit (client_free os client) r)
    freed (done a u) (same, counted) =
        Ends-weaken _ _ (client_free os client u) (client_free-says_end os client u con)
          (λ _ v (said_end, no_read). (
            hellos client.writefd 10_000 1,
            hellos-SaysHellos client.writefd 10_000 1 (omega arith),
            said_end ∙ ap (λ ws. ws ++ (client.writefd, []) ∷ []) same,
            no_read ∙ counted,
          ))
    freed (exited u) h = absurd h
    freed (fault u) h = h
    freed (out_of_fuel u) h = h
