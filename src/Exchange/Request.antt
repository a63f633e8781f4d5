-- ===== src/Exchange/Request.antt =====
-- A request: `fifo_client_write` on one side, `readpipemsg_nb` on the other.
use fifo.Prelude.{
  ℕ, ◌+◌, ◌≤◌, ◌<◌, ◌≡◌, sym, ap, ◌∙◌, some, List, ◌∷◌, ◌++◌, take-append-drop, length, take, drop,
  if◌then◌else◌, arith, length-take, length-drop,
}
use fifo.Prelude.Int.{ℤ, pos, eqb_ℤ}
use fifo.Os.{Os, Trace, did_read, did_write, done}
use fifo.Message.{Pipemsg, sizeof_msgbuf, msgsz, msgbuf, decode32}
use fifo.Message.Store.{overlay}
use fifo.Message.Frame.{msgsz-overlay, msgbuf-overlay, length-frame, decode32-frame, msgbuf-frame}
use fifo.Api.{fifo_s_ok, fifo_e_failed}
use fifo.Reader.{readpipemsg_nb}
use fifo.Reader.Delivery.{Arrival, payload, Delivers, reads}
use fifo.Reader.Assembly.{readpipemsg_nb-Delivers}
use fifo.Client.{Client, client_write}
use fifo.Client.Write.{client_write-frame}

-- The client writes a message with a size in 0..4092; the server gets the bytes of that `write`, the
-- first four of them whole and the rest in pieces of any length with EAGAIN at any place between
-- them. Then `readpipemsg_nb` returns 0, with the size of the client's message, and with that many
-- bytes of its body.
pub readpipemsg_nb-client_write :
    (client_os : Os) (client : Client) (sent : Pipemsg) (t : Trace) (n : ℕ)
    → (server_os : Os) (fd : ℤ) (fuel : ℕ) (arrivals : List Arrival) (msg : Pipemsg) (u : Trace)
    → let frame = take (4 + n) sent in
      let r = client_os.write t client.writefd frame in
      let v = did_read fd 4 (some (take 4 frame)) ∷ u in
      let got = overlay frame msg in
      length sent ≡ 4096
      → msgsz sent ≡ pos n
      → n ≤ sizeof_msgbuf
      → length msg ≡ 4096
      → server_os.read u fd 4 ≡ some (take 4 frame)
      → payload arrivals ≡ drop 4 frame
      → Delivers server_os fd arrivals v
      → length arrivals < fuel
      → (client_write client_os client sent t
          ≡ done
              (if eqb_ℤ r (pos (4 + n)) then fifo_s_ok else fifo_e_failed)
              (did_write client.writefd frame r ∷ t))
        × (readpipemsg_nb server_os fuel fd msg u
            ≡ done (pos 0, got) (reads server_os fd arrivals v))
        × (msgsz got ≡ msgsz sent)
        × (take n (msgbuf got) ≡ take n (msgbuf sent))
readpipemsg_nb-client_write client_os client sent t n server_os fd fuel arrivals msg u whole size
      small room first rest answers enough =
    let frame = take (4 + n) sent in
    let long : 4 + n ≤ length sent = omega arith in
    let len : length frame ≡ 4 + n = length-frame sent n long in
    let left : length (payload arrivals) ≡ n =
      ap length rest ∙ omega (arith, length-drop 4 frame) in
    let decoded : decode32 (take 4 frame) ≡ pos n = decode32-frame sent n long ∙ size in
    (
      client_write-frame client_os client sent t n size small,
      readpipemsg_nb-Delivers server_os fd fuel arrivals (take 4 frame) msg u room
            (omega (arith, length-take 4 frame)) (decoded ∙ ap pos (sym left)) (omega arith) enough
            first answers
          ∙ ap
              (λ front.
                done (pos 0, overlay front msg)
                  (reads server_os fd arrivals (did_read fd 4 (some (take 4 frame)) ∷ u)))
              (ap (◌++◌ (take 4 frame)) rest ∙ take-append-drop 4 frame),
      msgsz-overlay frame msg (omega arith) ∙ decode32-frame sent n long,
      msgbuf-overlay n frame msg len ∙ msgbuf-frame sent n long,
    )
