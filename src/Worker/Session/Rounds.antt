-- ===== src/Worker/Session/Rounds.antt =====
-- One round of the worker's loop for each thing that comes from the client.
use fifo.Prelude.{
  ℕ, ◌<◌, ◌≡◌, ◌∙◌, true, false, Bool-cases, inl, inr, some, List, ◌∷◌, ◌++◌, length, arith,
}
use fifo.Prelude.Signs.{pos-ne_zero, same_int}
use fifo.Prelude.Int.{pos, ltb_ℤ}
use fifo.Os.{Os, Trace, did_read, done}
use fifo.Message.{Pipemsg, msgsz, set_msgsz}
use fifo.Message.Codec.{msgsz-append}
use fifo.Message.Store.{overlay}
use fifo.Reader.{readpipemsg_nb}
use fifo.Reader.Delivery.{Arrival, payload}
use fifo.Reader.Header.{readpipemsg-header, after_header-zero}
use fifo.Reader.Arrived.{arrived-size}
use fifo.Reader.Assembly.{readpipemsg_nb-Delivers}
use fifo.Timeout.Select.{answer, select_readable_lem}
use fifo.Worker.{PipeInstance, clamp_reply, send_reply, answer_request, read_request, worker_round}
use fifo.Worker.Session.{
  Answer, IsRequest, waited, ready, asking, asked, reply_of, frame_of, replied, replying, Takes,
  Closes, Asks,
}

module _ (os : Os) (f : Answer) (fuel : ℕ) where
  pub round-quiet :
      (inst : PipeInstance) (t : Trace)
      → (answer os inst.requestfd inst.timeout t).0 ≡ pos 0
      → worker_round os (λ _. f) fuel inst t ≡ done (true, waited os f inst t) (ready os f inst t)
  unfolding worker_round
  round-quiet inst t e = rw (select_readable_lem os inst.requestfd inst.timeout t, e)

  round-ready :
      (inst : PipeInstance) (t : Trace)
      → (answer os inst.requestfd inst.timeout t).0 ≡ pos 1
      → worker_round os (λ _. f) fuel inst t
        ≡ read_request os (λ _. f) fuel (waited os f inst t) (ready os f inst t)
  unfolding worker_round
  round-ready inst t e = rw (select_readable_lem os inst.requestfd inst.timeout t, e)

  answer_request-replied :
      (inst : PipeInstance) (t : Trace)
      → Takes os f inst t
      → answer_request os (λ _. f) inst t ≡ done (true, replied os f inst) (replying os f inst t)
  unfolding answer_request send_reply replied replying reply_of frame_of
  answer_request-replied inst t takes =
      elim (Bool-cases (ltb_ℤ (pos 0) (msgsz (f inst.request (set_msgsz (pos 0) inst.reply))))) [
        | inl some_left ↦ rw (
          some_left,
          takes some_left,
          same_int (pos (clamp_reply (f inst.request (set_msgsz (pos 0) inst.reply))).0),
        )
        | inr nothing ↦ rw nothing
      ]

  -- A request that was read is answered.
  read_request-answers :
      (inst : PipeInstance) (msg : Pipemsg) (n : ℕ) (t u : Trace)
      → readpipemsg_nb os fuel inst.requestfd inst.request t ≡ done (pos 0, msg) u
      → msgsz msg ≡ pos n
      → 0 < n
      → read_request os (λ _. f) fuel inst t
        ≡ answer_request os (λ _. f) (record inst { request = msg }) u
  unfolding read_request
  read_request-answers inst msg n t u e size some_left = rw (e, size, pos-ne_zero n some_left)

  read_request-ends :
      (inst : PipeInstance) (msg : Pipemsg) (t u : Trace)
      → readpipemsg_nb os fuel inst.requestfd inst.request t ≡ done (pos 0, msg) u
      → msgsz msg ≡ pos 0
      → read_request os (λ _. f) fuel inst t ≡ done (false, record inst { request = msg }) u
  unfolding read_request
  read_request-ends inst msg t u e size = rw (e, size)

  pub round-request :
      (header : List ℕ) (arrivals : List Arrival) (inst : PipeInstance) (t : Trace)
      → length inst.request ≡ 4096
      → IsRequest fuel header arrivals
      → Asks os f header arrivals inst t
      → let inst' = asking os f header arrivals inst t in
        let u = asked os f header arrivals inst t in
        worker_round os (λ _. f) fuel inst t
        ≡ done (true, replied os f inst') (replying os f inst' u)
  round-request header arrivals inst t room is asks =
      let inst' = asking os f header arrivals inst t in
      let u = asked os f header arrivals inst t in
      round-ready inst t asks.comes
      ∙ read_request-answers (waited os f inst t)
          (overlay (header ++ payload arrivals) inst.request) (length (payload arrivals))
          (ready os f inst t) u
          (readpipemsg_nb-Delivers os inst.requestfd fuel arrivals header inst.request
            (ready os f inst t) room is.four is.size is.room is.enough asks.got asks.delivered)
          (arrived-size header (payload arrivals) inst.request is.four ∙ is.size) is.some_left
      ∙ answer_request-replied inst' u asks.taken

  pub round-end :
      (inst : PipeInstance) (t : Trace) (room : length inst.request ≡ 4096)
      (closes : Closes os f inst t)
      → worker_round os (λ _. f) fuel inst t
        ≡ done
            (false, record (waited os f inst t) { request = overlay closes.header inst.request })
            (did_read inst.requestfd 4 (some closes.header) ∷ ready os f inst t)
  round-end inst t room closes =
      let msg = overlay closes.header inst.request in
      let u = did_read inst.requestfd 4 (some closes.header) ∷ ready os f inst t in
      let empty : msgsz msg ≡ pos 0 = msgsz-append closes.header _ closes.four ∙ closes.zero in
      round-ready inst t closes.comes
      ∙ read_request-ends (waited os f inst t) msg (ready os f inst t) u
          (readpipemsg-header os inst.requestfd fuel closes.header inst.request (ready os f inst t)
              closes.four (omega arith) closes.got
            ∙ after_header-zero os inst.requestfd fuel (pos (length closes.header)) msg u empty)
          empty
