-- ===== src/Worker/Session.antt =====
-- What the worker of src/fifo.c owes its client: the specification of one whole conversation.
pub mod Rounds
pub mod Refines
use fifo.Prelude.{
  ℕ, ◌≡◌, ◌≤◌, ◌<◌, true, ◌+◌, some, min, List, [], ◌∷◌, ◌++◌, length, take, if◌then◌else◌,
}
use fifo.Prelude.Int.{ℤ, pos, pos_part, ltb_ℤ}
use fifo.Os.{Os, Trace, did_read, did_write, called_back}
use fifo.Message.{Pipemsg, sizeof_msgbuf, decode32, encode32, msgsz, set_msgsz, msgbuf}
use fifo.Message.Store.{overlay}
use fifo.Reader.Delivery.{Arrival, payload, Delivers, reads}
use fifo.Timeout.Select.{answer, left, behind}
use fifo.Worker.{PipeInstance, clamp_reply}

-- a callback that remembers nothing: what it leaves in the reply for a request
abbrev pub Answer : Type 0
Answer = Pipemsg → Pipemsg → Pipemsg

-- what comes from the client: nothing for the time of the timeout, or a request as it arrives
pub data Incoming : Type 0 where
  quiet : Incoming
  request : List ℕ → List Arrival → Incoming

-- what a reply sends: nothing, or the first bytes of its body
abbrev pub sends : ℤ → Pipemsg → List (ℤ × List ℕ)
sends fd reply =
    if ltb_ℤ (pos 0) (msgsz reply)
    then (fd, take (min (pos_part (msgsz reply)) sizeof_msgbuf) (msgbuf reply)) ∷ []
    else []

-- The specification. It keeps the last request and the body of the last reply, which the callback
-- sees; the result is what is written, oldest first.
unfoldable pub conversation : Answer → ℤ → List Incoming → Pipemsg → List ℕ → List (ℤ × List ℕ)
conversation f fd [] last body = []
conversation f fd (quiet ∷ rest) last body = conversation f fd rest last body
conversation f fd (request header arrivals ∷ rest) last body =
    let asked = overlay (header ++ payload arrivals) last in
    let reply = f asked (encode32 (pos 0) ++ body) in
    sends fd reply ++ conversation f fd rest asked (msgbuf reply)

-- the bodies that a run has written, with their descriptors, oldest first
abbrev pub written : Trace → List (ℤ × List ℕ)
written [] = []
written (did_write fd frame r ∷ t) = written t ++ (fd, msgbuf frame) ∷ []
written (_ ∷ t) = written t

-- a request: a size in 1..4092, and as many bytes, in fewer answers than there is fuel
pub record IsRequest (fuel : ℕ) (header : List ℕ) (arrivals : List Arrival) : Type 0 where
  pub four : length header ≡ 4
  pub size : decode32 header ≡ pos (length (payload arrivals))
  pub some_left : 0 < length (payload arrivals)
  pub room : length (payload arrivals) ≤ sizeof_msgbuf
  pub enough : length arrivals < fuel

module _ (os : Os) (f : Answer) where
  -- the instance with what `select` leaves of its timeout
  abbrev pub waited : PipeInstance → Trace → PipeInstance
  waited inst t = record inst { timeout = left os inst.requestfd inst.timeout t }

  abbrev pub ready : PipeInstance → Trace → Trace
  ready inst t = behind os inst.requestfd inst.timeout t

  -- the instance and the trace with a request read
  abbrev pub asking : List ℕ → List Arrival → PipeInstance → Trace → PipeInstance
  asking header arrivals inst t = record (waited inst t) {
    request = overlay (header ++ payload arrivals) inst.request;
  }

  abbrev pub asked : List ℕ → List Arrival → PipeInstance → Trace → Trace
  asked header arrivals inst t =
      reads os inst.requestfd arrivals (did_read inst.requestfd 4 (some header) ∷ ready inst t)

  -- the reply of the callback, and its bytes in the pipe
  unfoldable pub reply_of : PipeInstance → Pipemsg
  reply_of inst = f inst.request (set_msgsz (pos 0) inst.reply)

  unfoldable pub frame_of : PipeInstance → List ℕ
  unfolding reply_of
  frame_of inst = let (cbwrite, reply) = clamp_reply (reply_of inst) in take cbwrite reply

  unfoldable pub replied : PipeInstance → PipeInstance
  unfolding reply_of
  replied inst = record inst {
    reply =
        if ltb_ℤ (pos 0) (msgsz (reply_of inst))
        then (clamp_reply (reply_of inst)).1
        else reply_of inst;
  }

  unfoldable pub replying : PipeInstance → Trace → Trace
  unfolding frame_of
  replying inst t =
      let u = called_back inst.request (reply_of inst) ∷ t in
      if ltb_ℤ (pos 0) (msgsz (reply_of inst))
      then did_write inst.replyfd (frame_of inst) (os.write u inst.replyfd (frame_of inst)) ∷ u
      else u

  -- if there is a reply, the pipe takes all of it
  abbrev pub Takes : PipeInstance → Trace → Type 0
  Takes inst t =
      let u = called_back inst.request (reply_of inst) ∷ t in
      ltb_ℤ (pos 0) (msgsz (reply_of inst)) ≡ true
      → os.write u inst.replyfd (frame_of inst) ≡ pos (clamp_reply (reply_of inst)).0

  -- the end of the conversation: a message of the size 0
  pub record Closes (inst : PipeInstance) (t : Trace) : Type 0 where
    pub comes : (answer os inst.requestfd inst.timeout t).0 ≡ pos 1
    pub header : List ℕ
    pub four : length header ≡ 4
    pub zero : decode32 header ≡ pos 0
    pub got : os.read (ready inst t) inst.requestfd 4 ≡ some header

  pub record Asks (header : List ℕ) (arrivals : List Arrival) (inst : PipeInstance) (t : Trace)
      : Type 0 where
    pub comes : (answer os inst.requestfd inst.timeout t).0 ≡ pos 1
    pub got : os.read (ready inst t) inst.requestfd 4 ≡ some header
    pub delivered :
        Delivers os inst.requestfd arrivals (did_read inst.requestfd 4 (some header) ∷ ready inst t)
    pub taken : Takes (asking header arrivals inst t) (asked header arrivals inst t)

  -- From the trace `t` on the system brings these, and then the end.
  abbrev pub Brings : ℕ → List Incoming → PipeInstance → Trace → Type 0
  Brings fuel [] inst t = Closes inst t
  Brings fuel (quiet ∷ rest) inst t =
      ((answer os inst.requestfd inst.timeout t).0 ≡ pos 0)
      × Brings fuel rest (waited inst t) (ready inst t)
  Brings fuel (request header arrivals ∷ rest) inst t =
      let inst' = asking header arrivals inst t in
      let u = asked header arrivals inst t in
      IsRequest fuel header arrivals
      × Asks header arrivals inst t
      × Brings fuel rest (replied inst') (replying inst' u)
