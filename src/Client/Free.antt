-- ===== src/Client/Free.antt =====
-- `fifo_client_free`, called on a client that is not connected.
use fifo.Prelude.{
  ◌+◌, ◌<◌, ◌≡◌, ap, Bool, Bool-cases, inl, inr, true, false, ◌∷◌, ◌++◌, length, take, ◌==◌, lt→ltb,
  if◌then◌else◌,
}
use fifo.Prelude.Int.{pos}
use fifo.Os.{Os, Trace, closed, unlinked, freed, done, mem_free}
use fifo.Os.Balance.{Owes, Owes-freed, Owes-unlinked, Owes-closed, Owes-did_write}
use fifo.Api.{read_suffix, is_open}
use fifo.Effect.Ends.{Ends}
use fifo.Message.{msgsz, decode32, zero_msg}
use fifo.Client.{[], Client, client_free, hang_up, unlink_reply_pipe, client_write}

-- The reply pipe's name fits behind the client's.
abbrev pub Roomy : Client → Type 0
Roomy clnt = length clnt.pipename + length read_suffix < clnt.capacity

module _ (os : Os) (clnt : Client) (t : Trace) (room : Roomy clnt)
    (some_address : (clnt.address == 0) ≡ false) (unconnected : clnt.writefd ≡ pos 0) where
  client_free-trace :
      client_free os clnt t
      ≡ done tt (
          freed clnt.address
          ∷ unlinked (clnt.pipename ++ read_suffix)
          ∷ unlinked clnt.pipename
          ∷ (if is_open clnt.readfd then closed clnt.readfd ∷ t else t))
  unfolding client_free mem_free
  client_free-trace = elim (Bool-cases (is_open clnt.readfd)) [
    | inl reading ↦ rw (reading, ap is_open unconnected, lt→ltb _ _ room, some_address)
    | inr none_open ↦ rw (none_open, ap is_open unconnected, lt→ltb _ _ room, some_address)
  ]

  released :
      (t0 : Trace) (reading : Bool)
      → Owes (if reading then clnt.readfd ∷ [] else []) (clnt.address ∷ []) t0 t
      → Owes [] [] t0 (
          freed clnt.address
          ∷ unlinked (clnt.pipename ++ read_suffix)
          ∷ unlinked clnt.pipename
          ∷ (if reading then closed clnt.readfd ∷ t else t))
  released t0 true owes = Owes-freed clnt.address (
      Owes-unlinked (clnt.pipename ++ read_suffix)
        (Owes-unlinked clnt.pipename (Owes-closed clnt.readfd owes)))
  released t0 false owes =
      Owes-freed clnt.address
        (Owes-unlinked (clnt.pipename ++ read_suffix) (Owes-unlinked clnt.pipename owes))

  -- It gives back the memory, and the read end if that is open.
  pub client_free-Owes :
      (t0 : Trace)
      → Owes (if is_open clnt.readfd then clnt.readfd ∷ [] else []) (clnt.address ∷ []) t0 t
      → (u : Trace) × (client_free os clnt t ≡ done tt u) × Owes [] [] t0 u
  client_free-Owes t0 owes = (_, client_free-trace, released t0 (is_open clnt.readfd) owes)

-- What `fifo_client_new` returns: a client with both descriptors open.
pub record IsConnected (clnt : Client) : Type 0 where
  pub room : Roomy clnt
  pub some_address : (clnt.address == 0) ≡ false
  pub reading : is_open clnt.readfd ≡ true
  pub writing : is_open clnt.writefd ≡ true

-- `fifo_client_free` of a connected client returns and gives back its two descriptors and its block.
pub client_free-Connected :
    (os : Os) (clnt : Client) (t0 t : Trace)
    → IsConnected clnt
    → Owes (clnt.readfd ∷ clnt.writefd ∷ []) (clnt.address ∷ []) t0 t
    → Ends (λ _ u. Owes [] [] t0 u) (client_free os clnt t)
unfolding client_free hang_up unlink_reply_pipe client_write mem_free msgsz decode32
client_free-Connected os clnt t0 t con owes =
    rw (con.reading, con.writing, lt→ltb _ _ con.room, con.some_address)
      (Owes-freed clnt.address (
        Owes-unlinked (clnt.pipename ++ read_suffix) (
          Owes-unlinked clnt.pipename (
            Owes-closed clnt.writefd
              (Owes-did_write clnt.writefd (take 4 zero_msg) _ (Owes-closed clnt.readfd owes))))))
