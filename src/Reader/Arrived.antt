-- ===== src/Reader/Arrived.antt =====
-- The size and the body of a message that arrived over what the struct held before.
use fifo.Prelude.{
  ℕ, ◌≡◌, ap, ◌∙◌, sym, List, ◌++◌, append_assoc, length, drop, take, drop-append_length,
  take-append_length,
}
use fifo.Message.{Pipemsg, decode32, msgsz, msgbuf}
use fifo.Message.Codec.{msgsz-append}
use fifo.Message.Store.{overlay}

module _ (header body : List ℕ) (old : Pipemsg) (four : length header ≡ 4) where
  pub arrived-size : msgsz (overlay (header ++ body) old) ≡ decode32 header
  arrived-size =
      ap msgsz (append_assoc header body (drop (length (header ++ body)) old))
      ∙ msgsz-append header _ four

  pub arrived-body : take (length body) (msgbuf (overlay (header ++ body) old)) ≡ body
  arrived-body =
      let rest = drop (length (header ++ body)) old in
      ap (λ msg. take (length body) (msgbuf msg)) (append_assoc header body rest)
      ∙ ap (λ k. take (length body) (drop k (header ++ (body ++ rest)))) (sym four)
      ∙ ap (take (length body)) (drop-append_length header (body ++ rest))
      ∙ take-append_length body rest
