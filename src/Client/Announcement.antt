-- ===== src/Client/Announcement.antt =====
-- The announcement that a client sends to the server.
use fifo.Prelude.{
  ℕ, ◌+◌, ◌-◌, ◌≤◌, ◌≡◌, some, List, ◌++◌, length, take, drop, replicate, arith, length-take,
}
use fifo.Prelude.Int.{ℤ, pos}
use fifo.Os.{FilePath}
use fifo.Message.{Pipemsg, encode32, set_msgsz, store_bytes}
use fifo.Message.Store.{overlay, store_bytes-overlay}
use fifo.Client.Connect.{announcement}

store_msgbuf :
    (n : ℤ) (bytes : List ℕ) (stack : Pipemsg)
    → 4 + length bytes ≤ length stack
    → store_bytes (pos 4) bytes (set_msgsz n stack) ≡ some (overlay (encode32 n ++ bytes) stack)
unfolding set_msgsz
store_msgbuf n bytes stack fits = store_bytes-overlay (encode32 n) bytes stack fits

module _ (name : FilePath) (namelen : ℕ) where
  abbrev pub announced_size : ℕ
  announced_size = length name - namelen + 1

  abbrev pub announced_bytes : List ℕ
  announced_bytes = take announced_size (drop namelen (name ++ replicate 10 0))

  -- A name of at most 254 bytes fits.
  pub announcement-some :
      (stack : Pipemsg)
      → length name ≤ 254
      → length stack ≡ 4096
      → announcement name namelen stack
        ≡ some (overlay (encode32 (pos announced_size) ++ announced_bytes) stack)
  unfolding announcement
  announcement-some stack short whole =
      store_msgbuf (pos announced_size) announced_bytes stack
        (omega (arith, length-take announced_size (drop namelen (name ++ replicate 10 0))))
