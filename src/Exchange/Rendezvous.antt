-- ===== src/Exchange/Rendezvous.antt =====
-- The rendezvous: the server rebuilds, from its own name and the announcement, the names of the two
-- pipes that the client has made.
use fifo.Prelude.{
  false, ◌==◌, ℕ, suc, ◌+◌, ◌-◌, ◌<◌, ◌≤◌, ◌≡◌, refl, ap, ap₂, sym, ◌∙◌, true, some, List, [], ◌∷◌,
  ◌++◌, length, take, drop, replicate, arith, take_all, length-append, length-take, length-drop,
  drop-append_length, append_assoc, take-append_le,
}
use fifo.Api.{fifo_s_ok, read_suffix}
use fifo.Client.Granted.{GrantsAll, clnt, connected, run, client_new-granted}
use mathlib.Core.Path.{subst}
use fifo.Prelude.Int.{ℤ, pos}
use fifo.Os.{Os, FilePath, Trace, done}
use fifo.CString.{strnlen, until_nul, decimal}
use fifo.CString.Strings.{NulFree, NulFree-append, until_nul-NulFree, digits-NulFree, length-digits}
use fifo.Message.{Pipemsg, encode32, msgsz, msgbuf}
use fifo.Message.Codec.{msgsz-encode32}
use fifo.Message.Store.{length-overlay, overlay}
use fifo.Reader.{readpipemsg_nb}
use fifo.Client.Connect.{client_name, announcement, client_new}
use fifo.Client.Announcement.{announced_size, announced_bytes, announcement-some}
use fifo.Client.Settled.{new_client, reply_name}
use fifo.Server.Accept.{Acceptor, accept_client}
use fifo.Server.Accepts.{Announces, Grants, worker_started, accept_client-Announces}

abbrev pid_suffix : ℕ → List ℕ
pid_suffix pid = b'.' ∷ decimal pid

pid_suffix-NulFree : (pid : ℕ) → NulFree (pid_suffix pid)
pid_suffix-NulFree pid = (refl, digits-NulFree 10 pid)

eq_of_some : {x y : Pipemsg} → some x ≡ some y → x ≡ y
eq_of_some e = cc

take-append_suc : (xs ys : List ℕ) → take (suc (length xs)) (xs ++ 0 ∷ ys) ≡ xs ++ 0 ∷ []
take-append_suc [] ys = refl
take-append_suc (x ∷ xs) ys = ap (◌∷◌ x) (take-append_suc xs ys)

module _ (p : FilePath) (free : NulFree p) (short : length p < 235) (pid : ℕ) where
  abbrev full : FilePath
  full = client_name p (strnlen p 235) pid

  abbrev name : FilePath
  name = p ++ pid_suffix pid

  strnlen_short : strnlen p 235 ≡ length p
  strnlen_short = omega arith

  length-name : length name ≤ 245
  length-name = omega (arith, length-append p (pid_suffix pid), length-digits 10 pid)

  full-name : full ≡ name
  unfolding client_name
  full-name =
      ap (λ s. until_nul s ++ pid_suffix pid) (take_all (strnlen p 235) p (omega arith))
      ∙ ap (λ s. s ++ pid_suffix pid) (until_nul-NulFree p free)

  pipename-name : (a : ℕ) → (new_client a full).pipename ≡ name
  pipename-name a =
      take_all (length full) (take 254 full) (omega (arith, length-take 254 full))
      ∙ take_all 254 full (omega (arith, ap length full-name, length-name))
      ∙ full-name

  name-NulFree : NulFree name
  name-NulFree = NulFree-append p (pid_suffix pid) free (pid_suffix-NulFree pid)

  reply_name-name : (a : ℕ) → reply_name (new_client a full) ≡ name ++ read_suffix
  reply_name-name a =
      ap (λ s. take 254 (until_nul (take (length full) s) ++ read_suffix)) (pipename-name a)
      ∙ ap (λ s. take 254 (until_nul s ++ read_suffix))
          (take_all (length full) name (omega (arith, ap length full-name)))
      ∙ ap (λ s. take 254 (s ++ read_suffix)) (until_nul-NulFree name name-NulFree)
      ∙ take_all 254 (name ++ read_suffix)
          (omega (arith, length-append name read_suffix, length-name))

  bytes-suffix : announced_bytes name (length p) ≡ pid_suffix pid ++ 0 ∷ []
  bytes-suffix =
      ap₂ take size (
        ap (drop (length p)) (append_assoc p (pid_suffix pid) (replicate 10 0))
        ∙ drop-append_length p (pid_suffix pid ++ replicate 10 0))
      ∙ take-append_suc (pid_suffix pid) (replicate 9 0)
    where
      size : length name - length p + 1 ≡ suc (length (pid_suffix pid))
      size = omega (arith, length-append p (pid_suffix pid))

  module _ (stack : Pipemsg) (whole : length stack ≡ 4096) where
    abbrev sent : Pipemsg
    sent =
        overlay (encode32 (pos (announced_size name (length p))) ++ announced_bytes name (length p))
          stack

    size-suffix : announced_size name (length p) ≡ length (pid_suffix pid) + 1
    size-suffix = omega (arith, length-append p (pid_suffix pid))

    msgsz-sent : msgsz sent ≡ pos (length (pid_suffix pid) + 1)
    msgsz-sent =
        ap msgsz (append_assoc (encode32 (pos (announced_size name (length p)))) _ _)
        ∙ msgsz-encode32 (pos (announced_size name (length p))) _
            (omega (arith, length-name, length-append p (pid_suffix pid)))
        ∙ ap pos size-suffix

    msgbuf-sent : take (length (pid_suffix pid) + 1) (msgbuf sent) ≡ pid_suffix pid ++ 0 ∷ []
    unfolding encode32
    msgbuf-sent =
        let sent_suffix = pid_suffix pid ++ 0 ∷ [] in
        let k = length (pid_suffix pid) + 1 in
        let rest =
          drop
            (length
              (encode32 (pos (announced_size name (length p))) ++ announced_bytes name (length p)))
            stack in
        let len : length sent_suffix ≡ k = length-append (pid_suffix pid) (0 ∷ []) in
        ap (λ bytes. take k (bytes ++ rest)) bytes-suffix
        ∙ take-append_le k sent_suffix rest (omega arith)
        ∙ take_all k sent_suffix (omega arith)

    announcement-sent :
        (a : ℕ) → announcement (new_client a full).pipename (strnlen p 235) stack ≡ some sent
    announcement-sent a =
        ap₂ (λ s k. announcement s k stack) (pipename-name a) strnlen_short
        ∙ announcement-some name (length p) stack (omega (arith, length-name)) whole

not_long : (p : FilePath) → length p < 235 → (strnlen p 235 == 235) ≡ false
not_long p short = ground arith

length-sent :
    (p : FilePath) (free : NulFree p) (short : length p < 235) (pid : ℕ) (stack : Pipemsg)
    (whole : length stack ≡ 4096) (sent_msg : Pipemsg)
    → sent_msg ≡ sent p free short pid stack whole
    → let n = 4 + (length (client_name p (strnlen p 235) pid) - strnlen p 235 + 1) in
      length (take n sent_msg) ≡ n
unfolding encode32
length-sent p free short pid stack whole sent_msg same =
    let name_eq = ap length (full-name p free short pid) in
    let bytes =
      encode32 (pos (announced_size (name p free short pid) (length p)))
      ++ announced_bytes (name p free short pid) (length p) in
    let all : length (sent p free short pid stack whole) ≡ 4096 =
      length-overlay bytes stack (
        omega (
          arith,
          length-append (encode32 (pos (announced_size (name p free short pid) (length p))))
              (announced_bytes (name p free short pid) (length p)),
          length-take (announced_size (name p free short pid) (length p))
              (drop (length p) (name p free short pid ++ replicate 10 0)),
          length-name p free short pid,
        ))
      ∙ whole in
    omega (
      arith,
      length-take (4 + (length (client_name p (strnlen p 235) pid) - strnlen p 235 + 1)) sent_msg,
      ap length same,
      name_eq,
      length-name p free short pid,
    )

-- A client whose process has the id `pid` calls `fifo_client_new` with the pipe name `p`, and the
-- system grants its calls: there is memory, each pipe is made and opened, and a write takes all of its
-- bytes. Then it makes two pipes, opens the second for reading, writes an
-- announcement to the pipe `p`, opens the first pipe for writing, and returns FIFO_S_OK. If the server
-- of that name, whose `client_fifo` starts with it, reads a message with the size and the bytes that
-- were announced, and the system grants its calls, `pthread_create` with 0, then the server opens
-- exactly the two pipes that the client has made, the first for reading and the second for writing,
-- starts a worker, and stays in its loop. No buffer overflows on the way. The name is a C string of
-- fewer than 235 bytes, and the messages have their 4096 bytes.
pub accept_client-client_new :
    (client_os os : Os) (fuel : ℕ) (st : Acceptor) (p : FilePath) (pid : ℕ) (wait : ℤ)
    (stack sent msg : Pipemsg) (start_t t u : Trace)
    → let made = clnt client_os p pid start_t in
      let k = announced_size made.pipename (strnlen p 235) in
      NulFree p
      → length p < 235
      → length stack ≡ 4096
      → GrantsAll client_os
      → client_os.getpid start_t ≡ pid
      → announcement made.pipename (strnlen p 235) stack ≡ some sent
      → length msg ≡ 4096
      → msgsz msg ≡ msgsz sent
      → take k (msgbuf msg) ≡ take k (msgbuf sent)
      → readpipemsg_nb os fuel (st.server).accept_pipefd st.clientmsg t ≡ done (pos 0, msg) u
      → (st.server).namelen ≡ length p
      → take (st.server).namelen st.client_fifo ≡ p
      → Grants os made.pipename u
      → (client_new client_os (some p) wait stack start_t
          ≡ done
              (fifo_s_ok, some (connected client_os p pid start_t wait sent))
              (run client_os p pid start_t sent))
        × (accept_client os fuel st t
            ≡ done
                (true, record st { client_fifo = reply_name made; clientmsg = msg })
                (worker_started os made.pipename u))
        × (reply_name made ≡ made.pipename ++ read_suffix)
accept_client-client_new client_os os fuel st p pid wait stack sent_msg msg start_t t u free short
      whole grants_all process is whole_msg size bytes got len same grants =
    let a = client_os.calloc start_t in
    let pid_name = pipename-name p free short pid a in
    let sent_eq : sent_msg ≡ sent p free short pid stack whole =
      eq_of_some (sym is ∙ announcement-sent p free short pid stack whole a) in
    let k_eq =
      ap₂ announced_size pid_name (strnlen_short p free short pid)
      ∙ size-suffix p free short pid stack whole in
    let announces : Announces (pid_suffix pid) msg = record {
      free = pid_suffix-NulFree pid;
      size = size ∙ ap msgsz sent_eq ∙ msgsz-sent p free short pid stack whole;
      bytes =
          ap (λ k. take k (msgbuf msg)) (sym k_eq)
          ∙ bytes
          ∙ ap₂ (λ k m. take k (msgbuf m)) k_eq sent_eq
          ∙ msgbuf-sent p free short pid stack whole;
      room = omega (arith, length-drop 4 msg, length-digits 10 pid);
    } in
    let replies = reply_name-name p free short pid a ∙ ap (λ s. s ++ read_suffix) (sym pid_name) in
    (
      client_new-granted client_os grants_all p pid wait stack sent_msg start_t process
          (not_long p short) is (length-sent p free short pid stack whole sent_msg sent_eq),
      accept_client-Announces os fuel st p (pid_suffix pid) msg t u got announces same len
            (omega (arith, length-digits 10 pid)) (subst (λ n. Grants os n u) pid_name grants)
          ∙ ap₂
              (λ fifo n.
                done (true, record st { client_fifo = fifo; clientmsg = msg })
                  (worker_started os n u))
              (sym (reply_name-name p free short pid a)) (sym pid_name),
      replies,
    )
