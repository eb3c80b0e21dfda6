-- ===== src/Session/Replies/Conversation.antt =====
-- The commands of a control connection over IPv4 and their replies.
use fineftp_server.Base.{
  All-map, ℕ, suc, ◌+◌, ◌≡◌, ◌≢◌, refl, ap, ◌∙◌, inl, inr, true, false, Option, none, some, List,
  [], ◌∷◌, ◌++◌, append_assoc, append-nil, arith, Bytes, codes, All, length,
}
use fineftp_server.Users.{UserDatabase, find}
use fineftp_server.Users.Laws.{find-All}
use fineftp_server.Os.{Os}
use fineftp_server.Session.{Session, Env, send_ftp_message, close_data_acceptor}
use fineftp_server.Session.Dispatch.{
  Handler, command_map, handle_ftp_command, command_word, parameters, call, finish, await_next,
}
use fineftp_server.Session.Stream.{read_failed, serve}
use fineftp_server.Session.Stream.Laws.{
  has_crlf, IsLine, send_lines, IsReadUntil, handle_lines, serve-send_lines,
}
use fineftp_server.Session.Replies.{last_reply, IsReplied}
use fineftp_server.Session.Replies.Commands.{handle_ftp_command-IsAnswered}
use fineftp_server.Session.Identity.{is_v4}
use fineftp_server.Session.Replies.Calm.{
  IsUnthrown, IsSteady, command_map-IsUnthrown, command_map-IsSteady, find-entry,
}

module _ {os : Os} where
  -- A session that waits for a command, without an exception and before QUIT.
  pub record IsWaiting (s : Session os) : Type 0 where
    pub reading : s.reading ≡ true
    pub thrown : s.thrown ≡ false
    pub shutdown : s.shutdown_requested ≡ false

-- A line that a client may send, but QUIT.
abbrev pub IsCommand : Bytes → Type 0
IsCommand line = IsLine line × (command_word line ≢ codes "QUIT")

module _ {os : Os} (db : UserDatabase) where
  call-thrown :
      (word param : Bytes) (handler : Option (Handler os)) (s : Session os)
      → ((h : Handler os) → handler ≡ some h → IsUnthrown h)
      → (call word param handler s).thrown ≡ s.thrown
  unfolding call finish send_ftp_message
  call-thrown word param none s good = refl
  call-thrown word param (some h) s good = ground (arith, good h refl param s)

  handle_ftp_command-thrown :
      (env : Env) (line : Bytes) (s : Session os)
      → is_v4 env.local_endpoint ≡ true
      → (handle_ftp_command db env line s).thrown ≡ s.thrown
  unfolding handle_ftp_command await_next
  handle_ftp_command-thrown env line s h =
      let same =
        call-thrown (command_word line) (parameters line)
          (find (command_word line) (command_map db env)) (record s { reading = false })
          (λ handler e.
            find-All IsUnthrown (command_word line) (command_map db env)
              (command_map-IsUnthrown os db env h) e) in
      ground (arith, same)

  -- Exactly one reply.
  handle_ftp_command-IsReplied :
      (env : Env) (line : Bytes) (s : Session os)
      → is_v4 env.local_endpoint ≡ true
      → s.thrown ≡ false
      → IsReplied s (handle_ftp_command db env line s)
  handle_ftp_command-IsReplied env line s h t = elim (handle_ftp_command-IsAnswered db env line s) [
    | inl replied ↦ replied
    | inr (thrown, silent) ↦ absurd (cc (thrown, handle_ftp_command-thrown env line s h, t))
  ]

  call-shutdown :
      (word param : Bytes) (handler : Option (Handler os)) (s : Session os)
      → ((h : Handler os) → handler ≡ some h → IsSteady h)
      → (call word param handler s).shutdown_requested ≡ s.shutdown_requested
  unfolding call finish send_ftp_message
  call-shutdown word param none s good = refl
  call-shutdown word param (some h) s good = ground (arith, good h refl param s)

  handle_ftp_command-shutdown :
      (env : Env) (line : Bytes) (s : Session os)
      → is_v4 env.local_endpoint ≡ true
      → command_word line ≢ codes "QUIT"
      → (handle_ftp_command db env line s).shutdown_requested ≡ s.shutdown_requested
  unfolding handle_ftp_command await_next
  handle_ftp_command-shutdown env line s h other =
      let same =
        call-shutdown (command_word line) (parameters line)
          (find (command_word line) (command_map db env)) (record s { reading = false })
          (λ handler e.
            find-entry (λ word g. word ≢ codes "QUIT" → IsSteady g) (command_word line)
              (command_map db env) (command_map-IsSteady os db env h) e other) in
      ground (arith, same)

  await_next-reading :
      (s : Session os)
      → (await_next s).thrown ≡ false
      → (await_next s).shutdown_requested ≡ false
      → (await_next s).reading ≡ true
  unfolding await_next
  await_next-reading s t q = ground (arith, t, q)

  handle_ftp_command-reading :
      (env : Env) (line : Bytes) (s : Session os)
      → (handle_ftp_command db env line s).thrown ≡ false
      → (handle_ftp_command db env line s).shutdown_requested ≡ false
      → (handle_ftp_command db env line s).reading ≡ true
  unfolding handle_ftp_command
  handle_ftp_command-reading env line s t q =
      await_next-reading
        (call (command_word line) (parameters line) (find (command_word line) (command_map db env))
          (record s { reading = false }))
        t q

  pub handle_ftp_command-IsWaiting :
      (env : Env) (line : Bytes) (s : Session os)
      → is_v4 env.local_endpoint ≡ true
      → command_word line ≢ codes "QUIT"
      → IsWaiting s
      → IsWaiting (handle_ftp_command db env line s)
  handle_ftp_command-IsWaiting env line s h other w =
      let thrown = handle_ftp_command-thrown env line s h ∙ w.thrown in
      let shutdown = handle_ftp_command-shutdown env line s h other ∙ w.shutdown in
      record {
        reading = handle_ftp_command-reading env line s thrown shutdown;
        thrown = thrown;
        shutdown = shutdown;
      }

module _ {os : Os} (db : UserDatabase) (envs : ℕ → Env) (read_until : Bytes → Option ℕ) where
  pub handle_lines_reading :
      (n : ℕ) (line : Bytes) (lines : List Bytes) (s : Session os)
      → s.reading ≡ true
      → handle_lines db envs read_until n (line ∷ lines) s
        ≡ handle_lines db envs read_until (n + 1) lines (handle_ftp_command db (envs n) line s)
  handle_lines_reading n line lines s e = ground (arith, e)

  handle_lines-replies :
      (n : ℕ) (lines : List Bytes) (s : Session os)
      → ((k : ℕ) → is_v4 (envs k).local_endpoint ≡ true)
      → All IsCommand lines
      → IsWaiting s
      → (rs : List Bytes) × ((handle_lines db envs read_until n lines s).posted ≡ s.posted ++ rs)
        × (length rs ≡ length lines)
  unfolding read_failed close_data_acceptor
  handle_lines-replies n [] s h cs w = ([], ground (arith, append-nil s.posted), refl)
  handle_lines-replies n (line ∷ lines) s h (c, cs) w =
      let s' = handle_ftp_command db (envs n) line s in
      let (rs, posted, counted) =
        handle_lines-replies (n + 1) lines s' h cs
          (handle_ftp_command-IsWaiting db (envs n) line s (h n) c.1 w) in
      let replied = handle_ftp_command-IsReplied db (envs n) line s (h n) w.thrown in
      (
        last_reply s'.posted ∷ rs,
        ap (λ (t : Session os). t.posted) (handle_lines_reading n line lines s w.reading)
            ∙ posted
            ∙ ap (λ q. q ++ rs) replied
            ∙ append_assoc s.posted _ _,
        ap suc counted,
      )

  -- Over IPv4, a session that waits for a command comes to an end for whatever complete lines a
  -- client sends before it closes the connection, none of them QUIT, where `async_read_until` stops
  -- at the first "\r\n": after one round for each line and one more the commands have been handled
  -- in the order of the lines, byte for byte what was sent, and their handlers have posted exactly
  -- as many replies as there are lines; a line that is not complete is not handled.
  pub serve-replies :
      (n : ℕ) (lines : List Bytes) (tail : Bytes) (s : Session os)
      → IsReadUntil read_until
      → ((k : ℕ) → is_v4 (envs k).local_endpoint ≡ true)
      → All IsCommand lines
      → has_crlf tail ≡ false
      → IsWaiting s
      → (serve db envs read_until (suc (length lines)) n (send_lines lines tail) s
          ≡ some (handle_lines db envs read_until n lines s))
        × (rs : List Bytes) × ((handle_lines db envs read_until n lines s).posted ≡ s.posted ++ rs)
        × (length rs ≡ length lines)
  serve-replies n lines tail s r h cs t w =
      let are_lines = All-map IsCommand IsLine lines (λ line c. c.0) cs in
      let (rs, posted, counted) = handle_lines-replies n lines s h cs w in
      (serve-send_lines db envs read_until n lines tail s r are_lines t, rs, posted, counted)
