-- ===== src/Session/Replies/Quit.antt =====
-- A control connection that ends with QUIT.
use fineftp_server.Base.{
  ℕ, suc, ◌+◌, ◌≡◌, refl, ap, ◌∙◌, true, false, Option, none, some, List, [], ◌∷◌, ◌++◌, All,
  All-append, All-map, arith, Bytes, codes, bytes_eq, length,
}
use fineftp_server.Message.{str}
use fineftp_server.Message.FtpReplyCode.{service_closing_control_connection}
use fineftp_server.Users.{UserDatabase, find}
use fineftp_server.Os.{Os}
use fineftp_server.Session.{Session, Env, send_ftp_message}
use fineftp_server.Session.Access.{handle_quit}
use fineftp_server.Session.Dispatch.{
  command_map, handle_ftp_command, command_word, parameters, call, finish, await_next,
}
use fineftp_server.Session.Stream.{serve}
use fineftp_server.Session.Stream.Laws.{
  has_crlf, IsLine, send_lines, IsReadUntil, handle_lines, serve-send_lines,
}
use fineftp_server.Session.Identity.{is_v4}
use fineftp_server.Session.Replies.Conversation.{
  IsWaiting, IsCommand, handle_lines_reading, handle_ftp_command-IsWaiting,
}

-- A session that a client has ended.
pub record IsEnded {os : Os} (s s' : Session os) : Type 0 where
  pub user : s'.logged_in_user ≡ none
  pub shutdown : s'.shutdown_requested ≡ true
  pub reading : s'.reading ≡ false
  pub disk : s'.disk ≡ s.disk
  pub posted :
      s'.posted
      ≡ s.posted
        ++ str (record {
          reply_code = service_closing_control_connection;
          message = codes "Connection shutting down";
        })
          ∷ []

module _ {os : Os} (db : UserDatabase) where
  find-quit : (env : Env) → find (codes "QUIT") (command_map {os = os} db env) ≡ some handle_quit
  unfolding find command_map bytes_eq codes
  find-quit env = refl

  quit-IsEnded :
      (word param : Bytes) (s : Session os)
      → s.thrown ≡ false
      → IsEnded s (await_next (call word param (some handle_quit) (record s { reading = false })))
  unfolding call finish await_next handle_quit send_ftp_message
  quit-IsEnded word param s t = record {
    user = ground (arith, t);
    shutdown = ground (arith, t);
    reading = ground (arith, t);
    disk = ground (arith, t);
    posted = ground (arith, t);
  }

  handle_ftp_command-IsEnded :
      (env : Env) (line : Bytes) (s : Session os)
      → command_word line ≡ codes "QUIT"
      → s.thrown ≡ false
      → IsEnded s (handle_ftp_command db env line s)
  unfolding handle_ftp_command
  handle_ftp_command-IsEnded env line s e t =
      rw (e, find-quit env) (quit-IsEnded (codes "QUIT") (parameters line) s t)

module _ {os : Os} (db : UserDatabase) (envs : ℕ → Env) (read_until : Bytes → Option ℕ) where
  -- The commands, in order.
  abbrev pub run_lines : ℕ → List Bytes → Session os → Session os
  run_lines n [] s = s
  run_lines n (line ∷ lines) s = run_lines (n + 1) lines (handle_ftp_command db (envs n) line s)

  run_lines-IsWaiting :
      (n : ℕ) (lines : List Bytes) (s : Session os)
      → ((k : ℕ) → is_v4 (envs k).local_endpoint ≡ true)
      → All IsCommand lines
      → IsWaiting s
      → IsWaiting (run_lines n lines s)
  run_lines-IsWaiting n [] s h cs w = w
  run_lines-IsWaiting n (line ∷ lines) s h (c, cs) w =
      run_lines-IsWaiting (n + 1) lines (handle_ftp_command db (envs n) line s) h cs
        (handle_ftp_command-IsWaiting db (envs n) line s (h n) c.1 w)

  handle_lines-ended :
      (n : ℕ) (more : List Bytes) (s : Session os)
      → s.reading ≡ false
      → handle_lines db envs read_until n more s ≡ s
  handle_lines-ended n [] s e = ground (arith, e)
  handle_lines-ended n (line ∷ more) s e = ground (arith, e)

  handle_lines-quit :
      (n : ℕ) (lines : List Bytes) (quit : Bytes) (more : List Bytes) (s : Session os)
      → ((k : ℕ) → is_v4 (envs k).local_endpoint ≡ true)
      → All IsCommand lines
      → command_word quit ≡ codes "QUIT"
      → IsWaiting s
      → handle_lines db envs read_until n (lines ++ quit ∷ more) s
        ≡ handle_ftp_command db (envs (n + length lines)) quit (run_lines n lines s)
  handle_lines-quit n [] quit more s h cs e w =
      let s' = handle_ftp_command db (envs n) quit s in
      let ended = handle_ftp_command-IsEnded db (envs n) quit s e w.thrown in
      handle_lines_reading db envs read_until n quit more s w.reading
      ∙ handle_lines-ended (n + 1) more s' ended.reading
      ∙ ap (λ (k : ℕ). handle_ftp_command db (envs k) quit s) (omega arith)
  handle_lines-quit n (line ∷ lines) quit more s h (c, cs) e w =
      let s' = handle_ftp_command db (envs n) line s in
      handle_lines_reading db envs read_until n line (lines ++ quit ∷ more) s w.reading
      ∙ handle_lines-quit (n + 1) lines quit more s' h cs e
          (handle_ftp_command-IsWaiting db (envs n) line s (h n) c.1 w)
      ∙ ap (λ (k : ℕ). handle_ftp_command db (envs k) quit (run_lines (n + 1) lines s'))
          (omega arith)

  -- Over IPv4, where `async_read_until` stops at the first "\r\n", on a session that waits for a
  -- command, a client that sends complete lines, none of them QUIT, then one whose command is QUIT, in
  -- whatever case, and then more lines: the commands before QUIT are handled in their order; QUIT logs
  -- the user out, leaves the disk alone, is answered by `221`, as the last reply, and ends the
  -- session; and nothing that the client sends behind it is handled.
  pub serve-quit :
      (n : ℕ) (lines : List Bytes) (quit : Bytes) (more : List Bytes) (tail : Bytes)
      (s : Session os)
      → IsReadUntil read_until
      → ((k : ℕ) → is_v4 (envs k).local_endpoint ≡ true)
      → All IsCommand lines
      → IsLine quit
      → command_word quit ≡ codes "QUIT"
      → All IsLine more
      → has_crlf tail ≡ false
      → IsWaiting s
      → (t : Session os) × (serve db envs read_until
            (suc (length (lines ++ quit ∷ more)))
            n
            (send_lines (lines ++ quit ∷ more) tail)
            s
          ≡ some t)
        × IsEnded (run_lines n lines s) t
  serve-quit n lines quit more tail s r h cs q e ms t w =
      let are_lines =
        All-append IsLine lines (quit ∷ more) (All-map IsCommand IsLine lines (λ line c. c.0) cs)
          (q, ms) in
      (
        handle_ftp_command db (envs (n + length lines)) quit (run_lines n lines s),
        serve-send_lines db envs read_until n (lines ++ quit ∷ more) tail s r are_lines t
            ∙ ap some (handle_lines-quit n lines quit more s h cs e w),
        handle_ftp_command-IsEnded db (envs (n + length lines)) quit (run_lines n lines s) e
            (run_lines-IsWaiting n lines s h cs w).thrown,
      )
