-- ===== src/Session/Sequences.antt =====
-- Command sequences: logging in by USER and PASS, renaming by RNFR and RNTO, and what the case of a command does.
use mathlib.Core.List.{map}
use fineftp_server.Base.{
  ℕ, ◌≡◌, refl, true, false, none, some, [], ◌∷◌, ◌++◌, arith, Bytes, codes, bytes_eq, All,
}
use fineftp_server.Users.{UserDatabase, find, get_user}
use fineftp_server.CleanPath.{break_at}
use fineftp_server.Message.FtpReplyCode.{syntax_error_unrecognized_command}
use fineftp_server.Session.Info.{to_upper}
use fineftp_server.Os.{Os}
use fineftp_server.Session.{Session, Env, send_ftp_message}
use fineftp_server.Session.Access.{handle_user, handle_pass, log_in}
use fineftp_server.Session.Dispatch.{
  Handler, is_space, command_map, handle_ftp_command, command_word, parameters, call, finish,
  await_next,
}

-- A word and what follows it.
break_at-word :
    (word rest : Bytes)
    → All (λ c. is_space c ≡ false) word
    → break_at is_space (word ++ b' ' ∷ rest) ≡ (word, some rest)
unfolding break_at
break_at-word [] rest h = refl
break_at-word (c ∷ word) rest h = rw (h.0, break_at-word word rest h.1) refl

-- The lines that stand here are taken apart as they should.
user_line :
    (name : Bytes)
    → (command_word (codes "USER " ++ name) ≡ codes "USER")
      × (parameters (codes "USER " ++ name) ≡ name)
unfolding command_word parameters break_at codes to_upper
user_line name = (refl, refl)

pass_line :
    (password : Bytes)
    → (command_word (codes "PASS " ++ password) ≡ codes "PASS")
      × (parameters (codes "PASS " ++ password) ≡ password)
unfolding command_word parameters break_at codes to_upper
pass_line password = (refl, refl)

user_is_user : bytes_eq (codes "USER") (codes "USER") ≡ true
unfolding bytes_eq codes
user_is_user = refl

module _ {os : Os} where
  -- The case of the command word does not matter: words without a blank that are equal in upper case
  -- do the same with the same parameters.
  pub handle_ftp_command-case :
      (db : UserDatabase) (env : Env) (word word' rest : Bytes) (s : Session os)
      → All (λ c. is_space c ≡ false) word
      → All (λ c. is_space c ≡ false) word'
      → map to_upper word ≡ map to_upper word'
      → handle_ftp_command db env (word ++ b' ' ∷ rest) s
        ≡ handle_ftp_command db env (word' ++ b' ' ∷ rest) s
  unfolding handle_ftp_command command_word parameters
  handle_ftp_command-case db env word word' rest s h h' e =
      rw (break_at-word word rest h, break_at-word word' rest h', e) refl

  -- A command that is not in the map is answered by 500, and is forgotten.
  pub handle_ftp_command-unknown :
      (db : UserDatabase) (env : Env) (line : Bytes) (s : Session os)
      → find (command_word line) (command_map {os = os} db env) ≡ none
      → s.thrown ≡ false
      → s.shutdown_requested ≡ false
      → handle_ftp_command db env line s
        ≡ send_ftp_message syntax_error_unrecognized_command
            (codes "Unrecognized command")
            (record s { reading = true })
  unfolding handle_ftp_command call await_next send_ftp_message
  handle_ftp_command-unknown db env line s e t q = rw (e, t, q) refl

  -- What a line does whose handler is known.
  known :
      (db : UserDatabase) (env : Env) (line word param : Bytes) (s : Session os) (h : Handler os)
      → (command_word line ≡ word) × (parameters line ≡ param)
      → find word (command_map db env) ≡ some h
      → handle_ftp_command db env line s
        ≡ await_next (finish word (h param (record s { reading = false })))
  unfolding handle_ftp_command call
  known db env line word param s h (w, p) e = rw (w, p, e) refl

  user_known :
      (db : UserDatabase) (env : Env) (name : Bytes) (s : Session os)
      → handle_ftp_command db env (codes "USER " ++ name) s
        ≡ await_next (finish (codes "USER") (handle_user name (record s { reading = false })))
  user_known db env name s =
      known db env _ (codes "USER") name s handle_user (user_line name)
        (unfold find command_map codes bytes_eq in refl)

  pass_known :
      (db : UserDatabase) (env : Env) (password : Bytes) (s : Session os)
      → handle_ftp_command db env (codes "PASS " ++ password) s
        ≡ await_next
            (finish (codes "PASS") (handle_pass db password (record s { reading = false })))
  pass_known db env password s =
      known db env _ (codes "PASS") password s (handle_pass db) (pass_line password)
        (unfold find command_map codes bytes_eq in refl)

  -- The session after USER with a name.
  user_result :
      (db : UserDatabase) (env : Env) (c : ℕ) (name : Bytes) (s : Session os)
      → s.thrown ≡ false
      → ((handle_ftp_command db env (codes "USER " ++ c ∷ name) s).last_command ≡ codes "USER")
        × ((handle_ftp_command db env (codes "USER " ++ c ∷ name) s).username_for_login ≡ c ∷ name)
        × ((handle_ftp_command db env (codes "USER " ++ c ∷ name) s).logged_in_user ≡ none)
  unfolding handle_user finish await_next send_ftp_message
  user_result db env c name s t = rw (user_known db env (c ∷ name) s) (ground (arith, t))

  pass_result :
      (db : UserDatabase) (env : Env) (c : ℕ) (name password : Bytes) (s : Session os)
      → s.last_command ≡ codes "USER"
      → s.username_for_login ≡ c ∷ name
      → s.logged_in_user ≡ none
      → (handle_ftp_command db env (codes "PASS " ++ password) s).logged_in_user
        ≡ get_user (c ∷ name) password db
  unfolding handle_pass log_in finish await_next send_ftp_message
  pass_result db env c name password s l u n =
      rw (pass_known db env password s) (ground (arith, l, u, n, user_is_user))

  -- After USER with a name that is not empty, and then PASS, in a session that no exception has
  -- left, the user who is logged in is the one whom the database gives for that name and password,
  -- or nobody if it gives none, whoever was logged in before.
  pub login :
      (db : UserDatabase) (env env' : Env) (c : ℕ) (name password : Bytes) (s : Session os)
      → s.thrown ≡ false
      → (handle_ftp_command db env'
          (codes "PASS " ++ password)
          (handle_ftp_command db env (codes "USER " ++ c ∷ name) s)).logged_in_user
        ≡ get_user (c ∷ name) password db
  login db env env' c name password s t =
      let (l, u, n) = user_result db env c name s t in pass_result db env' c name password _ l u n
