-- ===== src/Session/Replies/Commands.antt =====
-- What a command line is answered.
use fineftp_server.Base.{◌&◌, ◌≡◌, refl, false, Option, none, some, arith, Bytes, All}
use fineftp_server.Users.{UserDatabase, find}
use fineftp_server.Os.{Os}
use fineftp_server.Session.{Session, Env, send_ftp_message}
use fineftp_server.Session.Dispatch.{
  Handler, command_map, handle_ftp_command, command_word, parameters, call, finish, await_next,
}
use fineftp_server.Users.Laws.{find-All}
use fineftp_server.Session.Replies.{
  IsReplying, IsAnswered, last_reply-snoc, user-IsReplying, pass-IsReplying, acct-IsReplying,
  cwd-IsReplying, cdup-IsReplying, rein-IsReplying, quit-IsReplying, port-IsReplying,
  pasv-IsReplying, type-IsReplying, stru-IsReplying, mode-IsReplying, retr-IsReplying,
  stor-IsReplying, stou-IsReplying, appe-IsReplying, allo-IsReplying, rest-IsReplying,
  rnfr-IsReplying, rnto-IsReplying, abor-IsReplying, dele-IsReplying, rmd-IsReplying,
  mkd-IsReplying, pwd-IsReplying, list-IsReplying, nlst-IsReplying, site-IsReplying,
  syst-IsReplying, stat-IsReplying, help-IsReplying, noop-IsReplying, feat-IsReplying,
  opts-IsReplying, size-IsReplying, mdtm-IsReplying,
}

-- Every handler of the map answers.
command_map-answers :
    (os : Os) (db : UserDatabase) (env : Env)
    → All (λ e. IsReplying {os = os} e.1) (command_map db env)
unfolding command_map
command_map-answers os db env =
    user-IsReplying
    & pass-IsReplying db
    & acct-IsReplying
    & cwd-IsReplying
    & cdup-IsReplying
    & rein-IsReplying
    & quit-IsReplying
    & port-IsReplying
    & pasv-IsReplying env
    & type-IsReplying
    & stru-IsReplying
    & mode-IsReplying
    & retr-IsReplying
    & stor-IsReplying
    & stou-IsReplying env
    & appe-IsReplying
    & allo-IsReplying
    & rest-IsReplying
    & rnfr-IsReplying
    & rnto-IsReplying
    & abor-IsReplying
    & dele-IsReplying
    & rmd-IsReplying
    & mkd-IsReplying
    & pwd-IsReplying
    & list-IsReplying
    & nlst-IsReplying
    & site-IsReplying
    & syst-IsReplying
    & stat-IsReplying
    & help-IsReplying
    & noop-IsReplying
    & feat-IsReplying
    & opts-IsReplying
    & size-IsReplying
    & mdtm-IsReplying env
    & tt

module _ {os : Os} where
  call-IsAnswered :
      (word param : Bytes) (handler : Option (Handler os)) (s : Session os)
      → ((h : Handler os) → handler ≡ some h → IsReplying h)
      → IsAnswered s (call word param handler s)
  unfolding call finish send_ftp_message
  call-IsAnswered word param none s good = grind (arith, last_reply-snoc)
  call-IsAnswered word param (some h) s good = grind (arith, good h refl param s)

  -- A command line is answered by one reply, unless an exception leaves its handler; then nothing
  -- is posted.
  pub handle_ftp_command-IsAnswered :
      (db : UserDatabase) (env : Env) (line : Bytes) (s : Session os)
      → IsAnswered s (handle_ftp_command db env line s)
  unfolding handle_ftp_command await_next
  handle_ftp_command-IsAnswered db env line s =
      let answered =
        call-IsAnswered (command_word line) (parameters line)
          (find (command_word line) (command_map db env)) (record s { reading = false })
          (λ h e.
            find-All IsReplying (command_word line) (command_map db env)
              (command_map-answers os db env) e) in
      grind (arith, answered)
