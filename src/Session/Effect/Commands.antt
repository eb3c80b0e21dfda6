-- ===== src/Session/Effect/Commands.antt =====
-- `handleFtpCommand`: what a whole command line does to the disk and the session.
use fineftp_server.Base.{
  ◌&◌, ℕ, ◌≡◌, ◌≢◌, refl, Bool, false, Option, none, some, [], ◌∷◌, arith, Bytes, All, Bool-cases,
  inl, inr,
}
use fineftp_server.Users.{UserDatabase, find}
use fineftp_server.Users.Laws.{find-All}
use fineftp_server.CleanPath.{break_at}
use fineftp_server.Os.{Os}
use fineftp_server.Session.{Session, Env}
use fineftp_server.Session.Paths.{NoNul}
use fineftp_server.Session.Dispatch.{
  Handler, command_map, handle_ftp_command, command_word, parameters, call, finish, await_next,
  rest_or_empty, is_space,
}
use fineftp_server.Session.Effect.{IsSafe, Step, IsHandler}
use fineftp_server.Session.Effect.Quiet.{
  send-Step, Step-Same, Same, acct-IsHandler, rein-IsHandler, port-IsHandler, stru-IsHandler,
  mode-IsHandler, allo-IsHandler, rest-IsHandler, abor-IsHandler, site-IsHandler, syst-IsHandler,
  stat-IsHandler, help-IsHandler, noop-IsHandler, feat-IsHandler, opts-IsHandler, pasv-IsHandler,
  type-IsHandler, retr-IsHandler, size-IsHandler, mdtm-IsHandler, pwd-IsHandler, list-IsHandler,
  nlst-IsHandler,
}
use fineftp_server.Session.Effect.Accounts.{
  RootsNoNul, user-IsHandler, quit-IsHandler, cwd-IsHandler, cdup-IsHandler, rnfr-IsHandler,
  pass-IsHandler,
}
use fineftp_server.Session.Effect.Changes.{
  dele-IsHandler, rmd-IsHandler, mkd-IsHandler, rnto-IsHandler,
}
use fineftp_server.Session.Effect.Uploads.{stor-IsHandler, stou-IsHandler, appe-IsHandler}

pub break_at-All :
    (P : ℕ → Type 0) (p : ℕ → Bool) (s : Bytes) → All P s → All P (rest_or_empty (break_at p s).1)
unfolding break_at rest_or_empty
break_at-All P p [] h = tt
break_at-All P p (c ∷ s) h = elim (Bool-cases (p c)) [
  | inl e ↦ rw e h.1
  | inr e ↦ rw e (break_at-All P p s h.1)
]

-- Every handler of the command map keeps its promise.
command_map-All :
    (os : Os) (db : UserDatabase) (env : Env)
    → RootsNoNul db
    → All (λ e. IsHandler {os = os} e.1) (command_map db env)
unfolding command_map
command_map-All os db env roots =
    user-IsHandler
    & pass-IsHandler db roots
    & acct-IsHandler
    & cwd-IsHandler
    & cdup-IsHandler
    & rein-IsHandler
    & quit-IsHandler
    & port-IsHandler
    & pasv-IsHandler env
    & type-IsHandler
    & stru-IsHandler
    & mode-IsHandler
    & retr-IsHandler
    & stor-IsHandler
    & stou-IsHandler env
    & appe-IsHandler
    & allo-IsHandler
    & rest-IsHandler
    & rnfr-IsHandler
    & rnto-IsHandler
    & abor-IsHandler
    & dele-IsHandler
    & rmd-IsHandler
    & mkd-IsHandler
    & pwd-IsHandler
    & list-IsHandler
    & nlst-IsHandler
    & site-IsHandler
    & syst-IsHandler
    & stat-IsHandler
    & help-IsHandler
    & noop-IsHandler
    & feat-IsHandler
    & opts-IsHandler
    & size-IsHandler
    & mdtm-IsHandler env
    & tt

module _ {os : Os} where
  finish-Same : (word : Bytes) (s : Session os) → Same s (finish word s)
  unfolding finish
  finish-Same word s = ground arith

  call-Step :
      (word param : Bytes) (handler : Option (Handler os)) (s : Session os)
      → ((h : Handler os) → handler ≡ some h → IsHandler h)
      → NoNul param
      → IsSafe s
      → Step s (call word param handler s)
  unfolding call finish
  call-Step word param none s good n v = send-Step _ _ v
  call-Step word param (some h) s good n v =
      Step-Same (good h refl param s n v) (finish-Same word _)

  await_next-Same : (s : Session os) → Same s (await_next s)
  unfolding await_next
  await_next-Same s = ground arith

  waiting-Step : {s t : Session os} → Step (record s { reading = false }) t → Step s t
  waiting-Step st = record { effect = st.effect; safe = st.safe }

  -- On a safe session, where no root folder of the database holds a NUL byte, a command line
  -- without a NUL byte changes the disk only as the permissions of the user who is logged in allow,
  -- on paths that are that user's root folder or stand below it, by one system call at most, and
  -- keeps the session safe.
  pub handle_ftp_command-Step :
      (db : UserDatabase) (env : Env) (line : Bytes) (s : Session os)
      → RootsNoNul db
      → NoNul line
      → IsSafe s
      → Step s (handle_ftp_command db env line s)
  unfolding handle_ftp_command parameters
  handle_ftp_command-Step db env line s roots n v =
      let param = break_at-All (λ c. c ≢ 0) is_space line n in
      waiting-Step (
        Step-Same
          (call-Step (command_word line) (parameters line)
            (find (command_word line) (command_map db env)) (record s { reading = false })
            (λ h e.
              find-All IsHandler (command_word line) (command_map db env)
                (command_map-All os db env roots) e)
            param (record { directory = v.directory; renaming = v.renaming; root = v.root }))
          (await_next-Same _))
