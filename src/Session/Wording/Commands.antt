-- ===== src/Session/Wording/Commands.antt =====
-- Whatever a command line says, its reply is one line of text, or the list of features.
use fineftp_server.Base.{◌≡◌, ◌&◌, refl, Bool, true, false, Option, none, some, Bytes, codes, All}
use fineftp_server.Message.Framing.{IsInline}
use fineftp_server.Users.{UserDatabase, find}
use fineftp_server.Users.Laws.{find-All}
use fineftp_server.Os.{Os}
use fineftp_server.Session.{Session, Env}
use fineftp_server.Session.Dispatch.{
  Handler, command_map, handle_ftp_command, command_word, parameters, is_space, call, finish,
  await_next,
}
use fineftp_server.Session.Effect.Commands.{break_at-All}
use fineftp_server.Session.Wording.{IsText, IsTidy, IsTidying, say-IsTidy, if-IsTidy}
use fineftp_server.Session.Wording.Plain.{
  RootsText, user-IsTidying, pass-IsTidying, acct-IsTidying, rein-IsTidying, quit-IsTidying,
  port-IsTidying, type-IsTidying, stru-IsTidying, mode-IsTidying, allo-IsTidying, rest-IsTidying,
  abor-IsTidying, site-IsTidying, syst-IsTidying, stat-IsTidying, help-IsTidying, noop-IsTidying,
  feat-IsTidying, opts-IsTidying,
}
use fineftp_server.Session.Wording.Directory.{cwd-IsTidying, cdup-IsTidying}
use fineftp_server.Session.Wording.Paths.{
  rnfr-IsTidying, rnto-IsTidying, dele-IsTidying, rmd-IsTidying, mkd-IsTidying, pwd-IsTidying,
}
use fineftp_server.Session.Wording.Transfers.{
  retr-IsTidying, stor-IsTidying, stou-IsTidying, appe-IsTidying, list-IsTidying, nlst-IsTidying,
  size-IsTidying,
}
use fineftp_server.Session.Wording.Numbers.{pasv-IsTidying, mdtm-IsTidying}

command_map-IsTidying :
    (os : Os) (db : UserDatabase) (env : Env)
    → RootsText db
    → All (λ e. IsTidying {os = os} e.1) (command_map db env)
unfolding command_map
command_map-IsTidying os db env roots =
    user-IsTidying
    & pass-IsTidying db roots
    & acct-IsTidying
    & cwd-IsTidying
    & cdup-IsTidying
    & rein-IsTidying
    & quit-IsTidying
    & port-IsTidying
    & pasv-IsTidying env
    & type-IsTidying
    & stru-IsTidying
    & mode-IsTidying
    & retr-IsTidying
    & stor-IsTidying
    & stou-IsTidying env
    & appe-IsTidying
    & allo-IsTidying
    & rest-IsTidying
    & rnfr-IsTidying
    & rnto-IsTidying
    & abor-IsTidying
    & dele-IsTidying
    & rmd-IsTidying
    & mkd-IsTidying
    & pwd-IsTidying
    & list-IsTidying
    & nlst-IsTidying
    & site-IsTidying
    & syst-IsTidying
    & stat-IsTidying
    & help-IsTidying
    & noop-IsTidying
    & feat-IsTidying
    & opts-IsTidying
    & size-IsTidying
    & mdtm-IsTidying env
    & tt

module _ {os : Os} where
  reading-IsTidy : (b : Bool) {s : Session os} → IsTidy s → IsTidy (record s { reading = b })
  reading-IsTidy b v = record { directory = v.directory; root = v.root; replies = v.replies }

  finish-IsTidy : (word : Bytes) (s : Session os) → IsTidy s → IsTidy (finish word s)
  unfolding finish
  finish-IsTidy word s v =
      if-IsTidy _ v (record { directory = v.directory; root = v.root; replies = v.replies })

  call-IsTidy :
      (word param : Bytes) (handler : Option (Handler os)) (s : Session os)
      → ((h : Handler os) → handler ≡ some h → IsTidying h)
      → IsText param
      → IsTidy s
      → IsTidy (call word param handler s)
  unfolding call codes
  call-IsTidy word param none s good t v = say-IsTidy _ _ refl v
  call-IsTidy word param (some h) s good t v = finish-IsTidy word _ (good h refl param s t v)

  await_next-IsTidy : (s : Session os) → IsTidy s → IsTidy (await_next s)
  unfolding await_next
  await_next-IsTidy s v = if-IsTidy _ v (reading-IsTidy true v)

  pub handle_ftp_command-IsTidy :
      (db : UserDatabase) (env : Env) (line : Bytes) (s : Session os)
      → RootsText db
      → IsText line
      → IsTidy s
      → IsTidy (handle_ftp_command db env line s)
  unfolding handle_ftp_command parameters
  handle_ftp_command-IsTidy db env line s roots t v = await_next-IsTidy _ (
      call-IsTidy (command_word line) (parameters line)
        (find (command_word line) (command_map db env)) (record s { reading = false })
        (λ h e.
          find-All IsTidying (command_word line) (command_map db env)
            (command_map-IsTidying os db env roots) e)
        (break_at-All IsInline is_space line t) (reading-IsTidy false v))
