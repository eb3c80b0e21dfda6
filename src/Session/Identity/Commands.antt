-- ===== src/Session/Identity/Commands.antt =====
-- Who is logged in, over command lines and runs of a session.
use fineftp_server.Base.{◌&◌, ◌≡◌, refl, false, Option, none, some, arith, Bytes, All}
use fineftp_server.Users.{UserDatabase, find}
use fineftp_server.Users.Laws.{find-All}
use fineftp_server.Os.{Os}
use fineftp_server.Session.{Session, Env, send_ftp_message}
use fineftp_server.Session.Dispatch.{
  Handler, command_map, handle_ftp_command, command_word, parameters, call, finish, await_next,
}
use fineftp_server.Session.Identity.Login.{user-IsKeeping, pass-IsKeeping, quit-IsKeeping}
use fineftp_server.Session.Identity.{
  IsSameAccount, IsAuthentic, IsKeeping, IsHolding, IsSameAccount-IsAuthentic, acct-IsHolding,
  cwd-IsHolding, cdup-IsHolding, rein-IsHolding, port-IsHolding, pasv-IsSameAccount, type-IsHolding,
  stru-IsHolding, mode-IsHolding,
}
use fineftp_server.Session.Identity.Info.{
  allo-IsHolding, rest-IsHolding, abor-IsHolding, site-IsHolding, syst-IsHolding, stat-IsHolding,
  help-IsHolding, noop-IsHolding, feat-IsHolding, opts-IsHolding,
}
use fineftp_server.Session.Identity.Files.{
  retr-IsHolding, stor-IsHolding, stou-IsHolding, appe-IsHolding, rnfr-IsHolding, rnto-IsHolding,
  dele-IsHolding, rmd-IsHolding, mkd-IsHolding, pwd-IsHolding, list-IsHolding, nlst-IsHolding,
  size-IsHolding, mdtm-IsHolding,
}

module _ (os : Os) (db : UserDatabase) where
  hold : {h : Handler os} → IsHolding h → IsKeeping db h
  hold same param s v = IsSameAccount-IsAuthentic db (same param s).account v

  -- Every handler of the map keeps the user authentic.
  command_map-keeps : (env : Env) → All (λ e. IsKeeping {os = os} db e.1) (command_map db env)
  unfolding command_map
  command_map-keeps env =
      user-IsKeeping db
      & pass-IsKeeping db
      & hold acct-IsHolding
      & hold cwd-IsHolding
      & hold cdup-IsHolding
      & hold rein-IsHolding
      & quit-IsKeeping db
      & hold port-IsHolding
      & (λ param s. IsSameAccount-IsAuthentic db (pasv-IsSameAccount env param s))
      & hold type-IsHolding
      & hold stru-IsHolding
      & hold mode-IsHolding
      & hold retr-IsHolding
      & hold stor-IsHolding
      & hold (stou-IsHolding env)
      & hold appe-IsHolding
      & hold allo-IsHolding
      & hold rest-IsHolding
      & hold rnfr-IsHolding
      & hold rnto-IsHolding
      & hold abor-IsHolding
      & hold dele-IsHolding
      & hold rmd-IsHolding
      & hold mkd-IsHolding
      & hold pwd-IsHolding
      & hold list-IsHolding
      & hold nlst-IsHolding
      & hold site-IsHolding
      & hold syst-IsHolding
      & hold stat-IsHolding
      & hold help-IsHolding
      & hold noop-IsHolding
      & hold feat-IsHolding
      & hold opts-IsHolding
      & hold size-IsHolding
      & hold (mdtm-IsHolding env)
      & tt

module _ {os : Os} (db : UserDatabase) where
  pub finish-IsSameAccount : (word : Bytes) (s : Session os) → IsSameAccount s (finish word s)
  unfolding finish
  finish-IsSameAccount word s = ground arith

  call-IsAuthentic :
      (word param : Bytes) (handler : Option (Handler os)) (s : Session os)
      → ((h : Handler os) → handler ≡ some h → IsKeeping db h)
      → IsAuthentic db s
      → IsAuthentic db (call word param handler s)
  unfolding call send_ftp_message
  call-IsAuthentic word param none s good v =
      IsSameAccount-IsAuthentic db (record { user = refl; name = refl }) v
  call-IsAuthentic word param (some h) s good v =
      IsSameAccount-IsAuthentic db (finish-IsSameAccount word (h param s)) (good h refl param s v)

  pub await_next-IsSameAccount : (s : Session os) → IsSameAccount s (await_next s)
  unfolding await_next
  await_next-IsSameAccount s = ground arith

  pub handle_ftp_command-IsAuthentic :
      (env : Env) (line : Bytes) (s : Session os)
      → IsAuthentic db s
      → IsAuthentic db (handle_ftp_command db env line s)
  unfolding handle_ftp_command
  handle_ftp_command-IsAuthentic env line s v =
      let waiting =
        IsSameAccount-IsAuthentic db {s = s} {s' = record s { reading = false }}
          (record { user = refl; name = refl }) v in
      IsSameAccount-IsAuthentic db (await_next-IsSameAccount _) (
        call-IsAuthentic (command_word line) (parameters line)
          (find (command_word line) (command_map db env)) (record s { reading = false })
          (λ h e.
            find-All (IsKeeping db) (command_word line) (command_map db env)
              (command_map-keeps os db env) e)
          waiting)
