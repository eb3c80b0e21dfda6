-- ===== src/Session/Identity/Login.antt =====
-- The handlers that log in and out: USER, PASS, QUIT.
use fineftp_server.Base.{
  ◌≡◌, refl, not, ◌||◌, Option, none, some, arith, Bytes, codes, bytes_eq, if-cases,
}
use fineftp_server.Users.{UserDatabase, FtpUser, get_user, empty}
use fineftp_server.Os.{Os}
use fineftp_server.Session.{Session, send_ftp_message}
use fineftp_server.Session.Access.{handle_user, handle_pass, handle_quit, log_in}
use fineftp_server.Session.Identity.{
  IsAuthentic, nobody, someone, IsKeeping, IsSameAccount-IsAuthentic,
}

module _ {os : Os} where
  pub user-IsKeeping : (db : UserDatabase) → IsKeeping db (handle_user {os = os})
  unfolding handle_user send_ftp_message
  user-IsKeeping db param s v = nobody (ground arith)

  pub quit-IsKeeping : (db : UserDatabase) → IsKeeping db (handle_quit {os = os})
  unfolding handle_quit send_ftp_message
  quit-IsKeeping db param s v = nobody refl

  log_in-IsAuthentic :
      (db : UserDatabase) (password : Bytes) (found : Option FtpUser) (s : Session os)
      → found ≡ get_user s.username_for_login password db
      → IsAuthentic db s
      → IsAuthentic db (log_in found s)
  unfolding log_in send_ftp_message
  log_in-IsAuthentic db password none s e v =
      IsSameAccount-IsAuthentic db (record { user = refl; name = refl }) v
  log_in-IsAuthentic db password (some user) s e v = someone password e

  pub pass-IsKeeping : (db : UserDatabase) → IsKeeping db (handle_pass {os = os} db)
  unfolding handle_pass send_ftp_message
  pass-IsKeeping db param s v =
      if-cases (IsAuthentic db)
        (not (bytes_eq s.last_command (codes "USER")) || empty s.username_for_login) _ _
        (λ _. IsSameAccount-IsAuthentic db (record { user = refl; name = refl }) v)
        (λ _. log_in-IsAuthentic db param _ s refl v)
