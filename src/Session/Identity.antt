-- ===== src/Session/Identity.antt =====
-- Who is logged in: which handlers change `logged_in_user_` and `username_for_login_`.
pub mod Info
pub mod Files
pub mod Login
pub mod Commands
pub mod Others
use fineftp_server.Base.{
  ℕ, zero, suc, ◌+◌, ◌≡◌, refl, not, ◌||◌, Option, none, some, Bool, true, false, arith, Bytes,
  codes, bytes_eq, Option-cases, if-cases, inl, inr,
}
use fineftp_server.Users.{UserDatabase, FtpUser, get_user, empty}
use fineftp_server.Os.{Os}
use fineftp_server.Session.{
  Session, Env, Address, v4, v6, send_message, send_ftp_message, send_raw_ftp_message,
  accept_data_connection, execute_cwd, close_data_acceptor,
}
use fineftp_server.Session.Access.{
  handle_user, handle_pass, handle_acct, handle_cwd, handle_cdup, handle_rein, handle_quit, log_in,
  cdup_reply,
}
use fineftp_server.Session.Parameters.{
  start_listening, passive_failed, passive_reply, handle_port, handle_pasv, handle_type,
  handle_stru, handle_mode,
}
use fineftp_server.Session.Upload.{
  handle_stor, handle_stou, handle_appe, max_attempts, store, store_unique, append_to,
  open_and_receive, opened_write, opened_unique,
}
use fineftp_server.Session.Download.{handle_retr, handle_size, handle_mdtm}
use fineftp_server.Session.Manage.{
  handle_rnfr, handle_rnto, handle_dele, handle_rmd, handle_mkd, handle_pwd, rename_to, after_call,
}
use fineftp_server.Session.Listing.{handle_list, handle_nlst}
use fineftp_server.Session.Info.{
  handle_allo, handle_rest, handle_abor, handle_site, handle_syst, handle_stat, handle_help,
  handle_noop, handle_feat, handle_opts,
}

-- `to_v4` throws on an IPv6 address only.
abbrev pub is_v4 : Option Address → Bool
is_v4 none = true
is_v4 (some (v4 a b c d)) = true
is_v4 (some (v6 bytes)) = false

module _ {os : Os} where
  -- Both fields stay as they are.
  pub record IsSameAccount (s s' : Session os) : Type 0 where
    pub user : s'.logged_in_user ≡ s.logged_in_user
    pub name : s'.username_for_login ≡ s.username_for_login

  -- Nobody is logged in, or the user whom the database has for the name that USER gave last, with
  -- some password.
  pub data IsAuthentic (db : UserDatabase) (s : Session os) : Type 0 where
    nobody : s.logged_in_user ≡ none → IsAuthentic db s
    someone :
        (password : Bytes)
        → s.logged_in_user ≡ get_user s.username_for_login password db
        → IsAuthentic db s

  abbrev pub IsKeeping : UserDatabase → (Bytes → Session os → Session os) → Type 0
  IsKeeping db h = (param : Bytes) (s : Session os) → IsAuthentic db s → IsAuthentic db (h param s)

  pub IsSameAccount-IsAuthentic :
      (db : UserDatabase) {s s' : Session os}
      → IsSameAccount s s'
      → IsAuthentic db s
      → IsAuthentic db s'
  IsSameAccount-IsAuthentic db same (nobody e) = nobody (cc (same.user, e))
  IsSameAccount-IsAuthentic db same (someone password e) =
      someone password (cc (same.user, same.name, e))

  -- And no exception, and no end of the session.
  pub record IsCalm (s s' : Session os) : Type 0 where
    pub account : IsSameAccount s s'
    pub thrown : s'.thrown ≡ s.thrown
    pub shutdown : s'.shutdown_requested ≡ s.shutdown_requested

  abbrev pub IsHolding : (Bytes → Session os → Session os) → Type 0
  IsHolding h = (param : Bytes) (s : Session os) → IsCalm s (h param s)

  pub acct-IsHolding : IsHolding (handle_acct {os = os})
  unfolding handle_acct send_message send_ftp_message
  acct-IsHolding param s = ground arith

  pub cwd-IsHolding : IsHolding (handle_cwd {os = os})
  unfolding handle_cwd send_message execute_cwd
  cwd-IsHolding param s = ground arith

  pub cdup-IsHolding : IsHolding (handle_cdup {os = os})
  unfolding handle_cdup send_message cdup_reply send_ftp_message execute_cwd
  cdup-IsHolding param s = ground arith

  pub rein-IsHolding : IsHolding (handle_rein {os = os})
  unfolding handle_rein send_message send_ftp_message
  rein-IsHolding param s = ground arith

  pub port-IsHolding : IsHolding (handle_port {os = os})
  unfolding handle_port send_message send_ftp_message
  port-IsHolding param s = ground arith

  pub type-IsHolding : IsHolding (handle_type {os = os})
  unfolding handle_type send_message send_ftp_message
  type-IsHolding param s = ground arith

  pub stru-IsHolding : IsHolding (handle_stru {os = os})
  unfolding handle_stru send_message send_ftp_message
  stru-IsHolding param s = ground arith

  pub mode-IsHolding : IsHolding (handle_mode {os = os})
  unfolding handle_mode send_message send_ftp_message
  mode-IsHolding param s = ground arith

  pub pasv-IsSameAccount :
      (env : Env) (param : Bytes) (s : Session os) → IsSameAccount s (handle_pasv env param s)
  unfolding handle_pasv start_listening passive_failed passive_reply send_ftp_message
      close_data_acceptor
  pasv-IsSameAccount env param s = ground arith

  pub pasv-IsHolding :
      (env : Env) → is_v4 env.local_endpoint ≡ true → IsHolding (handle_pasv {os = os} env)
  unfolding handle_pasv start_listening passive_failed passive_reply send_ftp_message
      close_data_acceptor
  pasv-IsHolding env h param s = ground (arith, h)
