-- ===== src/Session/Replies.antt =====
-- Every handler posts one reply, but for PASV where an exception leaves it.
pub mod Commands
pub mod Calm
pub mod Conversation
pub mod Quit
use fineftp_server.Base.{
  ℕ, zero, suc, ◌+◌, ◌≡◌, refl, ap, Bool, true, false, Option, none, some, List, [], ◌∷◌, ◌++◌,
  arith, Bytes, codes, All, ◌⊎◌, inl, inr, Bool-cases,
}
use fineftp_server.Users.{UserDatabase, FtpUser}
use fineftp_server.Os.{Os}
use fineftp_server.Session.{
  Session, Env, send_message, send_ftp_message, send_raw_ftp_message, accept_data_connection,
  execute_cwd, close_data_acceptor,
}
use fineftp_server.Session.Access.{
  handle_user, handle_pass, handle_acct, handle_cwd, handle_cdup, handle_rein, handle_quit, log_in,
  cdup_reply,
}
use fineftp_server.Session.Parameters.{
  start_listening, passive_failed, passive_reply, handle_port, handle_pasv, handle_type,
  handle_stru, handle_mode,
}
use fineftp_server.Session.Upload.{
  handle_stor, handle_stou, handle_appe, max_attempts, store, store_unique, append_to,
  open_and_receive, opened_write, opened_unique,
}
use fineftp_server.Session.Download.{handle_retr, handle_size, handle_mdtm}
use fineftp_server.Session.Manage.{
  handle_rnfr, handle_rnto, handle_dele, handle_rmd, handle_mkd, handle_pwd, rename_to, after_call,
}
use fineftp_server.Session.Listing.{handle_list, handle_nlst}
use fineftp_server.Session.Info.{
  handle_allo, handle_rest, handle_abor, handle_site, handle_syst, handle_stat, handle_help,
  handle_noop, handle_feat, handle_opts,
}

-- The last reply that was posted.
abbrev pub last_reply : List Bytes → Bytes
last_reply [] = []
last_reply (r ∷ []) = r
last_reply (r ∷ q ∷ rs) = last_reply (q ∷ rs)

pub last_reply-snoc : (rs : List Bytes) (r : Bytes) → last_reply (rs ++ r ∷ []) ≡ r
last_reply-snoc [] r = refl
last_reply-snoc (p ∷ []) r = refl
last_reply-snoc (p ∷ q ∷ rs) r = last_reply-snoc (q ∷ rs) r

module _ {os : Os} where
  -- One reply was posted, behind those that were there.
  abbrev pub IsReplied : Session os → Session os → Type 0
  IsReplied s s' = s'.posted ≡ s.posted ++ last_reply s'.posted ∷ []

  -- Either the reply, or the exception.
  abbrev pub IsAnswered : Session os → Session os → Type 0
  IsAnswered s s' = IsReplied s s' ⊎ ((s'.thrown ≡ true) × (s'.posted ≡ s.posted))

  abbrev pub IsReplying : (Bytes → Session os → Session os) → Type 0
  IsReplying h = (param : Bytes) (s : Session os) → IsAnswered s (h param s)

  pub user-IsReplying : IsReplying (handle_user {os = os})
  unfolding handle_user send_message send_ftp_message
  user-IsReplying param s = inl (grind (arith, last_reply-snoc))

  pub acct-IsReplying : IsReplying (handle_acct {os = os})
  unfolding handle_acct send_message send_ftp_message
  acct-IsReplying param s = inl (grind (arith, last_reply-snoc))

  pub cwd-IsReplying : IsReplying (handle_cwd {os = os})
  unfolding handle_cwd send_message send_ftp_message execute_cwd
  cwd-IsReplying param s = inl (grind (arith, last_reply-snoc))

  pub cdup-IsReplying : IsReplying (handle_cdup {os = os})
  unfolding handle_cdup send_message send_ftp_message cdup_reply execute_cwd
  cdup-IsReplying param s = inl (grind (arith, last_reply-snoc))

  pub rein-IsReplying : IsReplying (handle_rein {os = os})
  unfolding handle_rein send_message send_ftp_message
  rein-IsReplying param s = inl (grind (arith, last_reply-snoc))

  pub quit-IsReplying : IsReplying (handle_quit {os = os})
  unfolding handle_quit send_message send_ftp_message
  quit-IsReplying param s = inl (grind (arith, last_reply-snoc))

  pub port-IsReplying : IsReplying (handle_port {os = os})
  unfolding handle_port send_message send_ftp_message
  port-IsReplying param s = inl (grind (arith, last_reply-snoc))

  pub type-IsReplying : IsReplying (handle_type {os = os})
  unfolding handle_type send_message send_ftp_message
  type-IsReplying param s = inl (grind (arith, last_reply-snoc))

  pub stru-IsReplying : IsReplying (handle_stru {os = os})
  unfolding handle_stru send_message send_ftp_message
  stru-IsReplying param s = inl (grind (arith, last_reply-snoc))

  pub mode-IsReplying : IsReplying (handle_mode {os = os})
  unfolding handle_mode send_message send_ftp_message
  mode-IsReplying param s = inl (grind (arith, last_reply-snoc))

  pub retr-IsReplying : IsReplying (handle_retr {os = os})
  unfolding handle_retr send_message send_ftp_message accept_data_connection
  retr-IsReplying param s = inl (grind (arith, last_reply-snoc))

  pub stor-IsReplying : IsReplying (handle_stor {os = os})
  unfolding handle_stor send_message send_ftp_message store open_and_receive opened_write
      accept_data_connection
  stor-IsReplying param s = inl (grind (arith, last_reply-snoc))

  pub appe-IsReplying : IsReplying (handle_appe {os = os})
  unfolding handle_appe send_message send_ftp_message append_to open_and_receive opened_write
      accept_data_connection
  appe-IsReplying param s = inl (grind (arith, last_reply-snoc))

  pub allo-IsReplying : IsReplying (handle_allo {os = os})
  unfolding handle_allo send_message send_ftp_message
  allo-IsReplying param s = inl (grind (arith, last_reply-snoc))

  pub rest-IsReplying : IsReplying (handle_rest {os = os})
  unfolding handle_rest send_message send_ftp_message
  rest-IsReplying param s = inl (grind (arith, last_reply-snoc))

  pub rnfr-IsReplying : IsReplying (handle_rnfr {os = os})
  unfolding handle_rnfr send_message send_ftp_message
  rnfr-IsReplying param s = inl (grind (arith, last_reply-snoc))

  pub rnto-IsReplying : IsReplying (handle_rnto {os = os})
  unfolding handle_rnto send_message send_ftp_message rename_to after_call
  rnto-IsReplying param s = inl (grind (arith, last_reply-snoc))

  pub abor-IsReplying : IsReplying (handle_abor {os = os})
  unfolding handle_abor send_message send_ftp_message
  abor-IsReplying param s = inl (grind (arith, last_reply-snoc))

  pub dele-IsReplying : IsReplying (handle_dele {os = os})
  unfolding handle_dele send_message send_ftp_message after_call
  dele-IsReplying param s = inl (grind (arith, last_reply-snoc))

  pub rmd-IsReplying : IsReplying (handle_rmd {os = os})
  unfolding handle_rmd send_message send_ftp_message after_call
  rmd-IsReplying param s = inl (grind (arith, last_reply-snoc))

  pub mkd-IsReplying : IsReplying (handle_mkd {os = os})
  unfolding handle_mkd send_message send_ftp_message after_call
  mkd-IsReplying param s = inl (grind (arith, last_reply-snoc))

  pub pwd-IsReplying : IsReplying (handle_pwd {os = os})
  unfolding handle_pwd send_message send_ftp_message
  pwd-IsReplying param s = inl (grind (arith, last_reply-snoc))

  pub list-IsReplying : IsReplying (handle_list {os = os})
  unfolding handle_list send_message send_ftp_message accept_data_connection
  list-IsReplying param s = inl (grind (arith, last_reply-snoc))

  pub nlst-IsReplying : IsReplying (handle_nlst {os = os})
  unfolding handle_nlst send_message send_ftp_message accept_data_connection
  nlst-IsReplying param s = inl (grind (arith, last_reply-snoc))

  pub site-IsReplying : IsReplying (handle_site {os = os})
  unfolding handle_site send_message send_ftp_message
  site-IsReplying param s = inl (grind (arith, last_reply-snoc))

  pub syst-IsReplying : IsReplying (handle_syst {os = os})
  unfolding handle_syst send_message send_ftp_message
  syst-IsReplying param s = inl (grind (arith, last_reply-snoc))

  pub stat-IsReplying : IsReplying (handle_stat {os = os})
  unfolding handle_stat send_message send_ftp_message
  stat-IsReplying param s = inl (grind (arith, last_reply-snoc))

  pub help-IsReplying : IsReplying (handle_help {os = os})
  unfolding handle_help send_message send_ftp_message
  help-IsReplying param s = inl (grind (arith, last_reply-snoc))

  pub noop-IsReplying : IsReplying (handle_noop {os = os})
  unfolding handle_noop send_message send_ftp_message
  noop-IsReplying param s = inl (grind (arith, last_reply-snoc))

  pub feat-IsReplying : IsReplying (handle_feat {os = os})
  unfolding handle_feat send_message send_ftp_message send_raw_ftp_message
  feat-IsReplying param s = inl (grind (arith, last_reply-snoc))

  pub opts-IsReplying : IsReplying (handle_opts {os = os})
  unfolding handle_opts send_message send_ftp_message
  opts-IsReplying param s = inl (grind (arith, last_reply-snoc))

  pub size-IsReplying : IsReplying (handle_size {os = os})
  unfolding handle_size send_message send_ftp_message
  size-IsReplying param s = inl (grind (arith, last_reply-snoc))

  pub pass-IsReplying : (db : UserDatabase) → IsReplying (handle_pass {os = os} db)
  unfolding handle_pass log_in send_ftp_message
  pass-IsReplying db param s = inl (grind (arith, last_reply-snoc))

  pub mdtm-IsReplying : (env : Env) → IsReplying (handle_mdtm {os = os} env)
  unfolding handle_mdtm send_ftp_message
  mdtm-IsReplying env param s = inl (grind (arith, last_reply-snoc))

  store_unique-IsReplied :
      (attempts : ℕ) (draws : ℕ → ℕ) (user : FtpUser) (s : Session os)
      → IsReplied s (store_unique attempts draws user s)
  unfolding store_unique opened_unique accept_data_connection send_ftp_message
  store_unique-IsReplied zero draws user s = grind (arith, last_reply-snoc)
  store_unique-IsReplied (suc n) draws user s =
      let rest = store_unique-IsReplied n draws user (record s { drawn = s.drawn + 1 }) in
      grind (arith, last_reply-snoc, rest)

  pub stou-IsReplying : (env : Env) → IsReplying (handle_stou {os = os} env)
  unfolding handle_stou send_ftp_message
  stou-IsReplying env param s =
      inl (grind (arith, last_reply-snoc, store_unique-IsReplied max_attempts env.draws))

  pub pasv-IsReplying : (env : Env) → IsReplying (handle_pasv {os = os} env)
  unfolding handle_pasv start_listening passive_failed passive_reply send_ftp_message
      close_data_acceptor
  pasv-IsReplying env param s = grind (arith, last_reply-snoc)
