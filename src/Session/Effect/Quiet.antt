-- ===== src/Session/Effect/Quiet.antt =====
-- The handlers that touch neither the disk nor a path of the session nor its user.
use fineftp_server.Base.{
  ◌≡◌, refl, Bool, true, false, Option, none, some, arith, Bytes, if◌then◌else◌,
}
use fineftp_server.Message.{FtpReplyCode, FtpMessage}
use fineftp_server.Users.{FtpUser}
use fineftp_server.Os.{Os}
use fineftp_server.Session.{
  Session, Env, close_data_acceptor, send_message, send_ftp_message, send_raw_ftp_message,
  accept_data_connection,
}
use fineftp_server.Session.Access.{handle_acct, handle_rein}
use fineftp_server.Session.Parameters.{
  handle_port, handle_pasv, handle_type, handle_stru, handle_mode,
}
use fineftp_server.Session.Download.{handle_retr, handle_size, handle_mdtm}
use fineftp_server.Session.Manage.{handle_pwd}
use fineftp_server.Session.Listing.{handle_list, handle_nlst}
use fineftp_server.Session.Info.{
  handle_allo, handle_rest, handle_abor, handle_site, handle_syst, handle_stat, handle_help,
  handle_noop, handle_feat, handle_opts,
}
use fineftp_server.Session.Effect.{EffectOf, keeps, IsSafe, Step, IsHandler}

-- These fields stay as they are.
pub record Same {os : Os} (s s' : Session os) : Type 0 where
  pub user : s'.logged_in_user ≡ s.logged_in_user
  pub directory : s'.ftp_working_directory ≡ s.ftp_working_directory
  pub renaming : s'.rename_from_path ≡ s.rename_from_path
  pub disk : s'.disk ≡ s.disk

pub EffectOf-same :
    (os : Os) (user : Option FtpUser) {d d' : os.Disk} → d' ≡ d → EffectOf os user d d'
EffectOf-same os none e = e
EffectOf-same os (some user) e = keeps e

pub Same-Step : {os : Os} {s s' : Session os} → Same s s' → IsSafe s → Step s s'
Same-Step {os} {s} {s'} same v = record {
  effect = EffectOf-same os s.logged_in_user same.disk;
  safe = record {
    directory = rw same.directory v.directory;
    renaming = rw same.renaming v.renaming;
    root = rw same.user v.root;
  };
}

module _ {os : Os} where
  pub send-Same :
      (code : FtpReplyCode) (m : Bytes) (s : Session os) → Same s (send_ftp_message code m s)
  unfolding send_ftp_message
  send-Same code m s = record { user = refl; directory = refl; renaming = refl; disk = refl }

  pub message-Same : (m : FtpMessage) (s : Session os) → Same s (send_message m s)
  unfolding send_message
  message-Same m s = record { user = refl; directory = refl; renaming = refl; disk = refl }

  -- Replies do not change what a step is.
  pub Step-Same : {s t u : Session os} → Step s t → Same t u → Step s u
  Step-Same {s} {t} {u} st same = record {
    effect = rw same.disk st.effect;
    safe = (Same-Step same st.safe).safe;
  }

  -- A reply alone is a safe step.
  pub send-Step :
      (code : FtpReplyCode) (m : Bytes) {s : Session os}
      → IsSafe s
      → Step s (send_ftp_message code m s)
  send-Step code m {s} v = Same-Step (send-Same code m s) v

  -- The two branches of a test.
  pub if-Step :
      {s t u : Session os} (b : Bool)
      → (b ≡ true → Step s t)
      → (b ≡ false → Step s u)
      → Step s (if b then t else u)
  if-Step true f g = f refl
  if-Step false f g = g refl

  user-Step-go :
      {s t : Session os} {u : FtpUser → Session os} (o : Option FtpUser)
      → s.logged_in_user ≡ o
      → Step s t
      → ((user : FtpUser) → s.logged_in_user ≡ some user → Step s (u user))
      → Step s (elim o [ none ↦ t | some user ↦ u user ])
  user-Step-go none e f g = f
  user-Step-go (some user) e f g = g user e

  -- Nobody is logged in, or a user is.
  pub user-Step :
      {s t : Session os} {u : FtpUser → Session os}
      → Step s t
      → ((user : FtpUser) → s.logged_in_user ≡ some user → Step s (u user))
      → Step s (elim s.logged_in_user [ none ↦ t | some user ↦ u user ])
  user-Step {s} f g = user-Step-go s.logged_in_user refl f g

  pub acct-IsHandler : IsHandler (handle_acct {os = os})
  unfolding handle_acct
  acct-IsHandler param s n v = send-Step _ _ v

  pub rein-IsHandler : IsHandler (handle_rein {os = os})
  unfolding handle_rein
  rein-IsHandler param s n v = send-Step _ _ v

  pub port-IsHandler : IsHandler (handle_port {os = os})
  unfolding handle_port
  port-IsHandler param s n v = send-Step _ _ v

  pub stru-IsHandler : IsHandler (handle_stru {os = os})
  unfolding handle_stru
  stru-IsHandler param s n v = send-Step _ _ v

  pub mode-IsHandler : IsHandler (handle_mode {os = os})
  unfolding handle_mode
  mode-IsHandler param s n v = send-Step _ _ v

  pub allo-IsHandler : IsHandler (handle_allo {os = os})
  unfolding handle_allo
  allo-IsHandler param s n v = send-Step _ _ v

  pub rest-IsHandler : IsHandler (handle_rest {os = os})
  unfolding handle_rest
  rest-IsHandler param s n v = send-Step _ _ v

  pub abor-IsHandler : IsHandler (handle_abor {os = os})
  unfolding handle_abor
  abor-IsHandler param s n v = send-Step _ _ v

  pub site-IsHandler : IsHandler (handle_site {os = os})
  unfolding handle_site
  site-IsHandler param s n v = send-Step _ _ v

  pub syst-IsHandler : IsHandler (handle_syst {os = os})
  unfolding handle_syst
  syst-IsHandler param s n v = send-Step _ _ v

  pub stat-IsHandler : IsHandler (handle_stat {os = os})
  unfolding handle_stat
  stat-IsHandler param s n v = send-Step _ _ v

  pub help-IsHandler : IsHandler (handle_help {os = os})
  unfolding handle_help
  help-IsHandler param s n v = send-Step _ _ v

  pub noop-IsHandler : IsHandler (handle_noop {os = os})
  unfolding handle_noop
  noop-IsHandler param s n v = send-Step _ _ v

  pub feat-IsHandler : IsHandler (handle_feat {os = os})
  unfolding handle_feat send_raw_ftp_message
  feat-IsHandler param s n v =
      Same-Step (record { user = refl; directory = refl; renaming = refl; disk = refl }) v

  pub opts-IsHandler : IsHandler (handle_opts {os = os})
  unfolding handle_opts send_ftp_message
  opts-IsHandler param s n v = Same-Step (ground arith) v

  pub pasv-IsHandler : (env : Env) → IsHandler (handle_pasv {os = os} env)
  unfolding handle_pasv send_ftp_message close_data_acceptor
  pasv-IsHandler env param s n v = Same-Step (ground arith) v

  pub type-IsHandler : IsHandler (handle_type {os = os})
  unfolding handle_type send_ftp_message
  type-IsHandler param s n v = Same-Step (ground arith) v

  pub retr-IsHandler : IsHandler (handle_retr {os = os})
  unfolding handle_retr send_ftp_message accept_data_connection
  retr-IsHandler param s n v = Same-Step (ground arith) v

  pub size-IsHandler : IsHandler (handle_size {os = os})
  unfolding handle_size send_ftp_message
  size-IsHandler param s n v = Same-Step (ground arith) v

  pub mdtm-IsHandler : (env : Env) → IsHandler (handle_mdtm {os = os} env)
  unfolding handle_mdtm send_ftp_message
  mdtm-IsHandler env param s n v = Same-Step (ground arith) v

  pub pwd-IsHandler : IsHandler (handle_pwd {os = os})
  unfolding handle_pwd send_ftp_message
  pwd-IsHandler param s n v = Same-Step (ground arith) v

  pub list-IsHandler : IsHandler (handle_list {os = os})
  unfolding handle_list send_ftp_message accept_data_connection
  list-IsHandler param s n v = Same-Step (ground arith) v

  pub nlst-IsHandler : IsHandler (handle_nlst {os = os})
  unfolding handle_nlst send_ftp_message accept_data_connection
  nlst-IsHandler param s n v = Same-Step (ground arith) v
