-- ===== src/Session/Wording/Plain.antt =====
-- The handlers whose replies are fixed texts.
use fineftp_server.Base.{refl, Bool, true, Option, none, some, [], ◌∷◌, Bytes, codes, All-append}
use fineftp_server.Users.{UserDatabase, FtpUser, get_user}
use fineftp_server.CleanPath.{slash}
use fineftp_server.Message.Framing.{IsInline}
use fineftp_server.Os.{Os}
use fineftp_server.Session.{Session, send_raw_ftp_message}
use fineftp_server.Session.Access.{
  handle_acct, handle_user, handle_pass, handle_rein, handle_quit, log_in,
}
use fineftp_server.Session.Parameters.{handle_port, handle_type, handle_stru, handle_mode}
use fineftp_server.Session.Info.{
  feature_list, handle_allo, handle_rest, handle_abor, handle_site, handle_syst, handle_stat,
  handle_help, handle_noop, handle_feat, handle_opts,
}
use fineftp_server.CleanPath.Content.{slash-IsRooted}
use fineftp_server.Session.Wording.{
  IsTidy, IsTidying, RootText, IsReplyText, features, say-IsTidy, if-IsTidy, user-IsTidy,
}

-- No root folder in the database has a carriage return or a line feed.
abbrev pub RootsText : UserDatabase → Type 0
RootsText db = (name password : Bytes) → RootText (get_user name password db)

module _ {os : Os} where
  pub acct-IsTidying : IsTidying (handle_acct {os = os})
  unfolding handle_acct codes
  acct-IsTidying param s t v = say-IsTidy _ _ refl v

  pub rein-IsTidying : IsTidying (handle_rein {os = os})
  unfolding handle_rein codes
  rein-IsTidying param s t v = say-IsTidy _ _ refl v

  pub port-IsTidying : IsTidying (handle_port {os = os})
  unfolding handle_port codes
  port-IsTidying param s t v = say-IsTidy _ _ refl v

  pub stru-IsTidying : IsTidying (handle_stru {os = os})
  unfolding handle_stru codes
  stru-IsTidying param s t v = say-IsTidy _ _ refl v

  pub mode-IsTidying : IsTidying (handle_mode {os = os})
  unfolding handle_mode codes
  mode-IsTidying param s t v = say-IsTidy _ _ refl v

  pub allo-IsTidying : IsTidying (handle_allo {os = os})
  unfolding handle_allo codes
  allo-IsTidying param s t v = say-IsTidy _ _ refl v

  pub rest-IsTidying : IsTidying (handle_rest {os = os})
  unfolding handle_rest codes
  rest-IsTidying param s t v = say-IsTidy _ _ refl v

  pub abor-IsTidying : IsTidying (handle_abor {os = os})
  unfolding handle_abor codes
  abor-IsTidying param s t v = say-IsTidy _ _ refl v

  pub site-IsTidying : IsTidying (handle_site {os = os})
  unfolding handle_site codes
  site-IsTidying param s t v = say-IsTidy _ _ refl v

  pub syst-IsTidying : IsTidying (handle_syst {os = os})
  unfolding handle_syst codes
  syst-IsTidying param s t v = say-IsTidy _ _ refl v

  pub stat-IsTidying : IsTidying (handle_stat {os = os})
  unfolding handle_stat codes
  stat-IsTidying param s t v = say-IsTidy _ _ refl v

  pub help-IsTidying : IsTidying (handle_help {os = os})
  unfolding handle_help codes
  help-IsTidying param s t v = say-IsTidy _ _ refl v

  pub noop-IsTidying : IsTidying (handle_noop {os = os})
  unfolding handle_noop codes
  noop-IsTidying param s t v = say-IsTidy _ _ refl v

  pub feat-IsTidying : IsTidying (handle_feat {os = os})
  unfolding handle_feat send_raw_ftp_message
  feat-IsTidying param s t v = record {
    directory = v.directory;
    root = v.root;
    replies = All-append IsReplyText s.posted (feature_list ∷ []) v.replies (features refl, tt);
  }

  pub opts-IsTidying : IsTidying (handle_opts {os = os})
  unfolding handle_opts codes
  opts-IsTidying param s t v = search (if-IsTidy, say-IsTidy, refl)

  binary-IsTidy :
      (b : Bool) {s : Session os} → IsTidy s → IsTidy (record s { data_type_binary = b })
  binary-IsTidy b v = record { directory = v.directory; root = v.root; replies = v.replies }

  pub type-IsTidying : IsTidying (handle_type {os = os})
  unfolding handle_type codes
  type-IsTidying param s t v =
      user-IsTidy s.logged_in_user (search (say-IsTidy, refl))
        (λ user e. search (if-IsTidy, say-IsTidy, binary-IsTidy, refl))

  -- The account changes, and the directory stays or is the root.
  account-IsTidy :
      (user : Option FtpUser) (name : Bytes) {s : Session os}
      → RootText user
      → IsTidy s
      → IsTidy (record s {
        logged_in_user = user;
        username_for_login = name;
        ftp_working_directory = slash ∷ [];
      })
  account-IsTidy user name r v = record {
    directory = slash-IsRooted IsInline;
    root = r;
    replies = v.replies;
  }

  pub user-IsTidying : IsTidying (handle_user {os = os})
  unfolding handle_user codes
  user-IsTidying param s t v = search (if-IsTidy, say-IsTidy, account-IsTidy, refl, tt)

  pub quit-IsTidying : IsTidying (handle_quit {os = os})
  unfolding handle_quit codes
  quit-IsTidying param s t v =
      say-IsTidy _ _ {s = record s { logged_in_user = none; shutdown_requested = true }} refl
        (record { directory = v.directory; root = tt; replies = v.replies })

  log_in-IsTidy :
      (user : Option FtpUser) (s : Session os) → RootText user → IsTidy s → IsTidy (log_in user s)
  unfolding log_in codes
  log_in-IsTidy none s r v = say-IsTidy _ _ refl v
  log_in-IsTidy (some user) s r v =
      say-IsTidy _ _ {s = record s { logged_in_user = some user }} refl
        (record { directory = v.directory; root = r; replies = v.replies })

  pub pass-IsTidying : (db : UserDatabase) → RootsText db → IsTidying (handle_pass {os = os} db)
  unfolding handle_pass codes
  pass-IsTidying db roots param s t v =
      if-IsTidy _ (say-IsTidy _ _ refl v) (log_in-IsTidy _ s (roots s.username_for_login param) v)
