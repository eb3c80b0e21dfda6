-- ===== src/Session/Effect/Accounts.antt =====
-- The handlers that change the user or the paths of the session: USER, PASS, QUIT, CWD, CDUP, RNFR.
use fineftp_server.Base.{
  All, ◌≡◌, ◌≢◌, refl, not, ◌||◌, bytes_eq, ◌⊎◌, inl, inr, Option, none, some, [], ◌∷◌, arith,
  Bytes, codes,
}
use fineftp_server.Message.{FtpMessage}
use fineftp_server.Permission.{denies, dir_list}
use fineftp_server.Users.{FtpUser, UserDatabase, get_user, empty}
use fineftp_server.Users.Laws.{get_user-IfUser}
use fineftp_server.CleanPath.{slash}
use fineftp_server.CleanPath.Content.{IsRooted, slash-IsRooted}
use fineftp_server.Os.{Os}
use fineftp_server.Session.{
  Session, send_message, send_ftp_message, to_absolute_ftp_path, execute_cwd,
  check_if_path_is_renamable,
}
use fineftp_server.Session.Paths.{NoNul, slash_dot-NoNul, dots-NoNul, to_absolute_ftp_path-IsRooted}
use fineftp_server.Session.Access.{
  handle_user, handle_pass, handle_cwd, handle_cdup, handle_quit, log_in, cdup_reply,
}
use fineftp_server.Session.Manage.{handle_rnfr, is_command_ok}
use fineftp_server.Session.Effect.{IsSafe, Step, IsHandler, RootNoNul}
use fineftp_server.Session.Effect.Quiet.{
  EffectOf-same, Same, Step-Same, message-Same, send-Step, if-Step, user-Step,
}

pub root-IsRooted : IsRooted (λ c. c ≢ 0) (slash ∷ [])
root-IsRooted = slash-IsRooted (λ c. c ≢ 0)

-- Every user of the database has a root folder without a NUL byte.
abbrev pub RootsNoNul : UserDatabase → Type 0
RootsNoNul db = (n p : Bytes) → RootNoNul (get_user n p db)

-- It is enough that every registered user has one.
pub RootsNoNul-of :
    (db : UserDatabase)
    → All (λ e. NoNul e.1.local_root_path) db.database
    → RootNoNul db.anonymous_user
    → RootsNoNul db
RootsNoNul-of db named anonymous =
    get_user-IfUser (λ user. NoNul user.local_root_path) db named anonymous

module _ {os : Os} where
  -- A step that leaves the disk alone.
  still-Step : {s s' : Session os} → s'.disk ≡ s.disk → IsSafe s' → Step s s'
  still-Step {s} e v = record { effect = EffectOf-same os s.logged_in_user e; safe = v }

  pub user-IsHandler : IsHandler (handle_user {os = os})
  unfolding handle_user send_ftp_message
  user-IsHandler [] s n v =
      still-Step refl (record { directory = root-IsRooted; renaming = v.renaming; root = tt })
  user-IsHandler (c ∷ param) s n v =
      still-Step refl (record { directory = root-IsRooted; renaming = v.renaming; root = tt })

  pub quit-IsHandler : IsHandler (handle_quit {os = os})
  unfolding handle_quit send_ftp_message
  quit-IsHandler param s n v =
      still-Step refl (record { directory = v.directory; renaming = v.renaming; root = tt })

  -- `executeCWD` moves to the absolute path of its parameter, or stays.
  cwd_directory :
      (param : Bytes) (s : Session os)
      → ((execute_cwd param s).1.ftp_working_directory ≡ s.ftp_working_directory)
        ⊎ ((execute_cwd param s).1.ftp_working_directory
            ≡ to_absolute_ftp_path s.ftp_working_directory param)
  unfolding execute_cwd
  cwd_directory param s = ground arith

  cwd_rest :
      (param : Bytes) (s : Session os)
      → ((execute_cwd param s).1.logged_in_user ≡ s.logged_in_user)
        × ((execute_cwd param s).1.rename_from_path ≡ s.rename_from_path)
        × ((execute_cwd param s).1.disk ≡ s.disk)
  unfolding execute_cwd
  cwd_rest param s = ground arith

  execute_cwd-Step :
      (param : Bytes) (s : Session os) → NoNul param → IsSafe s → Step s (execute_cwd param s).1
  execute_cwd-Step param s n v =
      let (user, renaming, disk) = cwd_rest param s in
      still-Step disk (record {
        directory = elim (cwd_directory param s) [
          | inl e ↦ rw e v.directory
          | inr e ↦
              rw e
                (to_absolute_ftp_path-IsRooted (λ c. c ≢ 0) _ param slash_dot-NoNul v.directory n)
        ];
        renaming = rw renaming v.renaming;
        root = rw user v.root;
      })

  pub cwd-IsHandler : IsHandler (handle_cwd {os = os})
  unfolding handle_cwd
  cwd-IsHandler param s n v = Step-Same (execute_cwd-Step param s n v) (message-Same _ _)

  cdup_reply-Same : (m : FtpMessage) (s : Session os) → Same s (cdup_reply m s)
  unfolding cdup_reply send_ftp_message send_message
  cdup_reply-Same m s = ground arith

  pub cdup-IsHandler : IsHandler (handle_cdup {os = os})
  unfolding handle_cdup
  cdup-IsHandler param s n v = user-Step (send-Step _ _ v) (λ user e.
      if-Step (denies user.permissions dir_list) (λ _. send-Step _ _ v)
        (λ _.
          if-Step (not (bytes_eq s.ftp_working_directory (slash ∷ [])))
            (λ _. Step-Same (execute_cwd-Step _ s dots-NoNul v) (cdup_reply-Same _ _))
            (λ _. send-Step _ _ v)))

  -- The path that is about to be renamed is a local path of the session.
  pub rnfr-IsHandler : IsHandler (handle_rnfr {os = os})
  unfolding handle_rnfr send_message send_ftp_message
  rnfr-IsHandler param s n v =
      if-Step
        (is_command_ok (check_if_path_is_renamable param (record s { rename_from_path = [] })))
        (λ _. still-Step refl (record { directory = v.directory; renaming = n; root = v.root }))
        (λ _. still-Step refl (record { directory = v.directory; renaming = tt; root = v.root }))

  log_in-Step :
      (user : Option FtpUser) (s : Session os) → RootNoNul user → IsSafe s → Step s (log_in user s)
  unfolding log_in send_ftp_message
  log_in-Step none s r v = send-Step _ _ v
  log_in-Step (some user) s r v =
      still-Step refl (record { directory = v.directory; renaming = v.renaming; root = r })

  pub pass-IsHandler : (db : UserDatabase) → RootsNoNul db → IsHandler (handle_pass {os = os} db)
  unfolding handle_pass
  pass-IsHandler db roots param s n v =
      if-Step (not (bytes_eq s.last_command (codes "USER")) || empty s.username_for_login)
        (λ _. send-Step _ _ v) (λ _. log_in-Step _ s (roots _ _) v)
