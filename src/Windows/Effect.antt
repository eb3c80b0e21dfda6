-- ===== src/Windows/Effect.antt =====
-- ftp_session.cpp: what RNTO, DELE, RMD and MKD of the Windows build do to the disk.
use mathlib.Core.Path.{subst}
use fineftp_server.Base.{bytes_eq_iff}
use fineftp_server.Base.{
  ◌≡◌, refl, some-injective, sym, ◌∙◌, Bool, true, false, not, ◌||◌, Option, none, some, Bytes,
  arith, codes, bytes_eq, if◌then◌else◌,
}
use fineftp_server.Permission.{denies, file_delete, dir_delete, dir_create}
use fineftp_server.Message.{FtpReplyCode, FtpMessage, value}
use fineftp_server.Users.{FtpUser, empty}
use fineftp_server.Os.{Os}
use fineftp_server.FileStatus.{is_regular_file}
use fineftp_server.Session.{Session, send_ftp_message, send_message, lacks_some}
use fineftp_server.Session.Effect.{Granted}
use fineftp_server.Session.Manage.{is_command_ok}
use fineftp_server.Windows.Paths.{to_local_path}
use fineftp_server.Windows.Status.{Machine, wide_path, type}
use fineftp_server.Windows.Manage.{status_of, rename_to, handle_dele, handle_rmd, handle_mkd}
use fineftp_server.Windows.Manage.Escape.{after_call-disk}
use fineftp_server.Windows.Rename.{
  required_to_rename, renamable, check_if_path_is_renamable, handle_rnto,
}

module _ {os : Os} (m : Machine os) where
  abbrev pub path_at : FtpUser → Session os → Bytes → Bytes
  path_at user s path = to_local_path user s.ftp_working_directory path

  -- The disk stays as it is, or, if that is permitted, it is as a call left it.
  pub data Effect (Permitted : Type 0) (after : os.Disk) (s s' : Session os) : Type 0 where
    keeps : s'.disk ≡ s.disk → Effect Permitted after s s'
    calls : Permitted → s'.disk ≡ after → Effect Permitted after s s'

  -- Nobody who is not logged in changes the disk.
  pub record IsAllowed (Permitted : FtpUser → Type 0) (after : FtpUser → os.Disk)
      (s s' : Session os) : Type 0 where
    pub logged_out : s.logged_in_user ≡ none → s'.disk ≡ s.disk
    pub effect :
        (user : FtpUser) → s.logged_in_user ≡ some user → Effect (Permitted user) (after user) s s'

  -- The path that is kept for RNTO is of something, which the user may rename, and nothing is where it
  -- goes.
  pub record MayRename (param : Bytes) (s : Session os) (user : FtpUser) : Type 0 where
    pub in_sequence : s.last_command ≡ codes "RNFR"
    pub granted :
        lacks_some user.permissions (required_to_rename (status_of m user s.rename_from_path s))
        ≡ false
    pub there : (status_of m user s.rename_from_path s).is_ok ≡ true
    pub free : (status_of m user param s).is_ok ≡ false

  -- It is a regular file, and the user may delete files.
  pub record MayDelete (param : Bytes) (s : Session os) (user : FtpUser) : Type 0 where
    pub granted : Granted user file_delete
    pub regular : is_regular_file (type (status_of m user param s)) ≡ true

  abbrev pub Renames : Bytes → Session os → Session os → Type 0
  Renames param s s' =
      IsAllowed (MayRename param s)
        (λ user.
          (m.move_file (wide_path m (path_at user s s.rename_from_path))
            (wide_path m (path_at user s param)) s.disk).1)
        s s'

  abbrev pub Deletes : Bytes → Session os → Session os → Type 0
  Deletes param s s' =
      IsAllowed (MayDelete param s)
        (λ user. (m.delete_file (wide_path m (path_at user s param)) s.disk).1) s s'

  abbrev pub Removes : Bytes → Session os → Session os → Type 0
  Removes param s s' =
      IsAllowed (λ user. Granted user dir_delete)
        (λ user. (m.remove_directory (wide_path m (path_at user s param)) s.disk).1) s s'

  abbrev pub Makes : Bytes → Session os → Session os → Type 0
  Makes param s s' =
      IsAllowed (λ user. Granted user dir_create)
        (λ user. (m.create_directory (wide_path m (path_at user s param)) s.disk).1) s s'

  send-disk :
      (code : FtpReplyCode) (text : Bytes) (s : Session os)
      → (send_ftp_message code text s).disk ≡ s.disk
  unfolding send_ftp_message
  send-disk code text s = refl

  message-disk : (r : FtpMessage) (s : Session os) → (send_message r s).disk ≡ s.disk
  unfolding send_message
  message-disk r s = refl

  send-Effect :
      {P : Type 0} {d : os.Disk} (code : FtpReplyCode) (text : Bytes) (s : Session os)
      → Effect P d s (send_ftp_message code text s)
  send-Effect code text s = keeps (send-disk code text s)

  if-Effect :
      {P : Type 0} {d : os.Disk} {s t u : Session os} (b : Bool)
      → (b ≡ true → Effect P d s t)
      → (b ≡ false → Effect P d s u)
      → Effect P d s (if b then t else u)
  if-Effect true f g = f refl
  if-Effect false f g = g refl

  elim-IsAllowed :
      {P : FtpUser → Type 0} {d : FtpUser → os.Disk} {s : Session os} (t : Session os)
      (u : FtpUser → Session os) (o : Option FtpUser)
      → s.logged_in_user ≡ o
      → t.disk ≡ s.disk
      → ((user : FtpUser) → s.logged_in_user ≡ some user → Effect (P user) (d user) s (u user))
      → IsAllowed P d s (elim o [ none ↦ t | some user ↦ u user ])
  elim-IsAllowed t u none e f g = record { logged_out = λ _. f; effect = λ user h. cc }
  elim-IsAllowed {P} {d} {s} t u (some user) e f g = record {
    logged_out = λ h. cc;
    effect = λ user' h.
        subst (λ w. Effect (P w) (d w) s (u user)) (some-injective (sym e ∙ h)) (g user e);
  }

  rmd-Removes : (param : Bytes) (s : Session os) → Removes param s (handle_rmd m param s)
  unfolding handle_rmd
  rmd-Removes param s = elim-IsAllowed _ _ s.logged_in_user refl (send-disk _ _ s) (λ user e.
      if-Effect (denies user.permissions dir_delete) (λ _. send-Effect _ _ s)
        (λ g. calls g (after_call-disk m _ _ _ _ s _)))

  mkd-Makes : (param : Bytes) (s : Session os) → Makes param s (handle_mkd m param s)
  unfolding handle_mkd
  mkd-Makes param s = elim-IsAllowed _ _ s.logged_in_user refl (send-disk _ _ s) (λ user e.
      if-Effect (denies user.permissions dir_create) (λ _. send-Effect _ _ s)
        (λ g. calls g (after_call-disk m _ _ _ _ s _)))

  dele-Deletes : (param : Bytes) (s : Session os) → Deletes param s (handle_dele m param s)
  unfolding handle_dele
  dele-Deletes param s = elim-IsAllowed _ _ s.logged_in_user refl (send-disk _ _ s) (λ user e.
      let status = status_of m user param s in
      if-Effect (not status.is_ok) (λ _. send-Effect _ _ s)
        (λ _.
          if-Effect (not (is_regular_file (type status))) (λ _. send-Effect _ _ s)
            (λ r.
              if-Effect (denies user.permissions file_delete) (λ _. send-Effect _ _ s)
                (λ g.
                  calls (record { granted = g; regular = ground (arith, r) })
                    (after_call-disk m _ _ _ _ s _)))))

  -- What a positive answer of `checkIfPathIsRenamable` means.
  renamable_lem :
      {user : FtpUser} (path : Bytes) (s : Session os)
      → s.logged_in_user ≡ some user
      → is_command_ok (check_if_path_is_renamable m path s) ≡ true
      → (lacks_some user.permissions (required_to_rename (status_of m user path s)) ≡ false)
        × ((status_of m user path s).is_ok ≡ true)
  unfolding check_if_path_is_renamable renamable value
  renamable_lem path s e h = ground arith

  rename_to-Effect :
      {user : FtpUser} (param : Bytes) (s : Session os)
      → s.logged_in_user ≡ some user
      → s.last_command ≡ codes "RNFR"
      → is_command_ok (check_if_path_is_renamable m s.rename_from_path s) ≡ true
      → Effect
          (MayRename param s user)
          (m.move_file
            (wide_path m (path_at user s s.rename_from_path))
            (wide_path m (path_at user s param))
            s.disk).1
          s
          (rename_to m user param s)
  unfolding rename_to
  rename_to-Effect {user} param s e l h =
      if-Effect (status_of m user param s).is_ok (λ _. send-Effect _ _ s)
        (λ free.
          let (granted, there) = renamable_lem s.rename_from_path s e h in
          calls (record { in_sequence = l; granted = granted; there = there; free = free })
            (after_call-disk m _ _ _ _ s _))

  rnto-Renames : (param : Bytes) (s : Session os) → Renames param s (handle_rnto m param s)
  unfolding handle_rnto
  rnto-Renames param s = elim-IsAllowed _ _ s.logged_in_user refl (send-disk _ _ s) (λ user e.
      if-Effect (not (bytes_eq s.last_command (codes "RNFR")) || empty s.rename_from_path)
        (λ _. send-Effect _ _ s)
        (λ w.
          if-Effect (empty param) (λ _. send-Effect _ _ s)
            (λ _.
              if-Effect (is_command_ok (check_if_path_is_renamable m s.rename_from_path s))
                (λ h.
                  rename_to-Effect param s e
                    (ground (arith, w, (bytes_eq_iff s.last_command (codes "RNFR")).0)) h)
                (λ _. keeps (message-disk _ s)))))

-- On Windows, RNTO, DELE, RMD and MKD change the disk by at most one call each, and only for a user
-- who is logged in: RNTO moves the path that was kept for it to its parameter, while `last_command_`
-- is RNFR, if the user may rename what is there and nothing is at its parameter; DELE deletes its
-- parameter, if that is a regular file and the user may delete files; RMD removes its parameter, if
-- the user may delete directories; MKD makes its parameter, if the user may create directories. The
-- paths are those of `toLocalPath`, whether or not they are in the root folder.
pub handlers-IsAllowed :
    {os : Os} (m : Machine os) (param : Bytes) (s : Session os)
    → Renames m param s (handle_rnto m param s)
      × Deletes m param s (handle_dele m param s)
      × Removes m param s (handle_rmd m param s)
      × Makes m param s (handle_mkd m param s)
handlers-IsAllowed m param s =
    (rnto-Renames m param s, dele-Deletes m param s, rmd-Removes m param s, mkd-Makes m param s)
