-- ===== src/Session/Effect/Changes.antt =====
-- The handlers that change the disk: DELE, RMD, MKD, RNTO, STOR, STOU and APPE.
use fineftp_server.Base.{
  ◌≡◌, ◌≢◌, refl, ap, Bool, true, false, not, ◌||◌, some, arith, Bytes, codes, bytes_eq,
}
use fineftp_server.Permission.{denies, file_delete, dir_delete, dir_create}
use fineftp_server.Message.{FtpReplyCode, value}
use fineftp_server.Users.{FtpUser, empty}
use fineftp_server.Os.{Os, c_str}
use fineftp_server.FileStatus.{type, is_regular_file}
use fineftp_server.Session.{
  Session, send_ftp_message, to_local_path, status_of, renamable, lacks_some, required_to_rename,
  check_if_path_is_renamable,
}
use fineftp_server.Session.Paths.{
  NoNul, IsInFolder, to_local_path_lem, c_str-to_local_path, slash_dot-NoNul, All-IsEntry,
}
use fineftp_server.Session.Manage.{
  after_call, handle_dele, handle_rmd, handle_mkd, handle_rnto, rename_to, is_command_ok,
}
use fineftp_server.Session.Effect.{
  Effect, unlinks, removes, makes, renames, IsSafe, Step, IsHandler,
}
use fineftp_server.Session.Effect.Quiet.{send-Step, message-Same, Same-Step, if-Step, user-Step}

module _ {os : Os} where
  -- A call that changes the disk for the user who is logged in.
  pub disk-Step :
      {s s' : Session os} {user : FtpUser}
      → s.logged_in_user ≡ some user
      → Effect os user s.disk s'.disk
      → IsSafe s'
      → Step s s'
  disk-Step {s} {s'} e effect safe = record { effect = rw e effect; safe = safe }

  -- The local path of a parameter is below the root folder, and is the path that is asked for.
  pub local_path :
      {user : FtpUser} (s : Session os) (param : Bytes)
      → s.logged_in_user ≡ some user
      → IsSafe s
      → NoNul param
      → IsInFolder user (to_local_path user s.ftp_working_directory param)
        × (c_str (to_local_path user s.ftp_working_directory param)
            ≡ to_local_path user s.ftp_working_directory param)
  local_path {user} s param e v n =
      let root : NoNul user.local_root_path = rw e at v.root in
      let (cs, h, p) =
        to_local_path_lem (λ c. c ≢ 0) user s.ftp_working_directory param slash_dot-NoNul
          v.directory n in
      ((cs, All-IsEntry (λ c. c ≢ 0) cs h, p), c_str-to_local_path user _ param root v.directory n)

  after_call-Step :
      (good : FtpReplyCode) (done : Bytes) (bad : FtpReplyCode) (failed : Bytes) {user : FtpUser}
      (s : Session os) (r : Bool × os.Disk)
      → s.logged_in_user ≡ some user
      → IsSafe s
      → Effect os user s.disk r.1
      → Step s (after_call good done bad failed s r)
  unfolding after_call send_ftp_message
  after_call-Step good done bad failed s (true, d) e v f =
      disk-Step e f (record { directory = v.directory; renaming = v.renaming; root = v.root })
  after_call-Step good done bad failed s (false, d) e v f =
      disk-Step e f (record { directory = v.directory; renaming = v.renaming; root = v.root })

  pub rmd-IsHandler : IsHandler (handle_rmd {os = os})
  unfolding handle_rmd
  rmd-IsHandler param s n v = user-Step (send-Step _ _ v) (λ user e.
      if-Step (denies user.permissions dir_delete) (λ _. send-Step _ _ v)
        (λ g.
          let (below, c) = local_path s param e v n in
          after_call-Step _ _ _ _ s _ e v (removes _ below g (ap (λ p. (os.rmdir p s.disk).1) c))))

  pub mkd-IsHandler : IsHandler (handle_mkd {os = os})
  unfolding handle_mkd
  mkd-IsHandler param s n v = user-Step (send-Step _ _ v) (λ user e.
      if-Step (denies user.permissions dir_create) (λ _. send-Step _ _ v)
        (λ g.
          let (below, c) = local_path s param e v n in
          after_call-Step _ _ _ _ s _ e v
            (makes _ below g (ap (λ p. (os.mkdir p 0o755 s.disk).1) c))))

  pub dele-IsHandler : IsHandler (handle_dele {os = os})
  unfolding handle_dele status_of
  dele-IsHandler param s n v = user-Step (send-Step _ _ v) (λ user e.
      let status = status_of user param s in
      if-Step (not status.is_ok) (λ _. send-Step _ _ v)
        (λ _.
          if-Step (not (is_regular_file (type status))) (λ _. send-Step _ _ v)
            (λ r.
              if-Step (denies user.permissions file_delete) (λ _. send-Step _ _ v)
                (λ g.
                  let (below, c) = local_path s param e v n in
                  after_call-Step _ _ _ _ s _ e v
                    (unlinks _ below g (ground (arith, r)) (ap (λ p. (os.unlink p s.disk).1) c))))))

  -- What a positive answer of `checkIfPathIsRenamable` means.
  renamable_lem :
      {user : FtpUser} (path : Bytes) (s : Session os)
      → s.logged_in_user ≡ some user
      → is_command_ok (check_if_path_is_renamable path s) ≡ true
      → (lacks_some user.permissions (required_to_rename (status_of user path s)) ≡ false)
        × ((status_of user path s).is_ok ≡ true)
  unfolding check_if_path_is_renamable renamable value
  renamable_lem path s e h = ground arith

  rename_to-Step :
      {user : FtpUser} (param : Bytes) (s : Session os)
      → s.logged_in_user ≡ some user
      → IsSafe s
      → NoNul param
      → is_command_ok (check_if_path_is_renamable s.rename_from_path s) ≡ true
      → Step s (rename_to user param s)
  unfolding rename_to status_of
  rename_to-Step {user} param s e v n h =
      if-Step (status_of user param s).is_ok (λ _. send-Step _ _ v)
        (λ free.
          let (from, c) = local_path s s.rename_from_path e v v.renaming in
          let (to, c') = local_path s param e v n in
          let (granted, there) = renamable_lem s.rename_from_path s e h in
          after_call-Step _ _ _ _ s _ e v
            (renames _ _ from to granted there free (rw (c, c') refl)))

  pub rnto-IsHandler : IsHandler (handle_rnto {os = os})
  unfolding handle_rnto
  rnto-IsHandler param s n v = user-Step (send-Step _ _ v) (λ user e.
      if-Step (not (bytes_eq s.last_command (codes "RNFR")) || empty s.rename_from_path)
        (λ _. send-Step _ _ v)
        (λ _.
          if-Step (empty param) (λ _. send-Step _ _ v)
            (λ _.
              if-Step (is_command_ok (check_if_path_is_renamable s.rename_from_path s))
                (λ h. rename_to-Step param s e v n h) (λ _. Same-Step (message-Same _ s) v))))
