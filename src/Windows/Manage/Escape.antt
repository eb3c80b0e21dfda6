-- ===== src/Windows/Manage/Escape.antt =====
-- ftp_session.cpp: DELE of the Windows build, and what it deletes.
use fineftp_server.Base.{
  ℕ, ◌≡◌, refl, Bool, true, false, some, List, [], ◌∷◌, arith, Bytes, codes, All, length,
}
use fineftp_server.Permission.{denies, file_delete}
use fineftp_server.Message.{FtpReplyCode}
use fineftp_server.Message.FtpReplyCode.{file_action_not_taken, file_action_completed}
use fineftp_server.Users.{FtpUser}
use fineftp_server.CleanPath.{slash, is_letter}
use fineftp_server.Os.{Os}
use fineftp_server.FileStatus.{is_regular_file}
use fineftp_server.Session.{Session, send_ftp_message}
use fineftp_server.Windows.Paths.{to_local_path}
use fineftp_server.Windows.Paths.Escape.{IsName, climb, on_drive, to_local_path-escapes}
use fineftp_server.Windows.Status.{Machine, wide_path, file_status_of, type}
use fineftp_server.Windows.Manage.{after_call, status_of, handle_dele}

module _ {os : Os} (m : Machine os) where
  pub after_call-disk :
      (good : FtpReplyCode) (done : Bytes) (bad : FtpReplyCode) (failed : Bytes) (s : Session os)
      (r : Bool × os.Disk)
      → (after_call m good done bad failed s r).disk ≡ r.1
  unfolding after_call send_ftp_message
  after_call-disk good done bad failed s (true, d) = refl
  after_call-disk good done bad failed s (false, d) = refl

  handle_dele-called :
      (param : Bytes) (s : Session os) (user : FtpUser)
      → s.logged_in_user ≡ some user
      → (status_of m user param s).is_ok ≡ true
      → is_regular_file (type (status_of m user param s)) ≡ true
      → denies user.permissions file_delete ≡ false
      → handle_dele m param s
        ≡ after_call m file_action_completed
            (codes "Successfully deleted file")
            file_action_not_taken
            (codes "Unable to delete file: ")
            s
            (m.delete_file (wide_path m (to_local_path user s.ftp_working_directory param)) s.disk)
  unfolding handle_dele
  handle_dele-called param s user e ok regular d = ground (arith, e, ok, regular, d)

  status_of-path :
      (user : FtpUser) (param : Bytes) (s : Session os)
      → status_of m user param s
        ≡ file_status_of m s.disk (to_local_path user s.ftp_working_directory param)
  unfolding status_of
  status_of-path user param s = refl

-- On Windows a user who may delete files deletes one outside the user's root folder: where that is a
-- folder on a drive, DELE in the root directory, with as many times `..` and a backslash as the path
-- of the folder has entries and then a name, asks Windows to delete the file of that name on the
-- drive itself, whenever that is a regular file. The entries and the name are not empty, `.` or `..`,
-- and hold no slash and no backslash.
pub handle_dele-escapes :
    {os : Os} (m : Machine os) (s : Session os) (user : FtpUser) (letter : ℕ) (folders : List Bytes)
    (x : Bytes)
    → s.logged_in_user ≡ some user
    → s.ftp_working_directory ≡ slash ∷ []
    → denies user.permissions file_delete ≡ false
    → user.local_root_path ≡ on_drive letter folders
    → is_letter letter ≡ true
    → All IsName folders
    → IsName x
    → (file_status_of m s.disk (on_drive letter (x ∷ []))).is_ok ≡ true
    → is_regular_file (type (file_status_of m s.disk (on_drive letter (x ∷ [])))) ≡ true
    → (handle_dele m (climb (length folders) x) s).disk
      ≡ (m.delete_file (wide_path m (on_drive letter (x ∷ []))) s.disk).1
handle_dele-escapes m s user letter folders x e w d r l hs h ok regular =
    let there : to_local_path user s.ftp_working_directory (climb (length folders) x)
        ≡ on_drive letter (x ∷ []) =
      rw w (to_local_path-escapes user letter folders x r l hs h) in
    let status = status_of-path m user (climb (length folders) x) s in
    rw
      (
        handle_dele-called m (climb (length folders) x) s user e (rw (status, there) ok)
            (rw (status, there) regular) d,
        there,
      )
      (after_call-disk m _ _ _ _ s (m.delete_file (wide_path m (on_drive letter (x ∷ []))) s.disk))
