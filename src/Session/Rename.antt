-- ===== src/Session/Rename.antt =====
-- RNTO: it renames what the last RNFR named.
use fineftp_server.Base.{◌≡◌, true, false, Bytes, codes}
use fineftp_server.Users.{FtpUser, empty}
use fineftp_server.Os.{Os, c_str}
use fineftp_server.FileStatus.{file_status_of}
use fineftp_server.Session.{Session, to_local_path, check_if_path_is_renamable}
use fineftp_server.Session.Manage.{is_command_ok}

module _ {os : Os} where
  abbrev pub local : FtpUser → Session os → Bytes → Bytes
  local user s path = to_local_path user s.ftp_working_directory path

  -- The disk is as it was, or one call renamed, while `last_command_` is RNFR, what that named and what the
  -- user may rename, to a path where nothing was.
  pub data IsRenamed (user : FtpUser) (param : Bytes) (s s' : Session os) : Type 0 where
    unchanged : s'.disk ≡ s.disk → IsRenamed user param s s'
    renames :
        s.last_command ≡ codes "RNFR"
        → empty s.rename_from_path ≡ false
        → is_command_ok (check_if_path_is_renamable s.rename_from_path s) ≡ true
        → (file_status_of os s.disk (local user s param)).is_ok ≡ false
        → s'.disk
          ≡ (os.rename
              (c_str (local user s s.rename_from_path))
              (c_str (local user s param))
              s.disk).1
        → IsRenamed user param s s'
