-- ===== src/Windows/Manage.antt =====
-- ftp_session.cpp: RNTO, DELE, RMD and MKD of the Windows build.
pub mod Escape
pub mod Wording
use fineftp_server.Base.{
  Bool, true, false, not, ◌||◌, none, some, ◌++◌, Bytes, codes, bytes_eq, if◌then◌else◌,
}
use fineftp_server.Permission.{denies, file_delete, dir_delete, dir_create}
use fineftp_server.Message.{FtpReplyCode}
use fineftp_server.Message.FtpReplyCode.{
  not_logged_in, action_not_taken, file_action_not_taken, file_action_completed, pathname_created,
}
use fineftp_server.Users.{FtpUser}
use fineftp_server.Os.{Os}
use fineftp_server.FileStatus.{FileStatus, is_regular_file}
use fineftp_server.Session.{Session, send_ftp_message, to_absolute_ftp_path, create_quoted_ftp_path}
use fineftp_server.Windows.Paths.{to_local_path}
use fineftp_server.Windows.Status.{Machine, get_last_error_str, wide_path, file_status_of, type}

module _ {os : Os} (m : Machine os) where
  -- A call that changes the disk; the reply to its failure ends in the text of the error.
  unfoldable pub after_call :
      FtpReplyCode → Bytes → FtpReplyCode → Bytes → Session os → Bool × os.Disk → Session os
  unfolding get_last_error_str
  after_call good done bad failed s (true, disk) =
      send_ftp_message good done (record s { disk = disk })
  after_call good done bad failed s (false, disk) =
      send_ftp_message bad (failed ++ get_last_error_str m disk) (record s { disk = disk })

  unfoldable pub status_of : FtpUser → Bytes → Session os → FileStatus
  status_of user path s = file_status_of m s.disk (to_local_path user s.ftp_working_directory path)

  unfoldable pub rename_to : FtpUser → Bytes → Session os → Session os
  unfolding after_call status_of
  rename_to user param s =
      let from = to_local_path user s.ftp_working_directory s.rename_from_path in
      let to = to_local_path user s.ftp_working_directory param in
      if (status_of user param s).is_ok
      then send_ftp_message file_action_not_taken (codes "Target path exists already.") s
      else after_call file_action_completed (codes "OK") file_action_not_taken
          (codes "Error renaming file: ") s (m.move_file (wide_path m from) (wide_path m to) s.disk)

  unfoldable pub handle_dele : Bytes → Session os → Session os
  unfolding after_call status_of
  handle_dele param s = elim s.logged_in_user [
    | none ↦ send_ftp_message not_logged_in (codes "Not logged in") s
    | some user ↦
        let path = to_local_path user s.ftp_working_directory param in
        let status = status_of user param s in
        if not status.is_ok
        then send_ftp_message action_not_taken (codes "Resource does not exist") s
        else if not (is_regular_file (type status))
        then send_ftp_message action_not_taken (codes "Resource is not a file") s
        else if denies user.permissions file_delete
        then send_ftp_message action_not_taken (codes "Permission denied") s
        else after_call file_action_completed (codes "Successfully deleted file")
            file_action_not_taken (codes "Unable to delete file: ") s
            (m.delete_file (wide_path m path) s.disk)
  ]

  unfoldable pub handle_rmd : Bytes → Session os → Session os
  unfolding after_call
  handle_rmd param s = elim s.logged_in_user [
    | none ↦ send_ftp_message not_logged_in (codes "Not logged in") s
    | some user ↦
        let path = to_local_path user s.ftp_working_directory param in
        if denies user.permissions dir_delete
        then send_ftp_message action_not_taken (codes "Permission denied") s
        else after_call file_action_completed (codes "Successfully removed directory")
            action_not_taken (codes "Unable to remove directory: ") s
            (m.remove_directory (wide_path m path) s.disk)
  ]

  unfoldable pub handle_mkd : Bytes → Session os → Session os
  unfolding after_call
  handle_mkd param s = elim s.logged_in_user [
    | none ↦ send_ftp_message not_logged_in (codes "Not logged in") s
    | some user ↦
        let path = to_local_path user s.ftp_working_directory param in
        let quoted = create_quoted_ftp_path (to_absolute_ftp_path s.ftp_working_directory param) in
        if denies user.permissions dir_create
        then send_ftp_message action_not_taken (codes "Permission denied") s
        else after_call pathname_created (quoted ++ codes " Successfully created") action_not_taken
            (codes "Unable to create directory: ") s (m.create_directory (wide_path m path) s.disk)
  ]
