-- ===== src/Session/Manage.antt =====
-- ftp_session.cpp: RNFR, RNTO, DELE, RMD, MKD and PWD, as the Unix build has them.
use fineftp_server.Base.{
  Bool, true, false, not, ◌||◌, none, some, [], ◌++◌, Bytes, codes, bytes_eq, ◌==◌, if◌then◌else◌,
}
use fineftp_server.Permission.{denies, file_delete, dir_delete, dir_create}
use fineftp_server.Message.{FtpReplyCode, FtpMessage, value}
use fineftp_server.Message.FtpReplyCode.{
  command_ok, not_logged_in, action_not_taken, commands_bad_sequence, syntax_error_parameters,
  file_action_needs_further_info, file_action_not_taken, file_action_completed, pathname_created,
}
use fineftp_server.Users.{FtpUser, empty}
use fineftp_server.Os.{Os, c_str}
use fineftp_server.FileStatus.{type, is_regular_file}
use fineftp_server.Session.{
  Session, send_message, send_ftp_message, to_absolute_ftp_path, to_local_path,
  create_quoted_ftp_path, check_if_path_is_renamable, status_of,
}

abbrev pub is_command_ok : FtpMessage → Bool
is_command_ok m = value m.reply_code == value command_ok

module _ {os : Os} where
  unfoldable pub handle_rnfr : Bytes → Session os → Session os
  handle_rnfr param s =
      let s' = record s { rename_from_path = [] } in
      let error = check_if_path_is_renamable param s' in
      if is_command_ok error
      then send_ftp_message file_action_needs_further_info (codes "Enter target name")
          (record s' { rename_from_path = param })
      else send_message error s'

  -- A system call that changes the disk, and the reply to its success or failure.
  unfoldable pub after_call :
      FtpReplyCode → Bytes → FtpReplyCode → Bytes → Session os → Bool × os.Disk → Session os
  after_call good done bad failed s (true, disk) =
      send_ftp_message good done (record s { disk = disk })
  after_call good done bad failed s (false, disk) =
      send_ftp_message bad failed (record s { disk = disk })

  unfoldable pub rename_to : FtpUser → Bytes → Session os → Session os
  unfolding after_call status_of
  rename_to user param s =
      let from = to_local_path user s.ftp_working_directory s.rename_from_path in
      let to = to_local_path user s.ftp_working_directory param in
      if (status_of user param s).is_ok
      then send_ftp_message file_action_not_taken (codes "Target path exists already.") s
      else after_call file_action_completed (codes "OK") file_action_not_taken
          (codes "Error renaming file") s (os.rename (c_str from) (c_str to) s.disk)

  unfoldable pub handle_rnto : Bytes → Session os → Session os
  unfolding rename_to
  handle_rnto param s = elim s.logged_in_user [
    | none ↦ send_ftp_message not_logged_in (codes "Not logged in") s
    | some user ↦
        let error = check_if_path_is_renamable s.rename_from_path s in
        if not (bytes_eq s.last_command (codes "RNFR")) || empty s.rename_from_path
        then send_ftp_message commands_bad_sequence (codes "Please specify target file first") s
        else if empty param
        then send_ftp_message syntax_error_parameters (codes "No target name given") s
        else if is_command_ok error
        then rename_to user param s
        else send_message error s
  ]

  unfoldable pub handle_dele : Bytes → Session os → Session os
  unfolding after_call status_of
  handle_dele param s = elim s.logged_in_user [
    | none ↦ send_ftp_message not_logged_in (codes "Not logged in") s
    | some user ↦
        let path = to_local_path user s.ftp_working_directory param in
        let status = status_of user param s in
        if not status.is_ok
        then send_ftp_message action_not_taken (codes "Resource does not exist") s
        else if not (is_regular_file (type status))
        then send_ftp_message action_not_taken (codes "Resource is not a file") s
        else if denies user.permissions file_delete
        then send_ftp_message action_not_taken (codes "Permission denied") s
        else after_call file_action_completed (codes "Successfully deleted file")
            file_action_not_taken (codes "Unable to delete file") s (os.unlink (c_str path) s.disk)
  ]

  unfoldable pub handle_rmd : Bytes → Session os → Session os
  unfolding after_call
  handle_rmd param s = elim s.logged_in_user [
    | none ↦ send_ftp_message not_logged_in (codes "Not logged in") s
    | some user ↦
        let path = to_local_path user s.ftp_working_directory param in
        if denies user.permissions dir_delete
        then send_ftp_message action_not_taken (codes "Permission denied") s
        else after_call file_action_completed (codes "Successfully removed directory")
            action_not_taken (codes "Unable to remove directory") s (os.rmdir (c_str path) s.disk)
  ]

  unfoldable pub handle_mkd : Bytes → Session os → Session os
  unfolding after_call
  handle_mkd param s = elim s.logged_in_user [
    | none ↦ send_ftp_message not_logged_in (codes "Not logged in") s
    | some user ↦
        let path = to_local_path user s.ftp_working_directory param in
        let quoted = create_quoted_ftp_path (to_absolute_ftp_path s.ftp_working_directory param) in
        if denies user.permissions dir_create
        then send_ftp_message action_not_taken (codes "Permission denied") s
        else after_call pathname_created (quoted ++ codes " Successfully created") action_not_taken
            (codes "Unable to create directory") s (os.mkdir (c_str path) 0o755 s.disk)
  ]

  unfoldable pub handle_pwd : Bytes → Session os → Session os
  handle_pwd param s = elim s.logged_in_user [
    | none ↦ send_ftp_message action_not_taken (codes "Not logged in") s
    | some user ↦
        send_ftp_message pathname_created (create_quoted_ftp_path s.ftp_working_directory) s
  ]
