-- ===== src/Windows/Rename.antt =====
-- ftp_session.cpp: `checkIfPathIsRenamable`, RNFR and RNTO of the Windows build.
use fineftp_server.Base.{not, ◌||◌, none, some, [], Bytes, codes, bytes_eq, if◌then◌else◌}
use fineftp_server.Permission.{Permission, dir_rename, file_rename}
use fineftp_server.Message.{FtpMessage}
use fineftp_server.Message.FtpReplyCode.{
  command_ok, not_logged_in, action_not_taken, commands_bad_sequence, syntax_error_parameters,
  file_action_needs_further_info,
}
use fineftp_server.Users.{FtpUser, empty}
use fineftp_server.Os.{Os}
use fineftp_server.FileStatus.{FileStatus, is_dir}
use fineftp_server.Session.{Session, send_message, send_ftp_message, lacks_some, reply}
use fineftp_server.Session.Manage.{is_command_ok}
use fineftp_server.Windows.Status.{Machine, type}
use fineftp_server.Windows.Manage.{status_of, rename_to}

unfoldable pub required_to_rename : FileStatus → Permission
required_to_rename status = if is_dir (type status) then dir_rename else file_rename

unfoldable pub renamable : FtpUser → FileStatus → FtpMessage
unfolding required_to_rename
renamable user status =
    if status.is_ok
    then (if lacks_some user.permissions (required_to_rename status)
        then reply action_not_taken (codes "Permission denied")
        else reply command_ok [])
    else reply action_not_taken (codes "File does not exist")

module _ {os : Os} (m : Machine os) where
  unfoldable pub check_if_path_is_renamable : Bytes → Session os → FtpMessage
  unfolding renamable
  check_if_path_is_renamable path s = elim s.logged_in_user [
    | none ↦ reply not_logged_in (codes "Not logged in")
    | some user ↦
        if empty path
        then reply syntax_error_parameters (codes "Empty path")
        else renamable user (status_of m user path s)
  ]

  unfoldable pub handle_rnfr : Bytes → Session os → Session os
  handle_rnfr param s =
      let s' = record s { rename_from_path = [] } in
      let error = check_if_path_is_renamable param s' in
      if is_command_ok error
      then send_ftp_message file_action_needs_further_info (codes "Enter target name")
          (record s' { rename_from_path = param })
      else send_message error s'

  unfoldable pub handle_rnto : Bytes → Session os → Session os
  handle_rnto param s = elim s.logged_in_user [
    | none ↦ send_ftp_message not_logged_in (codes "Not logged in") s
    | some user ↦
        let error = check_if_path_is_renamable s.rename_from_path s in
        if not (bytes_eq s.last_command (codes "RNFR")) || empty s.rename_from_path
        then send_ftp_message commands_bad_sequence (codes "Please specify target file first") s
        else if empty param
        then send_ftp_message syntax_error_parameters (codes "No target name given") s
        else if is_command_ok error
        then rename_to m user param s
        else send_message error s
  ]
