-- ===== src/Session/Access.antt =====
-- ftp_session.cpp, the access control commands.
use fineftp_server.Base.{
  ◌||◌, not, true, Option, none, some, [], ◌∷◌, Bytes, codes, bytes_eq, ◌==◌, if◌then◌else◌,
}
use fineftp_server.Permission.{denies, dir_list}
use fineftp_server.Message.{FtpMessage, value}
use fineftp_server.Message.FtpReplyCode.{
  syntax_error_parameters, user_name_ok, commands_bad_sequence, user_logged_in, not_logged_in,
  syntax_error_unrecognized_command, action_not_taken, file_action_completed, command_ok,
  command_not_implemented, service_closing_control_connection,
}
use fineftp_server.Users.{FtpUser, UserDatabase, empty, get_user}
use fineftp_server.CleanPath.{slash}
use fineftp_server.Os.{Os}
use fineftp_server.Session.{Session, send_message, send_ftp_message, execute_cwd}

module _ {os : Os} where
  unfoldable pub handle_user : Bytes → Session os → Session os
  handle_user param s =
      let s' = record s {
        logged_in_user = none;
        username_for_login = param;
        ftp_working_directory = slash ∷ [];
      } in
      if empty param
      then send_ftp_message syntax_error_parameters (codes "Please provide username") s'
      else send_ftp_message user_name_ok (codes "Please enter password") s'

  unfoldable pub log_in : Option FtpUser → Session os → Session os
  log_in none s = send_ftp_message not_logged_in (codes "Failed to log in") s
  log_in (some user) s =
      send_ftp_message user_logged_in (codes "Login successful")
        (record s { logged_in_user = some user })

  unfoldable pub handle_pass : UserDatabase → Bytes → Session os → Session os
  unfolding log_in
  handle_pass db param s =
      if not (bytes_eq s.last_command (codes "USER")) || empty s.username_for_login
      then send_ftp_message commands_bad_sequence (codes "Please specify username first") s
      else log_in (get_user s.username_for_login param db) s

  unfoldable pub handle_acct : Bytes → Session os → Session os
  handle_acct param s =
      send_ftp_message syntax_error_unrecognized_command (codes "Unsupported command") s

  unfoldable pub handle_cwd : Bytes → Session os → Session os
  handle_cwd param s = let (m, s') = execute_cwd param s in send_message m s'

  -- CWD answers 250 on success, CDUP answers 200.
  unfoldable pub cdup_reply : FtpMessage → Session os → Session os
  cdup_reply m s =
      if value m.reply_code == value file_action_completed
      then send_ftp_message command_ok m.message s
      else send_message m s

  unfoldable pub handle_cdup : Bytes → Session os → Session os
  unfolding cdup_reply
  handle_cdup param s = elim s.logged_in_user [
    | none ↦ send_ftp_message not_logged_in (codes "Not logged in") s
    | some user ↦
        if denies user.permissions dir_list
        then send_ftp_message action_not_taken (codes "Permission denied") s
        else if not (bytes_eq s.ftp_working_directory (slash ∷ []))
        then (let (m, s') = execute_cwd (codes "..") s in cdup_reply m s')
        else send_ftp_message action_not_taken (codes "Already at root directory") s
  ]

  unfoldable pub handle_rein : Bytes → Session os → Session os
  handle_rein param s = send_ftp_message command_not_implemented (codes "Unsupported command") s

  unfoldable pub handle_quit : Bytes → Session os → Session os
  handle_quit param s =
      send_ftp_message service_closing_control_connection (codes "Connection shutting down")
        (record s { logged_in_user = none; shutdown_requested = true })
