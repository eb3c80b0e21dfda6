-- ===== src/Session/Download.antt =====
-- ftp_session.cpp: RETR, SIZE and MDTM.
use fineftp_server.Base.{
  ℕ, not, ◌||◌, Option, none, some, ◌++◌, Bytes, codes, to_string, if◌then◌else◌,
}
use fineftp_server.Permission.{denies, permission_or, file_read, dir_list}
use fineftp_server.Message.FtpReplyCode.{
  not_logged_in, action_not_taken, error_opening_data_connection, action_aborted_local_error,
  file_status_ok_opening_data_connection, file_status, syntax_error_parameters,
}
use fineftp_server.Users.{empty}
use fineftp_server.Os.{Os, c_str}
use fineftp_server.FileStatus.{type, is_regular_file, generalized_time_string}
use fineftp_server.FileCache.{ReadableFile, Files, get}
use fineftp_server.Session.{
  Session, Env, sends_file, is_open, send_ftp_message, accept_data_connection, to_local_path,
  status_of,
}

module _ {os : Os} where
  -- `sendFile` on what `ReadableFile::get` returned.
  unfoldable pub retrieved : Session os → Option (ℕ × ReadableFile) × Files → Session os
  retrieved s (none, files) =
      send_ftp_message action_aborted_local_error (codes "Error opening file for transfer")
        (record s { files = files })
  retrieved s (some (i, file), files) = accept_data_connection (sends_file i file) (
      send_ftp_message file_status_ok_opening_data_connection (codes "Sending file")
        (record s { files = files }))

  unfoldable pub handle_retr : Bytes → Session os → Session os
  unfolding retrieved
  handle_retr param s = elim s.logged_in_user [
    | none ↦ send_ftp_message not_logged_in (codes "Not logged in") s
    | some user ↦
        if denies user.permissions file_read
        then send_ftp_message action_not_taken (codes "Permission denied") s
        else if not (is_open s.data_acceptor)
        then send_ftp_message error_opening_data_connection (codes "Error opening data connection")
            s
        else retrieved s (get os s.disk (to_local_path user s.ftp_working_directory param) s.files)
  ]

  unfoldable pub size_reply : Option (Option ℕ) → Session os → Session os
  size_reply none s =
      send_ftp_message action_aborted_local_error (codes "Error opening file for size retrieval") s
  size_reply (some none) s =
      send_ftp_message action_aborted_local_error (codes "Error getting file size") s
  size_reply (some (some size)) s = send_ftp_message file_status (to_string size) s

  unfoldable pub handle_size : Bytes → Session os → Session os
  unfolding size_reply
  handle_size param s = elim s.logged_in_user [
    | none ↦ send_ftp_message not_logged_in (codes "Not logged in") s
    | some user ↦
        if denies user.permissions (permission_or file_read dir_list)
        then send_ftp_message action_not_taken (codes "Permission denied") s
        else size_reply (os.tellg s.disk (c_str (to_local_path user s.ftp_working_directory param)))
            s
  ]

  unfoldable pub handle_mdtm : Env → Bytes → Session os → Session os
  unfolding status_of
  handle_mdtm env param s = elim s.logged_in_user [
    | none ↦ send_ftp_message not_logged_in (codes "Not logged in") s
    | some user ↦
        let status = status_of user param s in
        if denies user.permissions (permission_or file_read dir_list)
        then send_ftp_message action_not_taken (codes "Permission denied") s
        else if empty param
        then send_ftp_message syntax_error_parameters (codes "No file path given") s
        else if not status.is_ok || not (is_regular_file (type status))
        then send_ftp_message action_not_taken
            (to_local_path user s.ftp_working_directory param ++ codes " is not retrievable") s
        else send_ftp_message file_status (generalized_time_string env.gmtime status) s
  ]
