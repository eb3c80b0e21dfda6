-- ===== src/Session/Upload.antt =====
-- ftp_session.cpp: STOR, STOU and APPE.
use fineftp_server.Base.{
  ℕ, zero, suc, ◌+◌, Bool, true, false, not, ◌&&◌, none, some, ◌++◌, Bytes, codes, to_hex, set_w,
  if◌then◌else◌,
}
use fineftp_server.Permission.{denies, file_write, file_append, file_delete}
use fineftp_server.Message.FtpReplyCode.{
  not_logged_in, action_not_taken, error_opening_data_connection,
  action_not_taken_filename_not_allowed, action_aborted_local_error,
  file_status_ok_opening_data_connection, data_connection_open_transfer_starting,
}
use fineftp_server.Users.{FtpUser}
use fineftp_server.Os.{Os, OpenMode, c_str}
use fineftp_server.FileStatus.{type, is_dir, is_regular_file}
use fineftp_server.Session.{
  Session, Env, receives, is_open, send_ftp_message, accept_data_connection, to_local_path,
  status_of,
}

-- `"FILE_" << std::hex << std::setw(8) << std::setfill('0') << n`.
unfoldable pub unique_name : ℕ → Bytes
unique_name n = codes "FILE_" ++ set_w 8 b'0' (to_hex n)

abbrev pub max_attempts : ℕ
max_attempts = 10

module _ {os : Os} where
  unfoldable pub opened_write : Bytes → OpenMode → Bytes → Session os → Bool × os.Disk → Session os
  opened_write path mode announce s (true, disk) =
      accept_data_connection (receives path mode) (
        send_ftp_message file_status_ok_opening_data_connection announce (record s { disk = disk }))
  opened_write path mode announce s (false, disk) =
      send_ftp_message action_aborted_local_error (codes "Error opening file for transfer")
        (record s { disk = disk })

  -- Opening the file, and `receiveFile`.
  unfoldable pub open_and_receive : Bytes → OpenMode → Session os → Session os
  unfolding opened_write
  open_and_receive path mode s =
      opened_write path mode (codes "Receiving file") s (os.fstream (c_str path) mode s.disk)

  -- STOR behind its permission: the checks on what is there already.
  unfoldable pub store : FtpUser → Bytes → Session os → Session os
  unfolding open_and_receive status_of
  store user param s =
      let status = status_of user param s in
      let path = to_local_path user s.ftp_working_directory param in
      if status.is_ok && (is_regular_file (type status) && denies user.permissions file_delete)
      then send_ftp_message action_not_taken_filename_not_allowed
          (codes "File already exists. Permission denied to overwrite file.") s
      else if status.is_ok && is_dir (type status)
      then send_ftp_message action_not_taken_filename_not_allowed
          (codes "Cannot create file. A directory with that name already exists.") s
      else open_and_receive path (record { app = false; binary = s.data_type_binary }) s

  unfoldable pub handle_stor : Bytes → Session os → Session os
  unfolding store
  handle_stor param s = elim s.logged_in_user [
    | none ↦ send_ftp_message not_logged_in (codes "Not logged in") s
    | some user ↦
        if denies user.permissions file_write
        then send_ftp_message action_not_taken (codes "Permission denied") s
        else if not (is_open s.data_acceptor)
        then send_ftp_message error_opening_data_connection (codes "Error opening data connection")
            s
        else store user param s
  ]

  unfoldable pub opened_unique : Bytes → Bytes → OpenMode → Session os → Bool × os.Disk → Session os
  opened_unique name path mode s (true, disk) = accept_data_connection (receives path mode) (
      send_ftp_message data_connection_open_transfer_starting (codes "FILE: " ++ name)
        (record s { disk = disk }))
  opened_unique name path mode s (false, disk) =
      send_ftp_message action_aborted_local_error (codes "Error opening file for transfer")
        (record s { disk = disk })

  -- The loop of STOU, on the attempts that are left; each draws a number.
  unfoldable pub store_unique : ℕ → (ℕ → ℕ) → FtpUser → Session os → Session os
  unfolding opened_unique status_of
  store_unique zero draws user s =
      send_ftp_message action_aborted_local_error
        (codes "Failed to generate unique filename after multiple attempts") s
  store_unique (suc attempts) draws user s =
      let name = unique_name (draws s.drawn) in
      let s' = record s { drawn = s.drawn + 1 } in
      let path = to_local_path user s.ftp_working_directory name in
      let mode : OpenMode = record { app = false; binary = s.data_type_binary } in
      let again = store_unique attempts draws user s' in
      let found = opened_unique name path mode s' (os.fstream (c_str path) mode s.disk) in
      if (status_of user name s).is_ok then again else found

  unfoldable pub handle_stou : Env → Bytes → Session os → Session os
  unfolding store_unique
  handle_stou env param s = elim s.logged_in_user [
    | none ↦ send_ftp_message not_logged_in (codes "Not logged in") s
    | some user ↦
        if denies user.permissions file_write
        then send_ftp_message action_not_taken (codes "Permission denied") s
        else if not (is_open s.data_acceptor)
        then send_ftp_message error_opening_data_connection (codes "Error opening data connection")
            s
        else store_unique max_attempts env.draws user s
  ]

  -- APPE behind its permissions.
  unfoldable pub append_to : FtpUser → Bytes → Bool → Session os → Session os
  unfolding open_and_receive
  append_to user param exists s =
      if not (is_open s.data_acceptor)
      then send_ftp_message error_opening_data_connection (codes "Error opening data connection") s
      else open_and_receive (to_local_path user s.ftp_working_directory param)
          (record { app = exists; binary = s.data_type_binary }) s

  unfoldable pub handle_appe : Bytes → Session os → Session os
  unfolding append_to status_of
  handle_appe param s = elim s.logged_in_user [
    | none ↦ send_ftp_message not_logged_in (codes "Not logged in") s
    | some user ↦
        let status = status_of user param s in
        if status.is_ok
        then (if denies user.permissions file_append
            then send_ftp_message action_not_taken (codes "Permission denied") s
            else if not (is_regular_file (type status))
            then send_ftp_message action_not_taken (codes "Pathname is not a file") s
            else append_to user param true s)
        else (if denies user.permissions file_write
            then send_ftp_message action_not_taken (codes "Permission denied") s
            else append_to user param false s)
  ]
