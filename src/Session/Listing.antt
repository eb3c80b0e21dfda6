-- ===== src/Session/Listing.antt =====
-- ftp_session.cpp: LIST and NLST.
use fineftp_server.Base.{
  ◌&&◌, ◌||◌, not, none, some, List, [], Bytes, codes, bytes_eq, take, drop, length, ltb,
  if◌then◌else◌,
}
use fineftp_server.Permission.{denies, dir_list}
use fineftp_server.Message.FtpReplyCode.{
  not_logged_in, file_action_not_taken, file_status_ok_opening_data_connection,
}
use fineftp_server.Users.{FtpUser}
use fineftp_server.Os.{Os}
use fineftp_server.FileStatus.{FileStatus, type, is_dir, can_open_dir, dir_content}
use fineftp_server.Session.{
  Session, Transfer, sends_listing, sends_names, send_ftp_message, accept_data_connection,
  to_local_path, status_of,
}

-- The options that some clients send, as they would to `ls`, are dropped.
unfoldable pub list_path : Bytes → Bytes
list_path param =
    if bytes_eq param (codes "-a")
      || bytes_eq param (codes "-l")
      || bytes_eq param (codes "-al")
      || bytes_eq param (codes "-la")
    then []
    else if (bytes_eq (take 3 param) (codes "-a ") || bytes_eq (take 3 param) (codes "-l "))
        && ltb 3 (length param)
    then drop 3 param
    else if (bytes_eq (take 4 param) (codes "-al ") || bytes_eq (take 4 param) (codes "-la "))
        && ltb 4 (length param)
    then drop 4 param
    else param

module _ {os : Os} where
  -- What LIST and NLST do alike: the checks on the directory, and its content.
  unfoldable pub list_directory :
      (List (Bytes × FileStatus) → Transfer) → Bytes → FtpUser → Bytes → Session os → Session os
  unfolding status_of
  list_directory transfer announce user param s =
      let path = to_local_path user s.ftp_working_directory param in
      let status = status_of user param s in
      if not status.is_ok
      then send_ftp_message file_action_not_taken (codes "Path does not exist") s
      else if not (is_dir (type status))
      then send_ftp_message file_action_not_taken (codes "Path is not a directory") s
      else if not (can_open_dir os s.disk status)
      then send_ftp_message file_action_not_taken (codes "Permission denied") s
      else accept_data_connection (transfer (dir_content os s.disk path))
          (send_ftp_message file_status_ok_opening_data_connection announce s)

  unfoldable pub handle_list : Bytes → Session os → Session os
  unfolding list_directory
  handle_list param s = elim s.logged_in_user [
    | none ↦ send_ftp_message not_logged_in (codes "Not logged in") s
    | some user ↦
        if denies user.permissions dir_list
        then send_ftp_message file_action_not_taken (codes "Permission denied") s
        else list_directory sends_listing (codes "Sending directory listing") user (list_path param)
            s
  ]

  unfoldable pub handle_nlst : Bytes → Session os → Session os
  unfolding list_directory
  handle_nlst param s = elim s.logged_in_user [
    | none ↦ send_ftp_message not_logged_in (codes "Not logged in") s
    | some user ↦
        if denies user.permissions dir_list
        then send_ftp_message file_action_not_taken (codes "Permission denied") s
        else list_directory sends_names (codes "Sending name list") user param s
  ]
