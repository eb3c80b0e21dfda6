-- ===== src/Session.antt =====
-- fineftp-server/src/ftp_session.{h,cpp}: the state of a session and the helpers that its command
-- handlers share. What is posted to the two strands is kept in order: `posted` are the replies handed
-- to the command strand, `accepting` the data connections that are waited for.
pub mod Access
pub mod Parameters
pub mod Upload
pub mod Download
pub mod Manage
pub mod Listing
pub mod Info
pub mod Dispatch
pub mod Demo
pub mod Paths
pub mod Nul
pub mod Effect
pub mod Replies
pub mod Sequences
pub mod Identity
pub mod Passive
pub mod Stream
pub mod Output
pub mod Rename
pub mod Quoting
pub mod Connection
pub mod Unique
pub mod Sender
pub mod Receiver
pub mod Wording
pub mod Disclosure
use mathlib.Core.List.{map}
use fineftp_server.Base.{
  ℕ, ◌-◌, Bool, true, false, not, ◌&&◌, Option, none, some, List, [], ◌∷◌, ◌++◌, Bytes, codes,
  bytes_eq, leb, ◌==◌, if◌then◌else◌,
}
use fineftp_server.Permission.{
  Permission, denies, permission_and, dir_list, dir_rename, file_rename,
}
use fineftp_server.Message.{FtpReplyCode, FtpMessage, str, value}
use fineftp_server.Message.FtpReplyCode.{
  command_ok, not_logged_in, action_not_taken, syntax_error_parameters, file_action_completed,
}
use fineftp_server.Users.{FtpUser, empty}
use fineftp_server.CleanPath.{slash, clean_path, clean_path_native}
use fineftp_server.Os.{Os, OpenMode}
use fineftp_server.FileStatus.{FileStatus, Tm, file_status_of, type, is_dir, can_open_dir}
use fineftp_server.FileCache.{ReadableFile, Files}

-- What happens with a data connection once it is there: the handlers that `sendDirectoryListing`,
-- `sendNameList`, `sendFile` and `receiveFile` give to `acceptDataConnection`.
pub data Transfer : Type 0 where
  sends_listing sends_names : List (Bytes × FileStatus) → Transfer
  sends_file : ℕ → ReadableFile → Transfer
  receives : Bytes → OpenMode → Transfer

-- `data_acceptor_`, after `open`, `bind` and `listen`.
pub data Acceptor : Type 0 where
  closed opened bound listening : Acceptor

unfoldable pub is_open : Acceptor → Bool
is_open closed = false
is_open _ = true

-- An address of asio: four bytes, or IPv6.
pub data Address : Type 0 where
  v4 : ℕ → ℕ → ℕ → ℕ → Address
  v6 : List ℕ → Address

-- What asio, the random generator and the C library answer while a command is handled.
pub record Env : Type 0 where
  pub local_endpoint : Option Address
  pub open_ok : Bool
  pub bind_ok : Bool
  pub listen_ok : Bool
  pub port : ℕ
  pub draws : ℕ → ℕ
  pub gmtime : ℕ → Tm

pub record Session (os : Os) : Type 0 where
  pub logged_in_user : Option FtpUser
  pub last_command : Bytes
  pub rename_from_path : Bytes
  pub username_for_login : Bytes
  pub data_type_binary : Bool
  pub shutdown_requested : Bool
  pub ftp_working_directory : Bytes
  pub data_acceptor : Acceptor
  pub posted : List Bytes
  pub accepting : List Transfer
  -- A command is being waited for.
  pub reading : Bool
  -- An exception left the handler.
  pub thrown : Bool
  -- How many random numbers were drawn.
  pub drawn : ℕ
  -- What the session shares with the others and with the rest of the machine.
  pub files : Files
  pub disk : os.Disk

-- `sendRawFtpMessage`: the text is posted to the command strand.
unfoldable pub send_raw_ftp_message : {os : Os} → Bytes → Session os → Session os
send_raw_ftp_message raw s = record s { posted = s.posted ++ raw ∷ [] }

unfoldable pub send_message : {os : Os} → FtpMessage → Session os → Session os
unfolding send_raw_ftp_message
send_message m s = send_raw_ftp_message (str m) s

unfoldable pub send_ftp_message : {os : Os} → FtpReplyCode → Bytes → Session os → Session os
unfolding send_message
send_ftp_message code message s = send_message (record { reply_code = code; message = message }) s

unfoldable pub close_data_acceptor : {os : Os} → Session os → Session os
unfolding is_open
close_data_acceptor s = if is_open s.data_acceptor then record s { data_acceptor = closed } else s

-- `acceptDataConnection`: the handler waits for a connection.
unfoldable pub accept_data_connection : {os : Os} → Transfer → Session os → Session os
accept_data_connection t s = record s { accepting = s.accepting ++ t ∷ [] }

unfoldable pub starts_with_slash : Bytes → Bool
starts_with_slash [] = false
starts_with_slash (c ∷ s) = c == slash

-- `toAbsoluteFtpPath`, over the working directory.
unfoldable pub to_absolute_ftp_path : Bytes → Bytes → Bytes
unfolding starts_with_slash
to_absolute_ftp_path working_directory path =
    if starts_with_slash path
    then clean_path path false slash
    else clean_path (working_directory ++ slash ∷ path) false slash

-- `toLocalPath`, for the user who is logged in.
unfoldable pub to_local_path : FtpUser → Bytes → Bytes → Bytes
to_local_path user working_directory path =
    clean_path_native (user.local_root_path ++ slash ∷ to_absolute_ftp_path working_directory path)

-- The body of `createQuotedFtpPath`: a quote is written twice.
unfoldable pub quote_body : Bytes → Bytes
quote_body [] = []
quote_body (c ∷ s) = if c == b'"' then c ∷ c ∷ quote_body s else c ∷ quote_body s

unfoldable pub create_quoted_ftp_path : Bytes → Bytes
unfolding quote_body
create_quoted_ftp_path path = b'"' ∷ (quote_body path ++ b'"' ∷ [])

-- `(permissions & required) != required`.
unfoldable pub lacks_some : Permission → Permission → Bool
unfolding permission_and
lacks_some permissions required = not (permission_and permissions required == required)

unfoldable pub required_to_rename : FileStatus → Permission
required_to_rename status = if is_dir (type status) then dir_rename else file_rename

abbrev pub reply : FtpReplyCode → Bytes → FtpMessage
reply code message = record { reply_code = code; message = message }

renamable : FtpUser → FileStatus → FtpMessage
unfolding lacks_some required_to_rename
renamable user status =
    if status.is_ok
    then (if lacks_some user.permissions (required_to_rename status)
        then reply action_not_taken (codes "Permission denied")
        else reply command_ok [])
    else reply action_not_taken (codes "File does not exist")

module _ {os : Os} where
  unfoldable pub status_of : FtpUser → Bytes → Session os → FileStatus
  status_of user path s = file_status_of os s.disk (to_local_path user s.ftp_working_directory path)

  unfoldable pub check_if_path_is_renamable : Bytes → Session os → FtpMessage
  unfolding status_of renamable
  check_if_path_is_renamable path s = elim s.logged_in_user [
    | none ↦ reply not_logged_in (codes "Not logged in")
    | some user ↦
        if empty path
        then reply syntax_error_parameters (codes "Empty path")
        else renamable user (status_of user path s)
  ]

  -- The end of `executeCWD`, for the new working directory.
  enter_directory : FtpUser → Bytes → Session os → FtpMessage × Session os
  unfolding status_of
  enter_directory user dir s =
      let status = status_of user dir s in
      if not status.is_ok
      then (
        reply action_not_taken (
            codes
              "Failed ot change directory: The given resource does not exist or permission denied."),
        s,
      )
      else if not (is_dir (type status))
      then (
        reply action_not_taken
            (codes "Failed ot change directory: The given resource is not a directory."),
        s,
      )
      else if not (can_open_dir os s.disk status)
      then (reply action_not_taken (codes "Failed ot change directory: Permission denied."), s)
      else (
        reply file_action_completed (codes "Working directory changed to " ++ dir),
        record s { ftp_working_directory = dir },
      )

  -- `executeCWD`: it makes the path absolute as `toAbsoluteFtpPath` does. The reply, and the session with its new working directory.
  unfoldable pub execute_cwd : Bytes → Session os → FtpMessage × Session os
  unfolding enter_directory
  execute_cwd param s = elim s.logged_in_user [
    | none ↦ (reply not_logged_in (codes "Not logged in"), s)
    | some user ↦
        if denies user.permissions dir_list
        then (reply action_not_taken (codes "Permission denied"), s)
        else if empty param
        then (reply syntax_error_parameters (codes "No path given"), s)
        else enter_directory user (to_absolute_ftp_path s.ftp_working_directory param) s
  ]
