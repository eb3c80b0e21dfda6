-- ===== src/Session/Info.antt =====
-- ftp_session.cpp: the commands that only answer.
use mathlib.Core.List.{map}
use fineftp_server.Base.{ℕ, ◌-◌, ◌&&◌, ◌++◌, Bytes, codes, bytes_eq, leb, if◌then◌else◌}
use fineftp_server.Message.FtpReplyCode.{
  syntax_error_unrecognized_command, command_not_implemented, name_system_type, command_ok,
  command_not_implemented_for_parameter,
}
use fineftp_server.Os.{Os}
use fineftp_server.Session.{Session, send_raw_ftp_message, send_ftp_message}

-- `std::toupper` in the "C" locale.
unfoldable pub to_upper : ℕ → ℕ
to_upper c = if leb b'a' c && leb c b'z' then c - 32 else c

-- The text of the answer to FEAT.
abbrev pub feature_list : Bytes
feature_list =
    codes "211- Feature List:\r\n"
    ++ codes " UTF8\r\n"
    ++ codes " SIZE\r\n"
    ++ codes " MDTM\r\n"
    ++ codes " LANG EN\r\n"
    ++ codes "211 END\r\n"

module _ {os : Os} where
  unfoldable pub handle_allo : Bytes → Session os → Session os
  handle_allo param s =
      send_ftp_message syntax_error_unrecognized_command (codes "Command not implemented") s

  unfoldable pub handle_rest : Bytes → Session os → Session os
  handle_rest param s = send_ftp_message command_not_implemented (codes "Command not implemented") s

  unfoldable pub handle_abor : Bytes → Session os → Session os
  handle_abor param s = send_ftp_message command_not_implemented (codes "Command not implemented") s

  unfoldable pub handle_site : Bytes → Session os → Session os
  handle_site param s =
      send_ftp_message syntax_error_unrecognized_command (codes "Command not implemented") s

  unfoldable pub handle_syst : Bytes → Session os → Session os
  handle_syst param s = send_ftp_message name_system_type (codes "UNIX") s

  unfoldable pub handle_stat : Bytes → Session os → Session os
  handle_stat param s = send_ftp_message command_not_implemented (codes "Command not implemented") s

  unfoldable pub handle_help : Bytes → Session os → Session os
  handle_help param s = send_ftp_message command_not_implemented (codes "Command not implemented") s

  unfoldable pub handle_noop : Bytes → Session os → Session os
  handle_noop param s = send_ftp_message command_ok (codes "OK") s

  unfoldable pub handle_feat : Bytes → Session os → Session os
  handle_feat param s = send_raw_ftp_message feature_list s

  unfoldable pub handle_opts : Bytes → Session os → Session os
  handle_opts param s =
      if bytes_eq (map to_upper param) (codes "UTF8 ON")
      then send_ftp_message command_ok (codes "OK") s
      else send_ftp_message command_not_implemented_for_parameter (codes "Unrecognized parameter") s
