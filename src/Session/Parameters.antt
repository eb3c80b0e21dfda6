-- ===== src/Session/Parameters.antt =====
-- ftp_session.cpp, the transfer parameter commands.
use fineftp_server.Base.{
  ℕ, ◌/◌, ◌%◌, ◌^◌, true, false, none, some, ◌++◌, Bytes, codes, bytes_eq, to_string, if◌then◌else◌,
}
use fineftp_server.Message.FtpReplyCode.{
  not_logged_in, syntax_error_unrecognized_command, service_not_available, entering_passive_mode,
  command_ok, command_not_implemented_for_parameter,
}
use fineftp_server.Os.{Os}
use fineftp_server.Session.{
  Session, Env, Address, v4, v6, opened, bound, listening, is_open, send_ftp_message,
  close_data_acceptor,
}

-- `(port >> 8) & 0xff` and `port & 0xff`.
unfoldable pub passive_text : ℕ → ℕ → ℕ → ℕ → ℕ → Bytes
passive_text a b c d port =
    codes "("
    ++ to_string a
    ++ codes ","
    ++ to_string b
    ++ codes ","
    ++ to_string c
    ++ codes ","
    ++ to_string d
    ++ codes ","
    ++ to_string (port / 2 ^ 8 % 2 ^ 8)
    ++ codes ","
    ++ to_string (port % 2 ^ 8)
    ++ codes ")"

module _ {os : Os} where
  unfoldable pub handle_port : Bytes → Session os → Session os
  handle_port param s =
      send_ftp_message syntax_error_unrecognized_command
        (codes "FTP active mode is not supported by this server") s

  unfoldable pub passive_failed : Session os → Session os
  passive_failed s =
      send_ftp_message service_not_available (codes "Failed to enter passive mode.") s

  -- `to_v4` throws on an IPv6 address, and nothing catches it.
  unfoldable pub passive_reply : Address → ℕ → Session os → Session os
  passive_reply (v4 a b c d) port s =
      send_ftp_message entering_passive_mode
        (codes "Entering passive mode " ++ passive_text a b c d port) s
  passive_reply (v6 bytes) port s = record s { thrown = true }

  -- `open`, `bind` and `listen` leave the acceptor as far as they came.
  unfoldable pub start_listening : Env → Address → Session os → Session os
  unfolding passive_failed passive_reply
  start_listening env address s =
      if env.open_ok
      then (if env.bind_ok
          then (if env.listen_ok
              then passive_reply address env.port (record s { data_acceptor = listening })
              else passive_failed (record s { data_acceptor = bound }))
          else passive_failed (record s { data_acceptor = opened }))
      else passive_failed s

  unfoldable pub handle_pasv : Env → Bytes → Session os → Session os
  unfolding start_listening
  handle_pasv env param s = elim s.logged_in_user [
    | none ↦ send_ftp_message not_logged_in (codes "Not logged in") s
    | some user ↦
        let s' = if is_open s.data_acceptor then close_data_acceptor s else s in
        elim env.local_endpoint [
          | none ↦ passive_failed s'
          | some address ↦ start_listening env address s'
        ]
  ]

  unfoldable pub handle_type : Bytes → Session os → Session os
  handle_type param s = elim s.logged_in_user [
    | none ↦ send_ftp_message not_logged_in (codes "Not logged in") s
    | some user ↦
        if bytes_eq param (codes "A")
        then send_ftp_message command_ok (codes "Switching to ASCII mode")
            (record s { data_type_binary = false })
        else if bytes_eq param (codes "I")
        then send_ftp_message command_ok (codes "Switching to binary mode")
            (record s { data_type_binary = true })
        else send_ftp_message command_not_implemented_for_parameter
            (codes "Unknown or unsupported type") s
  ]

  unfoldable pub handle_stru : Bytes → Session os → Session os
  handle_stru param s =
      send_ftp_message syntax_error_unrecognized_command (codes "Unsupported command") s

  unfoldable pub handle_mode : Bytes → Session os → Session os
  handle_mode param s =
      send_ftp_message syntax_error_unrecognized_command (codes "Unsupported command") s
