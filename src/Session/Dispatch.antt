-- ===== src/Session/Dispatch.antt =====
-- ftp_session.cpp: `handleFtpCommand`, which takes a command line apart and calls its handler.
use mathlib.Core.List.{map}
use fineftp_server.Base.{
  ℕ, Bool, true, false, ◌||◌, Option, none, some, List, [], ◌∷◌, Bytes, codes, ◌==◌, if◌then◌else◌,
}
use fineftp_server.Message.FtpReplyCode.{syntax_error_unrecognized_command}
use fineftp_server.Users.{UserDatabase, find}
use fineftp_server.CleanPath.{break_at}
use fineftp_server.Os.{Os}
use fineftp_server.Session.{Session, Env, send_ftp_message}
use fineftp_server.Session.Access.{
  handle_user, handle_pass, handle_acct, handle_cwd, handle_cdup, handle_rein, handle_quit,
}
use fineftp_server.Session.Parameters.{
  handle_port, handle_pasv, handle_type, handle_stru, handle_mode,
}
use fineftp_server.Session.Upload.{handle_stor, handle_stou, handle_appe}
use fineftp_server.Session.Download.{handle_retr, handle_size, handle_mdtm}
use fineftp_server.Session.Manage.{
  handle_rnfr, handle_rnto, handle_dele, handle_rmd, handle_mkd, handle_pwd,
}
use fineftp_server.Session.Listing.{handle_list, handle_nlst}
use fineftp_server.Session.Info.{
  to_upper, handle_allo, handle_rest, handle_abor, handle_site, handle_syst, handle_stat,
  handle_help, handle_noop, handle_feat, handle_opts,
}

abbrev pub is_space : ℕ → Bool
is_space c = c == b' '

-- `substr` up to the first space, in upper case.
unfoldable pub command_word : Bytes → Bytes
unfolding to_upper break_at
command_word line = map to_upper (break_at is_space line).0

-- `substr` behind the first space; nothing if there is none.
unfoldable pub rest_or_empty : Option Bytes → Bytes
rest_or_empty none = []
rest_or_empty (some rest) = rest

unfoldable pub parameters : Bytes → Bytes
unfolding break_at rest_or_empty
parameters line = rest_or_empty (break_at is_space line).1

abbrev pub Handler : Os → Type 0
Handler os = Bytes → Session os → Session os

module _ {os : Os} where
  -- An exception leaves the handler and all that would follow it.
  unfoldable pub finish : Bytes → Session os → Session os
  finish word s = if s.thrown then s else record s { last_command = word }

  unfoldable pub call : Bytes → Bytes → Option (Handler os) → Session os → Session os
  unfolding finish
  call word param none s =
      send_ftp_message syntax_error_unrecognized_command (codes "Unrecognized command") s
  call word param (some handler) s = finish word (handler param s)

  -- `readFtpCommand`, unless the session ends.
  unfoldable pub await_next : Session os → Session os
  await_next s = if s.thrown || s.shutdown_requested then s else record s { reading = true }

module _ {os : Os} (db : UserDatabase) (env : Env) where
  unfoldable pub command_map : List (Bytes × Handler os)
  command_map =
      (codes "USER", handle_user)
      ∷ (codes "PASS", handle_pass db)
      ∷ (codes "ACCT", handle_acct)
      ∷ (codes "CWD", handle_cwd)
      ∷ (codes "CDUP", handle_cdup)
      ∷ (codes "REIN", handle_rein)
      ∷ (codes "QUIT", handle_quit)
      ∷ (codes "PORT", handle_port)
      ∷ (codes "PASV", handle_pasv env)
      ∷ (codes "TYPE", handle_type)
      ∷ (codes "STRU", handle_stru)
      ∷ (codes "MODE", handle_mode)
      ∷ (codes "RETR", handle_retr)
      ∷ (codes "STOR", handle_stor)
      ∷ (codes "STOU", handle_stou env)
      ∷ (codes "APPE", handle_appe)
      ∷ (codes "ALLO", handle_allo)
      ∷ (codes "REST", handle_rest)
      ∷ (codes "RNFR", handle_rnfr)
      ∷ (codes "RNTO", handle_rnto)
      ∷ (codes "ABOR", handle_abor)
      ∷ (codes "DELE", handle_dele)
      ∷ (codes "RMD", handle_rmd)
      ∷ (codes "MKD", handle_mkd)
      ∷ (codes "PWD", handle_pwd)
      ∷ (codes "LIST", handle_list)
      ∷ (codes "NLST", handle_nlst)
      ∷ (codes "SITE", handle_site)
      ∷ (codes "SYST", handle_syst)
      ∷ (codes "STAT", handle_stat)
      ∷ (codes "HELP", handle_help)
      ∷ (codes "NOOP", handle_noop)
      ∷ (codes "FEAT", handle_feat)
      ∷ (codes "OPTS", handle_opts)
      ∷ (codes "SIZE", handle_size)
      ∷ (codes "MDTM", handle_mdtm env)
      ∷ []

  unfoldable pub handle_ftp_command : Bytes → Session os → Session os
  unfolding command_map call await_next
  handle_ftp_command line s = await_next (
      call (command_word line) (parameters line) (find (command_word line) command_map)
        (record s { reading = false }))
