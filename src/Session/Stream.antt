-- ===== src/Session/Stream.antt =====
-- ftp_session.cpp: the constructor, `start`, and `readFtpCommand`, which takes command lines from
-- the control connection. `input` is what the client sends and what is left of it; `envs` answers
-- for the n-th command. What `async_read_until` reports is the parameter `read_until`: the number of
-- bytes up to the end of the first "\r\n", or an error, when the client closes the connection first.
pub mod Laws
use fineftp_server.Base.{
  ℕ, zero, suc, ◌+◌, ◌-◌, Bool, true, false, Option, none, some, List, [], ◌∷◌, Bytes, codes, take,
  drop, if◌then◌else◌,
}
use fineftp_server.Message.FtpReplyCode.{service_ready_for_new_user}
use fineftp_server.Users.{UserDatabase}
use fineftp_server.CleanPath.{slash}
use fineftp_server.Os.{Os}
use fineftp_server.FileCache.{Files}
use fineftp_server.Session.{Session, Env, closed, send_ftp_message, close_data_acceptor}
use fineftp_server.Session.Dispatch.{handle_ftp_command}

module _ {os : Os} where
  -- The constructor, on the machine as it is.
  unfoldable pub new_session : Files → os.Disk → Session os
  new_session files disk = record {
    logged_in_user = none;
    last_command = [];
    rename_from_path = [];
    username_for_login = [];
    data_type_binary = false;
    shutdown_requested = false;
    ftp_working_directory = slash ∷ [];
    data_acceptor = closed;
    posted = [];
    accepting = [];
    reading = false;
    thrown = false;
    drawn = 0;
    files = files;
    disk = disk;
  }

  -- `start`: it waits for commands, and greets.
  unfoldable pub start : Session os → Session os
  start s =
      send_ftp_message service_ready_for_new_user (codes "Welcome to fineFTP Server")
        (record s { reading = true })

  -- The handler of `async_read_until` with an error: nothing is read any more.
  unfoldable pub read_failed : Session os → Session os
  read_failed s = close_data_acceptor (record s { reading = false })

module _ {os : Os} (db : UserDatabase) (envs : ℕ → Env) (read_until : Bytes → Option ℕ) where
  received : ℕ → Bytes → Session os → Option ℕ → Bytes × Session os
  unfolding read_failed
  received n input s none = (input, read_failed s)
  received n input s (some len) =
      (drop len input, handle_ftp_command db (envs n) (take (len - 2) input) s)

  -- The handler of `async_read_until`: what is left of the input, and the session.
  unfoldable pub read_ftp_command : ℕ → Bytes → Session os → Bytes × Session os
  unfolding received
  read_ftp_command n input s = received n input s (read_until input)

  -- The session, from its n-th command until it waits for no more; nothing if it runs on.
  unfoldable pub serve : ℕ → ℕ → Bytes → Session os → Option (Session os)
  unfolding read_ftp_command
  serve zero n input s = if s.reading then none else some s
  serve (suc fuel) n input s =
      let (input', s') = read_ftp_command n input s in
      let rest = serve fuel (n + 1) input' s' in if s.reading then rest else some s
