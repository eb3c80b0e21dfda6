-- ===== src/Server/System.antt =====
-- The server as a whole: the sessions that `FtpServerImpl::acceptFtpSession` starts share the user
-- database, the map of files and the disk, and their commands come in any order. Each step is one
-- handler as a whole: that the disk changes under a handler while it runs is left out.
pub mod Laws
pub mod Quiet
pub mod Wording
use fineftp_server.Base.{ℕ, ◌≡◌, true, Option, none, some, Bytes}
use fineftp_server.Users.{UserDatabase}
use fineftp_server.Os.{Os}
use fineftp_server.FileCache.{Files, update}
use fineftp_server.Session.{Session, Env}
use fineftp_server.Session.Dispatch.{handle_ftp_command}
use fineftp_server.FileStatus.{Tm}
use fineftp_server.Session.Connection.{Accepted}
use fineftp_server.Session.Connection.Transfers.{Work, accept_next, conclude, file_sent}
use fineftp_server.Session.Stream.{new_session, start, read_failed}

pub record System (os : Os) : Type 0 where
  -- By the order in which they are accepted.
  pub sessions : ℕ → Option (Session os)
  pub files : Files
  pub disk : os.Disk

module _ {os : Os} where
  abbrev pub new_system : Files → os.Disk → System os
  new_system files disk = record { sessions = λ i. none; files = files; disk = disk }

  -- A session finds the machine as the others left it.
  abbrev pub resume : System os → Session os → Session os
  resume y s = record s { files = y.files; disk = y.disk }

  abbrev pub put_session : ℕ → Session os → System os → System os
  put_session i s y = record {
    sessions = update y.sessions i (some s);
    files = s.files;
    disk = s.disk;
  }

  -- The part of `acceptFtpSession` for the session that was accepted.
  unfoldable pub start_session : ℕ → System os → System os
  start_session i y = put_session i (start (new_session y.files y.disk)) y

  unfoldable pub run_command : UserDatabase → ℕ → Env → Bytes → Session os → System os → System os
  run_command db i env line s y = put_session i (handle_ftp_command db env line (resume y s)) y

  -- A connection comes in, or fails, for the transfer that has waited longest.
  unfoldable pub run_accepted :
      (ℕ → Tm) → ℕ → Accepted → Session os → System os → Option (Work × Session os)
  run_accepted gmtime current_year result s y = accept_next gmtime current_year result (resume y s)

  -- A transfer ends without an error, or the write of a file with one.
  unfoldable pub run_concluded : ℕ → Work → Session os → System os → System os
  run_concluded i work s y = put_session i (conclude work (resume y s)) y

  unfoldable pub run_file_sent : ℕ → Bytes → Session os → System os → System os
  run_file_sent i message s y = put_session i (file_sent (some message) (resume y s)) y

  unfoldable pub run_read_failed : ℕ → Session os → System os → System os
  run_read_failed i s y = put_session i (read_failed (resume y s)) y

  -- The last pointer to the session is dropped.
  unfoldable pub drop_session : ℕ → System os → System os
  drop_session i y = record y { sessions = update y.sessions i none }

  pub data SystemStep (db : UserDatabase) (y : System os) : System os → Type 0 where
    accepts : (i : ℕ) → y.sessions i ≡ none → SystemStep db y (start_session i y)
    commands :
        (i : ℕ) (s : Session os) (env : Env) (line : Bytes)
        → y.sessions i ≡ some s
        → s.reading ≡ true
        → SystemStep db y (run_command db i env line s y)
    connects :
        (i : ℕ) (s s' : Session os) (gmtime : ℕ → Tm) (current_year : ℕ) (result : Accepted)
        (work : Work)
        → y.sessions i ≡ some s
        → run_accepted gmtime current_year result s y ≡ some (work, s')
        → SystemStep db y (put_session i s' y)
    concludes :
        (i : ℕ) (s : Session os) (work : Work)
        → y.sessions i ≡ some s
        → SystemStep db y (run_concluded i work s y)
    fails :
        (i : ℕ) (s : Session os) (message : Bytes)
        → y.sessions i ≡ some s
        → SystemStep db y (run_file_sent i message s y)
    hangs_up :
        (i : ℕ) (s : Session os)
        → y.sessions i ≡ some s
        → s.reading ≡ true
        → SystemStep db y (run_read_failed i s y)
    ends : (i : ℕ) → SystemStep db y (drop_session i y)
    -- A file that is no longer sent leaves the map of files.
    releases : (files : Files) → SystemStep db y (record y { files = files })

  pub data SystemRun (db : UserDatabase) : System os → System os → Type 0 where
    stays : {y : System os} → SystemRun db y y
    steps : {x y z : System os} → SystemRun db x y → SystemStep db y z → SystemRun db x z
