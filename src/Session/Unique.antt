-- ===== src/Session/Unique.antt =====
-- STOU: the file that it opens was not there.
use fineftp_server.Base.{
  ℕ, zero, suc, ◌+◌, ◌<◌, ◌≤◌, ◌≡◌, refl, Bool, true, false, not, some, arith, Bytes, if-cases,
  some-case,
}
use fineftp_server.Permission.{denies, file_write}
use fineftp_server.Users.{FtpUser}
use fineftp_server.Os.{Os, OpenMode, c_str}
use fineftp_server.FileStatus.{file_status_of}
use fineftp_server.Message.{FtpReplyCode}
use fineftp_server.Session.{
  Session, Env, is_open, send_ftp_message, to_local_path, status_of, accept_data_connection,
}
use fineftp_server.Session.Upload.{
  unique_name, max_attempts, opened_unique, store_unique, handle_stou,
}

module _ {os : Os} where
  -- The local path of the name that the random number makes.
  abbrev pub unique_path : FtpUser → ℕ → Session os → Bytes
  unique_path user n s = to_local_path user s.ftp_working_directory (unique_name n)

  abbrev pub unique_mode : Session os → OpenMode
  unique_mode s = record { app = false; binary = s.data_type_binary }

  -- The disk is as it was, or the first of the attempts, of those that are left, whose path was
  -- free is opened for writing.
  pub data IsUnique (attempts : ℕ) (draws : ℕ → ℕ) (user : FtpUser) (s s' : Session os)
      : Type 0 where
    unchanged : s'.disk ≡ s.disk → IsUnique attempts draws user s s'
    opens :
        (i : ℕ)
        → s.drawn ≤ i
        → i < s.drawn + attempts
        → (file_status_of os s.disk (unique_path user (draws i) s)).is_ok ≡ false
        → s'.disk ≡ (os.fstream (c_str (unique_path user (draws i) s)) (unique_mode s) s.disk).1
        → IsUnique attempts draws user s s'

  opened_unique-disk :
      (name path : Bytes) (mode : OpenMode) (s : Session os) (r : Bool × os.Disk)
      → (opened_unique name path mode s r).disk ≡ r.1
  unfolding opened_unique send_ftp_message accept_data_connection
  opened_unique-disk name path mode s (true, d) = refl
  opened_unique-disk name path mode s (false, d) = refl

  -- One number later.
  later :
      (attempts : ℕ) (draws : ℕ → ℕ) (user : FtpUser) (s s' : Session os)
      → IsUnique attempts draws user (record s { drawn = s.drawn + 1 }) s'
      → IsUnique (suc attempts) draws user s s'
  later attempts draws user s s' (unchanged e) = unchanged e
  later attempts draws user s s' (opens i low high free e) =
      opens i (omega (arith, low)) (omega (arith, high)) free e

  sends :
      (code : FtpReplyCode) (m : Bytes) (draws : ℕ → ℕ) (user : FtpUser) (s : Session os)
      → IsUnique max_attempts draws user s (send_ftp_message code m s)
  unfolding send_ftp_message
  sends code m draws user s = unchanged refl

  store_unique-IsUnique :
      (attempts : ℕ) (draws : ℕ → ℕ) (user : FtpUser) (s : Session os)
      → IsUnique attempts draws user s (store_unique attempts draws user s)
  unfolding store_unique status_of
  store_unique-IsUnique zero draws user s = unchanged (unfold send_ftp_message in refl)
  store_unique-IsUnique (suc attempts) draws user s =
      if-cases (IsUnique (suc attempts) draws user s)
        (file_status_of os s.disk (unique_path user (draws s.drawn) s)).is_ok _ _
        (λ e.
          later attempts draws user s _
            (store_unique-IsUnique attempts draws user (record s { drawn = s.drawn + 1 })))
        (λ free. opens s.drawn (omega arith) (omega arith) free (
          opened_unique-disk (unique_name (draws s.drawn)) (unique_path user (draws s.drawn) s)
            (unique_mode s) (record s { drawn = s.drawn + 1 })
            (os.fstream (c_str (unique_path user (draws s.drawn) s)) (unique_mode s) s.disk)))

  -- STOU overwrites nothing: for the user who is logged in it leaves the disk as it is, or opens
  -- the path of one of ten random names, where nothing was.
  pub handle_stou-IsUnique :
      (env : Env) (param : Bytes) (s : Session os) (user : FtpUser)
      → s.logged_in_user ≡ some user
      → IsUnique max_attempts env.draws user s (handle_stou env param s)
  unfolding handle_stou
  handle_stou-IsUnique env param s user e =
      some-case (IsUnique max_attempts env.draws user s) s.logged_in_user _ _ e (
        if-cases (IsUnique max_attempts env.draws user s) (denies user.permissions file_write) _ _
          (λ d. sends _ _ _ user s)
          (λ g.
            if-cases (IsUnique max_attempts env.draws user s) (not (is_open s.data_acceptor)) _ _
              (λ c. sends _ _ _ user s) (λ o. store_unique-IsUnique max_attempts env.draws user s)))
