-- ===== src/Session/Effect.antt =====
-- What a command may do to the disk, and what a session keeps to while it runs.
pub mod Quiet
pub mod Accounts
pub mod Changes
pub mod Uploads
pub mod Commands
pub mod Runs
use fineftp_server.Base.{ℕ, ◌≡◌, ◌≢◌, refl, ◌⊎◌, Bool, true, false, Option, none, some, Bytes}
use fineftp_server.Permission.{
  Permission, denies, file_write, file_append, file_delete, dir_delete, dir_create,
}
use fineftp_server.Users.{FtpUser}
use fineftp_server.Users.Laws.{IfUser}
use fineftp_server.CleanPath.Content.{IsRooted}
use fineftp_server.Os.{Os, OpenMode}
use fineftp_server.FileStatus.{
  FileType, regular_file, FileStatus, file_status_of, type, is_regular_file,
}
use fineftp_server.Session.{Session, lacks_some, required_to_rename}
use fineftp_server.Session.Paths.{IsInFolder, NoNul}

-- The user was given this permission, or one of these.
abbrev pub Granted : FtpUser → Permission → Type 0
Granted user mask = denies user.permissions mask ≡ false

module _ (os : Os) where
  abbrev pub status_at : os.Disk → Bytes → FileStatus
  status_at d p = file_status_of os d p

  -- From `d` to `d'` at most one system call changed the disk, on paths that are the user's root
  -- folder or stand below it, and the user has the permission for it.
  pub data Effect (user : FtpUser) (d d' : os.Disk) : Type 0 where
    keeps : d' ≡ d → Effect user d d'
    -- A file is created, or truncated: then the user may delete it too.
    creates :
        (p : Bytes) (mode : OpenMode)
        → IsInFolder user p
        → mode.app ≡ false
        → Granted user file_write
        → (is_regular_file (type (status_at d p)) ≡ true → Granted user file_delete)
        → d' ≡ (os.fstream p mode d).1
        → Effect user d d'
    -- A regular file is opened at its end.
    appends :
        (p : Bytes) (mode : OpenMode)
        → IsInFolder user p
        → mode.app ≡ true
        → Granted user file_append
        → is_regular_file (type (status_at d p)) ≡ true
        → d' ≡ (os.fstream p mode d).1
        → Effect user d d'
    -- What there is moves to a path where nothing is.
    renames :
        (p q : Bytes)
        → IsInFolder user p
        → IsInFolder user q
        → lacks_some user.permissions (required_to_rename (status_at d p)) ≡ false
        → (status_at d p).is_ok ≡ true
        → (status_at d q).is_ok ≡ false
        → d' ≡ (os.rename p q d).1
        → Effect user d d'
    unlinks :
        (p : Bytes)
        → IsInFolder user p
        → Granted user file_delete
        → is_regular_file (type (status_at d p)) ≡ true
        → d' ≡ (os.unlink p d).1
        → Effect user d d'
    removes :
        (p : Bytes)
        → IsInFolder user p
        → Granted user dir_delete
        → d' ≡ (os.rmdir p d).1
        → Effect user d d'
    makes :
        (p : Bytes)
        → IsInFolder user p
        → Granted user dir_create
        → d' ≡ (os.mkdir p 0o755 d).1
        → Effect user d d'

  -- Nobody who is not logged in changes the disk.
  abbrev pub EffectOf : Option FtpUser → os.Disk → os.Disk → Type 0
  EffectOf none d d' = d' ≡ d
  EffectOf (some user) d d' = Effect user d d'

abbrev pub RootNoNul : Option FtpUser → Type 0
RootNoNul = IfUser (λ user. NoNul user.local_root_path)

-- The working directory is an absolute FTP path, and no path holds a NUL byte.
pub record IsSafe {os : Os} (s : Session os) : Type 0 where
  pub directory : IsRooted (λ c. c ≢ 0) s.ftp_working_directory
  pub renaming : NoNul s.rename_from_path
  pub root : RootNoNul s.logged_in_user

-- A step of the session: its effect on the disk, on behalf of the user who was logged in before.
pub record Step {os : Os} (s s' : Session os) : Type 0 where
  pub effect : EffectOf os s.logged_in_user s.disk s'.disk
  pub safe : IsSafe s'

-- What a command handler promises.
abbrev pub IsHandler : {os : Os} → (Bytes → Session os → Session os) → Type 0
IsHandler {os} h = (param : Bytes) (s : Session os) → NoNul param → IsSafe s → Step s (h param s)
