-- ===== src/Session/Effect/Runs.antt =====
-- Sessions over many command lines, and what users without permissions cannot do.
use fineftp_server.Base.{◌≡◌, Option, none, some, List, arith, Bytes}
use fineftp_server.Permission.{read_only, denies}
use fineftp_server.Users.{FtpUser, UserDatabase}
use fineftp_server.Os.{Os}
use fineftp_server.FileCache.{Files}
use fineftp_server.Session.{Session, Env, Transfer, Acceptor, lacks_some, required_to_rename}
use fineftp_server.Session.Paths.{NoNul}
use fineftp_server.Session.Dispatch.{handle_ftp_command}
use fineftp_server.Session.Effect.{
  Effect, EffectOf, keeps, creates, appends, renames, unlinks, removes, makes, IsSafe,
}
use fineftp_server.Session.Effect.Accounts.{RootsNoNul}
use fineftp_server.Session.Effect.Commands.{handle_ftp_command-Step}

-- The session goes on by command lines; in between, the data connection, the other sessions and
-- other programs do what they do.
pub data Reaches {os : Os} (db : UserDatabase) (s : Session os) : Session os → Type 0 where
  start : Reaches db s s
  command :
      {t : Session os} (env : Env) (line : Bytes)
      → Reaches db s t
      → Reaches db s (handle_ftp_command db env line t)
  elsewhere :
      {t : Session os} (disk : os.Disk) (files : Files) (acceptor : Acceptor) (posted : List Bytes)
      (accepting : List Transfer)
      → Reaches db s t
      → Reaches db s (record t {
        disk = disk;
        files = files;
        data_acceptor = acceptor;
        posted = posted;
        accepting = accepting;
      })

-- No command line on the way has a NUL byte.
abbrev pub ReachesNoNul : {os : Os} {db : UserDatabase} {s t : Session os} → Reaches db s t → Type 0
ReachesNoNul start = Unit
ReachesNoNul (command env line r) = NoNul line × ReachesNoNul r
ReachesNoNul (elsewhere disk files acceptor posted accepting r) = ReachesNoNul r

-- However long a safe session runs, on command lines and root folders without a NUL byte, it stays
-- safe: its working directory is an absolute, normalised FTP path, and no NUL byte gets into that
-- path, the path to rename or the user's root folder, whatever happens elsewhere in between.
pub Reaches-IsSafe :
    {os : Os} (db : UserDatabase) {s t : Session os}
    → RootsNoNul db
    → IsSafe s
    → (r : Reaches db s t) → ReachesNoNul r
    → IsSafe t
Reaches-IsSafe db roots v start n = v
Reaches-IsSafe db roots v (command {t} env line r) n =
    (handle_ftp_command-Step db env line t roots n.0 (Reaches-IsSafe db roots v r n.1)).safe
Reaches-IsSafe db roots v (elsewhere disk files acceptor posted accepting r) n =
    let w = Reaches-IsSafe db roots v r n in
    record { directory = w.directory; renaming = w.renaming; root = w.root }

read_only-keeps :
    {os : Os} {user : FtpUser} {d d' : os.Disk}
    → user.permissions ≡ read_only
    → Effect os user d d'
    → d' ≡ d
unfolding denies lacks_some required_to_rename
read_only-keeps p (keeps e) = e
read_only-keeps p (creates path mode below app g more e) = ground (arith, p, g)
read_only-keeps p (appends path mode below app g regular e) = ground (arith, p, g)
read_only-keeps p (renames path to below below' g there free e) = ground (arith, p, g)
read_only-keeps p (unlinks path below g regular e) = ground (arith, p, g)
read_only-keeps p (removes path below g e) = ground (arith, p, g)
read_only-keeps p (makes path below g e) = ground (arith, p, g)

user-Effect :
    (os : Os) (o : Option FtpUser) {d d' : os.Disk} {user : FtpUser}
    → o ≡ some user
    → EffectOf os o d d'
    → Effect os user d d'
user-Effect os o e f = rw e at f

no_user-keeps :
    (os : Os) (o : Option FtpUser) {d d' : os.Disk} → o ≡ none → EffectOf os o d d' → d' ≡ d
no_user-keeps os o e f = rw e at f

-- While a user with `Permission::ReadOnly` is logged in to a safe session, no command line without
-- a NUL byte changes the disk, where no root folder of the database holds a NUL byte.
pub read_only-disk :
    {os : Os} (db : UserDatabase) (env : Env) (line : Bytes) (s : Session os) (user : FtpUser)
    → RootsNoNul db
    → NoNul line
    → IsSafe s
    → s.logged_in_user ≡ some user
    → user.permissions ≡ read_only
    → (handle_ftp_command db env line s).disk ≡ s.disk
read_only-disk {os} db env line s user roots n v e p =
    read_only-keeps p (user-Effect os _ e (handle_ftp_command-Step db env line s roots n v).effect)

-- While nobody is logged in to a safe session, no command line without a NUL byte changes the disk,
-- where no root folder of the database holds a NUL byte.
pub logged_out-disk :
    {os : Os} (db : UserDatabase) (env : Env) (line : Bytes) (s : Session os)
    → RootsNoNul db
    → NoNul line
    → IsSafe s
    → s.logged_in_user ≡ none
    → (handle_ftp_command db env line s).disk ≡ s.disk
logged_out-disk {os} db env line s roots n v e =
    no_user-keeps os _ e (handle_ftp_command-Step db env line s roots n v).effect
