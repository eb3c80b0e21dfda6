-- ===== src/Server/System/Laws.antt =====
-- No session gets more than the permissions of a user of the database, whatever the others do.
use mathlib.Core.Path.{subst}
use fineftp_server.Base.{
  ℕ, Bool-cases, ◌==◌, some-injective, ◌≡◌, refl, some, arith, Bytes, Option-cases, inl, inr,
}
use fineftp_server.Users.{FtpUser, UserDatabase, get_user}
use fineftp_server.Os.{Os}
use fineftp_server.FileCache.{Files}
use fineftp_server.Session.{Session, send_ftp_message}
use fineftp_server.Session.Stream.{new_session, start}
use fineftp_server.Session.Paths.{NoNul}
use fineftp_server.Session.Effect.{Effect, EffectOf, IsSafe}
use fineftp_server.Session.Effect.Quiet.{Same-Step}
use fineftp_server.Session.Effect.Accounts.{RootsNoNul, root-IsRooted}
use fineftp_server.Session.Effect.Commands.{handle_ftp_command-Step}
use fineftp_server.Session.Identity.{IsAuthentic, nobody, someone, IsSameAccount-IsAuthentic}
use fineftp_server.Session.Identity.Commands.{handle_ftp_command-IsAuthentic}
use fineftp_server.Server.System.Quiet.{
  IsQuiet, accept_next-IsQuiet, conclude-IsQuiet, file_sent-IsQuiet, read_failed-IsQuiet,
}
use fineftp_server.Server.System.{
  run_concluded, run_file_sent, concludes, fails, System, new_system, resume, put_session,
  start_session, run_command, run_accepted, run_read_failed, drop_session, SystemStep, accepts,
  commands, connects, hangs_up, ends, releases, SystemRun, stays, steps,
}

module _ (os : Os) (db : UserDatabase) where
  -- The disk stays as it is, or changes by what a user of the database may do: by one system call,
  -- with the permissions of the user, on the user's root folder and what stands below it.
  pub data IsAuthorised (d d' : os.Disk) : Type 0 where
    unchanged : d' ≡ d → IsAuthorised d d'
    authorised :
        (name password : Bytes) (user : FtpUser)
        → get_user name password db ≡ some user
        → Effect os user d d'
        → IsAuthorised d d'

module _ {os : Os} (db : UserDatabase) where
  -- What holds of each session.
  pub record IsOrderly (s : Session os) : Type 0 where
    pub safe : IsSafe s
    pub authentic : IsAuthentic db s

  -- The command line of a step, if it is one, has no NUL byte.
  abbrev pub StepNoNul : {y z : System os} → SystemStep db y z → Type 0
  StepNoNul (accepts i e) = Unit
  StepNoNul (commands i s env line e reading) = NoNul line
  StepNoNul (connects i s s' gmtime current_year result work e r) = Unit
  StepNoNul (concludes i s work e) = Unit
  StepNoNul (fails i s message e) = Unit
  StepNoNul (hangs_up i s e reading) = Unit
  StepNoNul (ends i) = Unit
  StepNoNul (releases files) = Unit

  abbrev pub RunNoNul : {y z : System os} → SystemRun db y z → Type 0
  RunNoNul stays = Unit
  RunNoNul (steps r st) = RunNoNul r × StepNoNul st

  abbrev pub IsSystem : System os → Type 0
  IsSystem y = (i : ℕ) (s : Session os) → y.sessions i ≡ some s → IsOrderly s

  resume-IsOrderly : (y : System os) (s : Session os) → IsOrderly s → IsOrderly (resume y s)
  resume-IsOrderly y s h = record {
    safe = record { directory = h.safe.directory; renaming = h.safe.renaming; root = h.safe.root };
    authentic = IsSameAccount-IsAuthentic db (record { user = refl; name = refl }) h.authentic;
  }

  put_session-IsSystem :
      (i : ℕ) (s : Session os) (y : System os)
      → IsSystem y
      → IsOrderly s
      → IsSystem (put_session i s y)
  put_session-IsSystem i s y h o j t e = elim (Bool-cases (i == j)) [
    | inl same ↦ subst IsOrderly (some-injective (rw same at e)) o
    | inr other ↦ h j t (rw other at e)
  ]

  Effect-IsAuthorised :
      (s : Session os) {d d' : os.Disk}
      → IsAuthentic db s
      → EffectOf os s.logged_in_user d d'
      → IsAuthorised os db d d'
  Effect-IsAuthorised s (nobody e) f = unchanged (rw e at f)
  Effect-IsAuthorised s (someone password e) f = elim (Option-cases s.logged_in_user) [
    | inl none_in ↦ unchanged (rw none_in at f)
    | inr (user, logged_in) ↦
        authorised s.username_for_login password user (cc (e, logged_in)) (rw logged_in at f)
  ]

  new_session-IsOrderly :
      (files : Files) (disk : os.Disk) → IsOrderly (start (new_session files disk))
  unfolding start new_session send_ftp_message
  new_session-IsOrderly files disk = record {
    safe = record { directory = root-IsRooted; renaming = tt; root = tt };
    authentic = nobody refl;
  }

  -- Where the paths and the account stay, so does order.
  IsQuiet-IsOrderly : {s t : Session os} → IsQuiet s t → IsOrderly s → IsOrderly t
  IsQuiet-IsOrderly quiet h = record {
    safe = (Same-Step quiet.paths h.safe).safe;
    authentic = IsSameAccount-IsAuthentic db quiet.account h.authentic;
  }

  -- A session that goes on quietly.
  quiet-IsSystem :
      (i : ℕ) (s t : Session os) (y : System os)
      → IsSystem y
      → y.sessions i ≡ some s
      → IsQuiet (resume y s) t
      → IsSystem (put_session i t y)
  quiet-IsSystem i s t y h e quiet =
      put_session-IsSystem i t y h (IsQuiet-IsOrderly quiet (resume-IsOrderly y s (h i s e)))

  -- Every step keeps all sessions in order.
  step-IsSystem :
      {y z : System os} (st : SystemStep db y z)
      → RootsNoNul db
      → StepNoNul st
      → IsSystem y
      → IsSystem z
  unfolding start_session run_command run_accepted run_concluded run_file_sent run_read_failed
      drop_session
  step-IsSystem {y} (accepts i e) roots n h =
      put_session-IsSystem i _ y h (new_session-IsOrderly y.files y.disk)
  step-IsSystem {y} (commands i s env line e reading) roots n h =
      let o = resume-IsOrderly y s (h i s e) in
      put_session-IsSystem i _ y h (record {
        safe = (handle_ftp_command-Step db env line (resume y s) roots n o.safe).safe;
        authentic = handle_ftp_command-IsAuthentic db env line (resume y s) o.authentic;
      })
  step-IsSystem {y} (connects i s s' gmtime current_year result work e r) roots n h =
      quiet-IsSystem i s s' y h e (accept_next-IsQuiet gmtime current_year result (resume y s) r)
  step-IsSystem {y} (concludes i s work e) roots n h =
      quiet-IsSystem i s _ y h e (conclude-IsQuiet work (resume y s))
  step-IsSystem {y} (fails i s message e) roots n h =
      quiet-IsSystem i s _ y h e (file_sent-IsQuiet (some message) (resume y s))
  step-IsSystem {y} (hangs_up i s e reading) roots n h =
      quiet-IsSystem i s _ y h e (read_failed-IsQuiet (resume y s))
  step-IsSystem {y} (ends i) roots n h = λ j s e. h j s (ground (arith, e))
  step-IsSystem (releases files) roots n h = h

  step-IsAuthorised :
      {y z : System os} (st : SystemStep db y z)
      → RootsNoNul db
      → StepNoNul st
      → IsSystem y
      → IsAuthorised os db y.disk z.disk
  unfolding start_session run_command run_accepted run_concluded run_file_sent run_read_failed
      drop_session start new_session send_ftp_message
  step-IsAuthorised (accepts i e) roots n h = unchanged refl
  step-IsAuthorised {y} (commands i s env line e reading) roots n h =
      let o = resume-IsOrderly y s (h i s e) in
      Effect-IsAuthorised (resume y s) o.authentic
        (handle_ftp_command-Step db env line (resume y s) roots n o.safe).effect
  step-IsAuthorised {y} (connects i s s' gmtime current_year result work e r) roots n h =
      unchanged (accept_next-IsQuiet gmtime current_year result (resume y s) r).paths.disk
  step-IsAuthorised {y} (concludes i s work e) roots n h =
      unchanged (conclude-IsQuiet work (resume y s)).paths.disk
  step-IsAuthorised {y} (fails i s message e) roots n h =
      unchanged (file_sent-IsQuiet (some message) (resume y s)).paths.disk
  step-IsAuthorised {y} (hangs_up i s e reading) roots n h =
      unchanged (read_failed-IsQuiet (resume y s)).paths.disk
  step-IsAuthorised (ends i) roots n h = unchanged refl
  step-IsAuthorised (releases files) roots n h = unchanged refl

  run-IsSystem :
      {y z : System os} (r : SystemRun db y z)
      → RootsNoNul db
      → RunNoNul r
      → IsSystem y
      → IsSystem z
  run-IsSystem stays roots n h = h
  run-IsSystem (steps r st) roots n h = step-IsSystem st roots n.1 (run-IsSystem r roots n.0 h)

-- A server that starts without sessions, over a database whose root folders have no NUL byte, runs
-- with any number of clients, whose commands without NUL bytes come in any order: then each step
-- leaves the disk as it is, or changes it by one system call that the permissions of some user of
-- the database allow, on paths that are that user's root folder, or stand below it.
pub SystemRun-IsAuthorised :
    {os : Os} (db : UserDatabase) (files : Files) (disk : os.Disk) {y z : System os}
    (run : SystemRun db (new_system files disk) y) (st : SystemStep db y z)
    → RootsNoNul db
    → RunNoNul db run
    → StepNoNul db st
    → IsAuthorised os db y.disk z.disk
SystemRun-IsAuthorised db files disk run st roots n k =
    step-IsAuthorised db st roots k (run-IsSystem db run roots n (λ i s e. cc))
