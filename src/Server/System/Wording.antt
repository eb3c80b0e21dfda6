-- ===== src/Server/System/Wording.antt =====
-- Every reply of a server, to whatever client, is one line of text, or the list of features.
use mathlib.Core.Path.{subst}
use fineftp_server.Base.{
  ℕ, ◌≡◌, refl, some, some-injective, arith, codes, All, Bool-cases, inl, inr, ◌==◌,
}
use fineftp_server.Message.Framing.{IsInline}
use fineftp_server.Users.{UserDatabase}
use fineftp_server.CleanPath.Content.{slash-IsRooted}
use fineftp_server.Os.{Os}
use fineftp_server.FileCache.{Files}
use fineftp_server.Session.{Session}
use fineftp_server.Session.Stream.{new_session, start}
use fineftp_server.Session.Wording.{IsText, IsTidy, IsReplyText, say-IsTidy}
use fineftp_server.Session.Wording.Plain.{RootsText}
use fineftp_server.Session.Wording.Commands.{handle_ftp_command-IsTidy}
use fineftp_server.Session.Wording.Connections.{
  AcceptedText, accept_next-IsTidy, conclude-IsTidy, file_sent-IsTidy, read_failed-IsTidy,
}
use fineftp_server.Server.System.{
  run_concluded, run_file_sent, concludes, fails, System, new_system, resume, put_session,
  start_session, run_command, run_accepted, run_read_failed, drop_session, SystemStep, accepts,
  commands, connects, hangs_up, ends, releases, SystemRun, stays, steps,
}

start-IsTidy :
    {os : Os} (files : Files) (disk : os.Disk) → IsTidy (start (new_session {os = os} files disk))
unfolding start new_session codes
start-IsTidy files disk =
    say-IsTidy _ _ refl (record { directory = slash-IsRooted IsInline; root = tt; replies = tt })

module _ {os : Os} (db : UserDatabase) where
  -- Neither the command line of a step nor the message of its error has a line end in it.
  abbrev pub StepText : {y z : System os} → SystemStep db y z → Type 0
  StepText (accepts i e) = Unit
  StepText (commands i s env line e reading) = IsText line
  StepText (connects i s s' gmtime current_year result work e r) = AcceptedText result
  StepText (concludes i s work e) = Unit
  StepText (fails i s message e) = IsText message
  StepText (hangs_up i s e reading) = Unit
  StepText (ends i) = Unit
  StepText (releases files) = Unit

  abbrev pub RunText : {y z : System os} → SystemRun db y z → Type 0
  RunText stays = Unit
  RunText (steps r st) = RunText r × StepText st

  abbrev IsTidySystem : System os → Type 0
  IsTidySystem y = (i : ℕ) (s : Session os) → y.sessions i ≡ some s → IsTidy s

  put_session-IsTidySystem :
      (i : ℕ) (s : Session os) (y : System os)
      → IsTidySystem y
      → IsTidy s
      → IsTidySystem (put_session i s y)
  put_session-IsTidySystem i s y h v j t e = elim (Bool-cases (i == j)) [
    | inl same ↦ subst IsTidy (some-injective (rw same at e)) v
    | inr other ↦ h j t (rw other at e)
  ]

  resume-IsTidy : (y : System os) (s : Session os) → IsTidy s → IsTidy (resume y s)
  resume-IsTidy y s v = record { directory = v.directory; root = v.root; replies = v.replies }

  step-IsTidySystem :
      {y z : System os} (st : SystemStep db y z)
      → RootsText db
      → StepText st
      → IsTidySystem y
      → IsTidySystem z
  unfolding start_session run_command run_accepted run_concluded run_file_sent run_read_failed
      drop_session
  step-IsTidySystem {y} (accepts i e) roots t h =
      put_session-IsTidySystem i _ y h (start-IsTidy y.files y.disk)
  step-IsTidySystem {y} (commands i s env line e reading) roots t h =
      put_session-IsTidySystem i _ y h
        (handle_ftp_command-IsTidy db env line (resume y s) roots t (resume-IsTidy y s (h i s e)))
  step-IsTidySystem {y} (connects i s s' gmtime current_year result work e r) roots t h =
      put_session-IsTidySystem i s' y h (
        accept_next-IsTidy gmtime current_year result (resume y s) t (resume-IsTidy y s (h i s e))
          r)
  step-IsTidySystem {y} (concludes i s work e) roots t h =
      put_session-IsTidySystem i _ y h (conclude-IsTidy work _ (resume-IsTidy y s (h i s e)))
  step-IsTidySystem {y} (fails i s message e) roots t h =
      put_session-IsTidySystem i _ y h (file_sent-IsTidy message _ t (resume-IsTidy y s (h i s e)))
  step-IsTidySystem {y} (hangs_up i s e reading) roots t h =
      put_session-IsTidySystem i _ y h (read_failed-IsTidy _ (resume-IsTidy y s (h i s e)))
  step-IsTidySystem {y} (ends i) roots t h = λ j s e. h j s (ground (arith, e))
  step-IsTidySystem (releases files) roots t h = h

  run-IsTidySystem :
      {y z : System os} (r : SystemRun db y z)
      → RootsText db
      → RunText r
      → IsTidySystem y
      → IsTidySystem z
  run-IsTidySystem stays roots t h = h
  run-IsTidySystem (steps r st) roots t h =
      step-IsTidySystem st roots t.1 (run-IsTidySystem r roots t.0 h)

-- A server that starts without sessions runs with any number of clients, in any order. Where no root
-- folder in its database, no command line and no message of an error of asio has a carriage return
-- or a line feed in it, everything that any session has posted is a sequence of replies, each of
-- them either one line, with its number and a message without a line end, or the list of features.
pub SystemRun-IsReplyText :
    {os : Os} (db : UserDatabase) (files : Files) (disk : os.Disk) {y : System os}
    (r : SystemRun db (new_system files disk) y) (i : ℕ) (s : Session os)
    → RootsText db
    → RunText db r
    → y.sessions i ≡ some s
    → All IsReplyText s.posted
SystemRun-IsReplyText db files disk r i s roots t e =
    (run-IsTidySystem db r roots t (λ j u none_there. cc) i s e).replies
