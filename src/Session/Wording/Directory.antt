-- ===== src/Session/Wording/Directory.antt =====
-- The handlers that change the working directory.
use fineftp_server.Base.{
  ◌≡◌, refl, Bool, true, false, Option, none, some, Bytes, codes, All-append, if◌then◌else◌,
}
use fineftp_server.Message.{FtpMessage}
use fineftp_server.Message.Framing.{IsInline}
use fineftp_server.Users.{FtpUser}
use fineftp_server.CleanPath.Content.{IsRooted}
use fineftp_server.Os.{Os}
use fineftp_server.Session.{Session, status_of, execute_cwd, enter_directory}
use fineftp_server.Session.Access.{handle_cwd, handle_cdup, cdup_reply}
use fineftp_server.Session.Wording.{
  IsText, IsTidy, IsTidying, inline, inline-IsText, message-IsTidy, send-IsTidy, say-IsTidy,
  if-IsTidy, user-IsTidy,
}
use fineftp_server.Session.Wording.Paths.{dots-IsText, rooted-IsText, directory_of}

module _ {os : Os} where
  -- A message and the session that it comes with.
  record IsAnswer (x : FtpMessage × Session os) : Type 0 where
    text : IsText x.0.message
    tidy : IsTidy x.1

  if-IsAnswer :
      {x y : FtpMessage × Session os} (b : Bool)
      → IsAnswer x
      → IsAnswer y
      → IsAnswer (if b then x else y)
  if-IsAnswer true p q = p
  if-IsAnswer false p q = q

  says-IsAnswer :
      (m : FtpMessage) {s : Session os} → inline m.message ≡ true → IsTidy s → IsAnswer (m, s)
  says-IsAnswer m e v = record { text = inline-IsText m.message e; tidy = v }

  enters-IsAnswer :
      (m : FtpMessage) (dir : Bytes) {s : Session os}
      → IsText m.message
      → IsRooted IsInline dir
      → IsTidy s
      → IsAnswer (m, record s { ftp_working_directory = dir })
  enters-IsAnswer m dir t r v = record {
    text = t;
    tidy = record { directory = r; root = v.root; replies = v.replies };
  }

  -- What `executeCWD` answers and leaves.
  enter_directory-IsAnswer :
      (user : FtpUser) (dir : Bytes) (s : Session os)
      → IsRooted IsInline dir
      → IsTidy s
      → IsAnswer (enter_directory user dir s)
  unfolding enter_directory status_of codes
  enter_directory-IsAnswer user dir s r v =
      let text =
        let start = codes "Working directory changed to " in
        All-append IsInline start dir (inline-IsText start refl) (rooted-IsText dir r) in
      search (if-IsAnswer, says-IsAnswer, enters-IsAnswer, refl)

  user-IsAnswer :
      {t : FtpMessage × Session os} {u : FtpUser → FtpMessage × Session os} (o : Option FtpUser)
      → IsAnswer t
      → ((user : FtpUser) → IsAnswer (u user))
      → IsAnswer (elim o [ none ↦ t | some user ↦ u user ])
  user-IsAnswer none f g = f
  user-IsAnswer (some user) f g = g user

  execute_cwd-IsAnswer :
      (param : Bytes) (s : Session os) → IsText param → IsTidy s → IsAnswer (execute_cwd param s)
  unfolding execute_cwd codes
  execute_cwd-IsAnswer param s t v =
      let dir = directory_of param t v in
      user-IsAnswer s.logged_in_user (says-IsAnswer _ refl v)
        (λ user. search (if-IsAnswer, says-IsAnswer, enter_directory-IsAnswer, refl))

  pub cwd-IsTidying : IsTidying (handle_cwd {os = os})
  unfolding handle_cwd
  cwd-IsTidying param s t v =
      let a = execute_cwd-IsAnswer param s t v in message-IsTidy _ _ a.text a.tidy

  cdup_reply-IsTidy : (x : FtpMessage × Session os) → IsAnswer x → IsTidy (cdup_reply x.0 x.1)
  unfolding cdup_reply
  cdup_reply-IsTidy x a =
      let text = a.text in let tidy = a.tidy in search (if-IsTidy, send-IsTidy, message-IsTidy)

  pub cdup-IsTidying : IsTidying (handle_cdup {os = os})
  unfolding handle_cdup codes
  cdup-IsTidying param s t v =
      let up =
        cdup_reply-IsTidy (execute_cwd (codes "..") s)
          (execute_cwd-IsAnswer (codes "..") s dots-IsText v) in
      user-IsTidy s.logged_in_user (say-IsTidy _ _ refl v)
        (λ user e. search (if-IsTidy, say-IsTidy, refl))
