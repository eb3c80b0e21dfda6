-- ===== src/Session/Wording.antt =====
-- What the replies of a session look like: each is one line of text, but for the answer to FEAT.
pub mod Plain
pub mod Paths
pub mod Directory
pub mod Transfers
pub mod Numbers
pub mod Commands
pub mod Connections
use fineftp_server.Base.{
  ℕ, ◌≡◌, refl, Bool, true, false, ◌&&◌, not, Option, none, some, List, [], ◌∷◌, ◌++◌, arith, Bytes,
  codes, All, All-append, All-map, to_string, to_string-All, ◌==◌, if◌then◌else◌,
}
use fineftp_server.Message.{FtpReplyCode, FtpMessage, str}
use fineftp_server.Message.Framing.{IsInline}
use fineftp_server.Users.{FtpUser}
use fineftp_server.Users.Laws.{IfUser}
use fineftp_server.CleanPath.{slash}
use fineftp_server.CleanPath.Content.{IsRooted}
use fineftp_server.Os.{Os}
use fineftp_server.Session.{Session, send_message, send_ftp_message, send_raw_ftp_message}
use fineftp_server.Session.Info.{feature_list}

-- A text without a carriage return and a line feed.
abbrev pub IsText : Bytes → Type 0
IsText = All IsInline

-- A reply: one line with its number, or the list of features.
pub data IsReplyText (r : Bytes) : Type 0 where
  line : (m : FtpMessage) → IsText m.message → r ≡ str m → IsReplyText r
  features : r ≡ feature_list → IsReplyText r

abbrev pub RootText : Option FtpUser → Type 0
RootText = IfUser (λ user. IsText user.local_root_path)

-- The texts that a session answers with: its directory, the user's root folder, its replies.
pub record IsTidy {os : Os} (s : Session os) : Type 0 where
  pub directory : IsRooted IsInline s.ftp_working_directory
  pub root : RootText s.logged_in_user
  pub replies : All IsReplyText s.posted

abbrev pub inline : Bytes → Bool
inline [] = true
inline (c ∷ s) = (not (c == b'\r') && not (c == b'\n')) && inline s

pub inline-IsText : (s : Bytes) → inline s ≡ true → IsText s
inline-IsText [] e = tt
inline-IsText (c ∷ s) e =
    ((λ h. ground (arith, h, e), λ h. ground (arith, h, e)), inline-IsText s (ground (arith, e)))

pub to_string-IsText : (n : ℕ) → IsText (to_string n)
to_string-IsText n = All-map _ _ _ (λ c d. ground (arith, d)) (to_string-All n)

module _ {os : Os} where
  abbrev pub IsTidying : (Bytes → Session os → Session os) → Type 0
  IsTidying h = (param : Bytes) (s : Session os) → IsText param → IsTidy s → IsTidy (h param s)

  pub message-IsTidy :
      (m : FtpMessage) (s : Session os) → IsText m.message → IsTidy s → IsTidy (send_message m s)
  unfolding send_message
  message-IsTidy m s t v = record {
    directory = v.directory;
    root = v.root;
    replies = All-append IsReplyText s.posted (str m ∷ []) v.replies (line m t refl, tt);
  }

  pub send-IsTidy :
      (code : FtpReplyCode) (text : Bytes) {s : Session os}
      → IsText text
      → IsTidy s
      → IsTidy (send_ftp_message code text s)
  unfolding send_ftp_message
  send-IsTidy code text {s} t v =
      message-IsTidy (record { reply_code = code; message = text }) s t v

  -- A fixed text.
  pub say-IsTidy :
      (code : FtpReplyCode) (text : Bytes) {s : Session os}
      → inline text ≡ true
      → IsTidy s
      → IsTidy (send_ftp_message code text s)
  say-IsTidy code text e v = send-IsTidy code text (inline-IsText text e) v

  pub if-IsTidy : {s t : Session os} (b : Bool) → IsTidy s → IsTidy t → IsTidy (if b then s else t)
  if-IsTidy true v w = v
  if-IsTidy false v w = w

  pub user-IsTidy :
      {t : Session os} {u : FtpUser → Session os} (o : Option FtpUser)
      → IsTidy t
      → ((user : FtpUser) → o ≡ some user → IsTidy (u user))
      → IsTidy (elim o [ none ↦ t | some user ↦ u user ])
  user-IsTidy none f g = f
  user-IsTidy (some user) f g = g user refl
