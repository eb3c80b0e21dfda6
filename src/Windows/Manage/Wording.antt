-- ===== src/Windows/Manage/Wording.antt =====
-- ftp_session.cpp: the replies of RNTO, DELE, RMD and MKD of the Windows build. The text of an error
-- comes from Windows; `GetLastErrorStr` takes the line ends out of it.
use fineftp_server.Base.{
  ◌≡◌, refl, Bool, true, false, Option, none, some, [], ◌∷◌, arith, Bytes, codes, All-append, ℕ,
  ◌==◌, Bool-cases, inl, inr,
}
use fineftp_server.Message.{FtpReplyCode}
use fineftp_server.Message.Framing.{IsInline}
use fineftp_server.Users.{FtpUser}
use fineftp_server.Os.{Os}
use fineftp_server.Session.{Session}
use fineftp_server.Session.Wording.{
  IsText, IsTidy, IsTidying, inline, inline-IsText, send-IsTidy, say-IsTidy, if-IsTidy, user-IsTidy,
}
use fineftp_server.Session.Wording.Paths.{
  IsText-append, disk-IsTidy, rooted-IsText, quoted-IsText, directory_of,
}
use fineftp_server.Windows.Status.{
  Machine, is_control, remove_controls, message_text, get_last_error_str,
}
use fineftp_server.Windows.Manage.{after_call, rename_to, handle_dele, handle_rmd, handle_mkd}

is_control-IsInline : (c : ℕ) → is_control c ≡ false → IsInline c
unfolding is_control
is_control-IsInline c e = (λ h. ground (arith, h, e), λ h. ground (arith, h, e))

remove_controls-IsText : (s : Bytes) → IsText (remove_controls s)
unfolding remove_controls
remove_controls-IsText [] = tt
remove_controls-IsText (c ∷ s) = elim (Bool-cases (is_control c)) [
  | inl e ↦ rw e (remove_controls-IsText s)
  | inr e ↦ rw e (is_control-IsInline c e, remove_controls-IsText s)
]

message_text-IsText : (text : Option Bytes) → IsText (message_text text)
unfolding message_text
message_text-IsText none = tt
message_text-IsText (some text) = remove_controls-IsText text

module _ {os : Os} (m : Machine os) where
  get_last_error_str-IsText : (disk : os.Disk) → IsText (get_last_error_str m disk)
  unfolding get_last_error_str
  get_last_error_str-IsText disk = elim (Bool-cases (m.get_last_error disk == 0)) [
    | inl e ↦ rw e tt
    | inr e ↦ rw e (message_text-IsText (m.format_message (m.get_last_error disk)))
  ]

  after_call-IsTidy :
      (good : FtpReplyCode) (done : Bytes) (bad : FtpReplyCode) (failed : Bytes) (s : Session os)
      (r : Bool × os.Disk)
      → IsText done
      → inline failed ≡ true
      → IsTidy s
      → IsTidy (after_call m good done bad failed s r)
  unfolding after_call
  after_call-IsTidy good done bad failed s (true, d) t f v = send-IsTidy _ _ t (disk-IsTidy d v)
  after_call-IsTidy good done bad failed s (false, d) t f v =
      send-IsTidy _ _
        (All-append IsInline failed (get_last_error_str m d) (inline-IsText failed f)
          (get_last_error_str-IsText d))
        (disk-IsTidy d v)

  rmd-IsTidying : IsTidying (handle_rmd m)
  unfolding handle_rmd codes
  rmd-IsTidying param s t v =
      user-IsTidy s.logged_in_user (say-IsTidy _ _ refl v)
        (λ user e. search (if-IsTidy, say-IsTidy, after_call-IsTidy, inline-IsText, refl))

  dele-IsTidying : IsTidying (handle_dele m)
  unfolding handle_dele codes
  dele-IsTidying param s t v =
      user-IsTidy s.logged_in_user (say-IsTidy _ _ refl v)
        (λ user e. search (if-IsTidy, say-IsTidy, after_call-IsTidy, inline-IsText, refl))

  mkd-IsTidying : IsTidying (handle_mkd m)
  unfolding handle_mkd codes
  mkd-IsTidying param s t v =
      let path = quoted-IsText _ (rooted-IsText _ (directory_of param t v)) in
      user-IsTidy s.logged_in_user (say-IsTidy _ _ refl v)
        (λ user e. search (if-IsTidy, say-IsTidy, after_call-IsTidy, IsText-append, refl))

  rename_to-IsTidy :
      (user : FtpUser) (param : Bytes) (s : Session os)
      → IsTidy s
      → IsTidy (rename_to m user param s)
  unfolding rename_to codes
  rename_to-IsTidy user param s v =
      search (if-IsTidy, say-IsTidy, after_call-IsTidy, inline-IsText, refl)

-- On Windows, too, RNTO, DELE, RMD and MKD keep a session tidy: whatever text Windows has for an
-- error, their replies stay one line of text, where the root folder and the parameter are.
pub handlers-IsTidying :
    {os : Os} (m : Machine os) (user : FtpUser) (param : Bytes) (s : Session os)
    → IsText param
    → IsTidy s
    → IsTidy (rename_to m user param s)
      × IsTidy (handle_dele m param s)
      × IsTidy (handle_rmd m param s)
      × IsTidy (handle_mkd m param s)
handlers-IsTidying m user param s t v = (
  rename_to-IsTidy m user param s v,
  dele-IsTidying m param s t v,
  rmd-IsTidying m param s t v,
  mkd-IsTidying m param s t v,
)
