-- ===== src/Session/Wording/Paths.antt =====
-- The handlers that answer with paths, or work on them.
use fineftp_server.Base.{
  ◌&◌, ◌≡◌, refl, Bool, true, false, some, [], ◌∷◌, ◌++◌, arith, Bytes, codes, All-append, ◌==◌,
  Bool-cases, inl, inr,
}
use fineftp_server.Message.{FtpReplyCode}
use fineftp_server.Message.Framing.{IsInline}
use fineftp_server.Users.{FtpUser}
use fineftp_server.CleanPath.Content.{IsRooted, path_of-bytes}
use fineftp_server.Os.{Os}
use fineftp_server.Session.{
  Session, send_message, to_absolute_ftp_path, to_local_path, create_quoted_ftp_path, quote_body,
  check_if_path_is_renamable, renamable, status_of,
}
use fineftp_server.Session.Manage.{
  handle_rnfr, handle_rnto, handle_dele, handle_rmd, handle_mkd, handle_pwd, rename_to, after_call,
}
use fineftp_server.Session.Paths.{
  slash_dot, All-bytes, to_absolute_ftp_path-IsRooted, to_local_path-All,
}
use fineftp_server.Session.Wording.{
  IsText, IsTidy, IsTidying, inline, inline-IsText, message-IsTidy, send-IsTidy, say-IsTidy,
  if-IsTidy, user-IsTidy,
}

slash_dot-IsText : IsText slash_dot
slash_dot-IsText = inline-IsText slash_dot refl

pub dots-IsText : IsText (codes "..")
unfolding codes
dots-IsText = inline-IsText (codes "..") refl

pub rooted-IsText : (p : Bytes) → IsRooted IsInline p → IsText p
rooted-IsText p (cs, h, e) = rw e (
    path_of-bytes IsInline true cs slash_dot-IsText.0 slash_dot-IsText.1.0
      (All-bytes IsInline cs h))

quote_body-IsText : (s : Bytes) → IsText s → IsText (quote_body s)
unfolding quote_body
quote_body-IsText [] h = tt
quote_body-IsText (c ∷ s) h = elim (Bool-cases (c == b'"')) [
  | inl e ↦ rw e (h.0, (h.0, quote_body-IsText s h.1))
  | inr e ↦ rw e (h.0, quote_body-IsText s h.1)
]

pub quoted-IsText : (s : Bytes) → IsText s → IsText (create_quoted_ftp_path s)
unfolding create_quoted_ftp_path
quoted-IsText s h =
    (inline-IsText (b'"' ∷ []) refl).0
    & All-append IsInline (quote_body s) _ (quote_body-IsText s h) (inline-IsText (b'"' ∷ []) refl)

pub IsText-append : (s t : Bytes) → IsText s → inline t ≡ true → IsText (s ++ t)
IsText-append s t h e = All-append IsInline s t h (inline-IsText t e)

module _ {os : Os} where
  pub disk-IsTidy : (disk : os.Disk) {s : Session os} → IsTidy s → IsTidy (record s { disk = disk })
  disk-IsTidy disk v = record { directory = v.directory; root = v.root; replies = v.replies }

  renaming-IsTidy :
      (path : Bytes) {s : Session os} → IsTidy s → IsTidy (record s { rename_from_path = path })
  renaming-IsTidy path v = record { directory = v.directory; root = v.root; replies = v.replies }

  pub directory_of :
      (param : Bytes) {s : Session os}
      → IsText param
      → IsTidy s
      → IsRooted IsInline (to_absolute_ftp_path s.ftp_working_directory param)
  directory_of param {s} t v =
      to_absolute_ftp_path-IsRooted IsInline s.ftp_working_directory param slash_dot-IsText
        v.directory t

  -- The path of a user's file.
  pub local_path-IsText :
      {user : FtpUser} (param : Bytes) (s : Session os)
      → s.logged_in_user ≡ some user
      → IsText param
      → IsTidy s
      → IsText (to_local_path user s.ftp_working_directory param)
  local_path-IsText {user} param s e t v =
      to_local_path-All IsInline user s.ftp_working_directory param slash_dot-IsText dots-IsText
        (rw e at v.root) v.directory t

  after_call-IsTidy :
      (good : FtpReplyCode) (done : Bytes) (bad : FtpReplyCode) (failed : Bytes) (s : Session os)
      (r : Bool × os.Disk)
      → IsText done
      → inline failed ≡ true
      → IsTidy s
      → IsTidy (after_call good done bad failed s r)
  unfolding after_call
  after_call-IsTidy good done bad failed s (true, d) t f v = send-IsTidy _ _ t (disk-IsTidy d v)
  after_call-IsTidy good done bad failed s (false, d) t f v = say-IsTidy _ _ f (disk-IsTidy d v)

  pub rmd-IsTidying : IsTidying (handle_rmd {os = os})
  unfolding handle_rmd codes
  rmd-IsTidying param s t v =
      user-IsTidy s.logged_in_user (say-IsTidy _ _ refl v)
        (λ user e. search (if-IsTidy, say-IsTidy, after_call-IsTidy, inline-IsText, refl))

  pub dele-IsTidying : IsTidying (handle_dele {os = os})
  unfolding handle_dele codes status_of
  dele-IsTidying param s t v =
      user-IsTidy s.logged_in_user (say-IsTidy _ _ refl v)
        (λ user e. search (if-IsTidy, say-IsTidy, after_call-IsTidy, inline-IsText, refl))

  pub mkd-IsTidying : IsTidying (handle_mkd {os = os})
  unfolding handle_mkd codes
  mkd-IsTidying param s t v =
      let path = quoted-IsText _ (rooted-IsText _ (directory_of param t v)) in
      user-IsTidy s.logged_in_user (say-IsTidy _ _ refl v)
        (λ user e. search (if-IsTidy, say-IsTidy, after_call-IsTidy, IsText-append, refl))

  pub pwd-IsTidying : IsTidying (handle_pwd {os = os})
  unfolding handle_pwd codes
  pwd-IsTidying param s t v =
      user-IsTidy s.logged_in_user (say-IsTidy _ _ refl v)
        (λ user e. send-IsTidy _ _ (quoted-IsText _ (rooted-IsText _ v.directory)) v)

  rename_to-IsTidy :
      (user : FtpUser) (param : Bytes) (s : Session os) → IsTidy s → IsTidy (rename_to user param s)
  unfolding rename_to codes status_of
  rename_to-IsTidy user param s v =
      search (if-IsTidy, say-IsTidy, after_call-IsTidy, inline-IsText, refl)

  -- Every answer of `checkIfPathIsRenamable` is a fixed text.
  check-inline :
      (path : Bytes) (s : Session os) → inline (check_if_path_is_renamable path s).message ≡ true
  unfolding check_if_path_is_renamable renamable codes
  check-inline path s = ground arith

  check_message-IsTidy :
      (path : Bytes) (s : Session os) {u : Session os}
      → IsTidy u
      → IsTidy (send_message (check_if_path_is_renamable path s) u)
  check_message-IsTidy path s v =
      let m = check_if_path_is_renamable path s in
      message-IsTidy m _ (inline-IsText m.message (check-inline path s)) v

  pub rnfr-IsTidying : IsTidying (handle_rnfr {os = os})
  unfolding handle_rnfr codes
  rnfr-IsTidying param s t v =
      search (if-IsTidy, say-IsTidy, check_message-IsTidy, renaming-IsTidy, refl)

  pub rnto-IsTidying : IsTidying (handle_rnto {os = os})
  unfolding handle_rnto codes
  rnto-IsTidying param s t v =
      user-IsTidy s.logged_in_user (say-IsTidy _ _ refl v)
        (λ user e. search (if-IsTidy, say-IsTidy, check_message-IsTidy, rename_to-IsTidy, refl))
