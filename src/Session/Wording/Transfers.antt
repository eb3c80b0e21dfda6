-- ===== src/Session/Wording/Transfers.antt =====
-- The handlers that begin transfers, and what SIZE, MDTM and PASV answer.
use fineftp_server.Base.{
  ℕ, zero, suc, ◌+◌, ◌≡◌, refl, Bool, true, false, Option, none, some, List, ◌++◌, arith, Bytes,
  codes, All-append, All-map, to_hex, to_hex-All, set_w-All,
}
use fineftp_server.Message.Framing.{IsInline}
use fineftp_server.Users.{FtpUser}
use fineftp_server.Os.{Os, OpenMode}
use fineftp_server.FileStatus.{FileStatus}
use fineftp_server.FileCache.{ReadableFile, Files}
use fineftp_server.Session.{Session, Env, Transfer, accept_data_connection, status_of}
use fineftp_server.Session.Download.{handle_retr, retrieved, handle_size, size_reply}
use fineftp_server.Session.Listing.{handle_list, handle_nlst, list_directory}
use fineftp_server.Session.Upload.{
  handle_stor, handle_stou, handle_appe, store, store_unique, append_to, open_and_receive,
  opened_write, opened_unique, unique_name,
}
use fineftp_server.Session.Wording.{
  IsText, IsTidy, IsTidying, inline, inline-IsText, to_string-IsText, send-IsTidy, say-IsTidy,
  if-IsTidy, user-IsTidy,
}
use fineftp_server.Session.Wording.Paths.{disk-IsTidy}

unique_name-IsText : (n : ℕ) → IsText (unique_name n)
unfolding unique_name codes
unique_name-IsText n =
    let hex = All-map _ IsInline (to_hex n) (λ c h. ground (arith, h)) (to_hex-All n) in
    All-append IsInline (codes "FILE_") _ (inline-IsText (codes "FILE_") refl)
      (set_w-All IsInline 8 b'0' (to_hex n) (ground arith) hex)

module _ {os : Os} where
  accept-IsTidy : (t : Transfer) {s : Session os} → IsTidy s → IsTidy (accept_data_connection t s)
  unfolding accept_data_connection
  accept-IsTidy t v = record { directory = v.directory; root = v.root; replies = v.replies }

  files-IsTidy : (files : Files) {s : Session os} → IsTidy s → IsTidy (record s { files = files })
  files-IsTidy files v = record { directory = v.directory; root = v.root; replies = v.replies }

  retrieved-IsTidy :
      (s : Session os) (x : Option (ℕ × ReadableFile) × Files) → IsTidy s → IsTidy (retrieved s x)
  unfolding retrieved codes
  retrieved-IsTidy s (none, files) v = search (say-IsTidy, files-IsTidy, refl)
  retrieved-IsTidy s (some (i, file), files) v =
      search (accept-IsTidy, say-IsTidy, files-IsTidy, refl)

  pub retr-IsTidying : IsTidying (handle_retr {os = os})
  unfolding handle_retr codes
  retr-IsTidying param s t v =
      user-IsTidy s.logged_in_user (say-IsTidy _ _ refl v)
        (λ user e. search (if-IsTidy, say-IsTidy, retrieved-IsTidy, refl))

  list_directory-IsTidy :
      (transfer : List (Bytes × FileStatus) → Transfer) (announce : Bytes) (user : FtpUser)
      (param : Bytes) (s : Session os)
      → inline announce ≡ true
      → IsTidy s
      → IsTidy (list_directory transfer announce user param s)
  unfolding list_directory codes status_of
  list_directory-IsTidy transfer announce user param s e v =
      search (if-IsTidy, say-IsTidy, accept-IsTidy, refl)

  pub list-IsTidying : IsTidying (handle_list {os = os})
  unfolding handle_list codes
  list-IsTidying param s t v =
      user-IsTidy s.logged_in_user (say-IsTidy _ _ refl v)
        (λ user e. search (if-IsTidy, say-IsTidy, list_directory-IsTidy, refl))

  pub nlst-IsTidying : IsTidying (handle_nlst {os = os})
  unfolding handle_nlst codes
  nlst-IsTidying param s t v =
      user-IsTidy s.logged_in_user (say-IsTidy _ _ refl v)
        (λ user e. search (if-IsTidy, say-IsTidy, list_directory-IsTidy, refl))

  opened_write-IsTidy :
      (path : Bytes) (mode : OpenMode) (announce : Bytes) (s : Session os) (r : Bool × os.Disk)
      → inline announce ≡ true
      → IsTidy s
      → IsTidy (opened_write path mode announce s r)
  unfolding opened_write codes
  opened_write-IsTidy path mode announce s (true, d) e v =
      search (accept-IsTidy, say-IsTidy, disk-IsTidy, refl)
  opened_write-IsTidy path mode announce s (false, d) e v = search (say-IsTidy, disk-IsTidy, refl)

  receive-IsTidy :
      (path : Bytes) (mode : OpenMode) (s : Session os)
      → IsTidy s
      → IsTidy (open_and_receive path mode s)
  unfolding open_and_receive codes
  receive-IsTidy path mode s v = opened_write-IsTidy _ _ (codes "Receiving file") s _ refl v

  store-IsTidy :
      (user : FtpUser) (param : Bytes) (s : Session os) → IsTidy s → IsTidy (store user param s)
  unfolding store codes status_of
  store-IsTidy user param s v = search (if-IsTidy, say-IsTidy, receive-IsTidy, refl)

  pub stor-IsTidying : IsTidying (handle_stor {os = os})
  unfolding handle_stor codes
  stor-IsTidying param s t v =
      user-IsTidy s.logged_in_user (say-IsTidy _ _ refl v)
        (λ user e. search (if-IsTidy, say-IsTidy, store-IsTidy, refl))

  append_to-IsTidy :
      (user : FtpUser) (param : Bytes) (exists : Bool) (s : Session os)
      → IsTidy s
      → IsTidy (append_to user param exists s)
  unfolding append_to codes
  append_to-IsTidy user param exists s v = search (if-IsTidy, say-IsTidy, receive-IsTidy, refl)

  pub appe-IsTidying : IsTidying (handle_appe {os = os})
  unfolding handle_appe codes status_of
  appe-IsTidying param s t v =
      user-IsTidy s.logged_in_user (say-IsTidy _ _ refl v)
        (λ user e. search (if-IsTidy, say-IsTidy, append_to-IsTidy, refl))

  opened_unique-IsTidy :
      (name path : Bytes) (mode : OpenMode) (s : Session os) (r : Bool × os.Disk)
      → IsText name
      → IsTidy s
      → IsTidy (opened_unique name path mode s r)
  unfolding opened_unique codes
  opened_unique-IsTidy name path mode s (true, d) e v = accept-IsTidy _ (
      send-IsTidy _ (codes "FILE: " ++ name)
        (All-append IsInline (codes "FILE: ") name (inline-IsText (codes "FILE: ") refl) e)
        (disk-IsTidy d v))
  opened_unique-IsTidy name path mode s (false, d) e v = search (say-IsTidy, disk-IsTidy, refl)

  store_unique-IsTidy :
      (attempts : ℕ) (draws : ℕ → ℕ) (user : FtpUser) (s : Session os)
      → IsTidy s
      → IsTidy (store_unique attempts draws user s)
  unfolding store_unique codes status_of
  store_unique-IsTidy zero draws user s v = say-IsTidy _ _ refl v
  store_unique-IsTidy (suc n) draws user s v =
      let s' = record s { drawn = s.drawn + 1 } in
      let v' : IsTidy s' = record { directory = v.directory; root = v.root; replies = v.replies } in
      let again = store_unique-IsTidy n draws user s' v' in
      let name = unique_name-IsText (draws s.drawn) in search (if-IsTidy, opened_unique-IsTidy)

  pub stou-IsTidying : (env : Env) → IsTidying (handle_stou {os = os} env)
  unfolding handle_stou codes
  stou-IsTidying env param s t v =
      user-IsTidy s.logged_in_user (say-IsTidy _ _ refl v)
        (λ user e. search (if-IsTidy, say-IsTidy, store_unique-IsTidy, refl))

  size_reply-IsTidy :
      (size : Option (Option ℕ)) (s : Session os) → IsTidy s → IsTidy (size_reply size s)
  unfolding size_reply codes
  size_reply-IsTidy none s v = say-IsTidy _ _ refl v
  size_reply-IsTidy (some none) s v = say-IsTidy _ _ refl v
  size_reply-IsTidy (some (some n)) s v = send-IsTidy _ _ (to_string-IsText n) v

  pub size-IsTidying : IsTidying (handle_size {os = os})
  unfolding handle_size codes
  size-IsTidying param s t v =
      user-IsTidy s.logged_in_user (say-IsTidy _ _ refl v)
        (λ user e. search (if-IsTidy, say-IsTidy, size_reply-IsTidy, refl))
