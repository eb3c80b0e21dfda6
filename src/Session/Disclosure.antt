-- ===== src/Session/Disclosure.antt =====
-- What MDTM tells a client about the server's own folders.
use fineftp_server.Base.{
  ◌≡◌, refl, sym, ap, ◌∙◌, Bool, true, false, ◌&&◌, some, List, [], ◌∷◌, ◌++◌, append_assoc, arith,
  Bytes, codes, to_string, All,
}
use fineftp_server.Permission.{denies, permission_or, file_read, dir_list}
use fineftp_server.Message.{str, value}
use fineftp_server.Message.FtpReplyCode.{action_not_taken}
use fineftp_server.Users.{FtpUser, empty}
use fineftp_server.CleanPath.{slash, separated, join}
use fineftp_server.CleanPath.Unix.{IsEntry, is_absolute, path_of}
use fineftp_server.CleanPath.Normal.{folder, folder-path_of}
use fineftp_server.CleanPath.Content.{IsRooted}
use fineftp_server.Os.{Os}
use fineftp_server.FileStatus.{FileStatus, type, is_regular_file}
use fineftp_server.Session.{Session, Env, send_ftp_message, to_local_path, status_of}
use fineftp_server.Session.Download.{handle_mdtm}
use fineftp_server.Session.Paths.{to_local_path-IsInFolder}

separated-append :
    (cs ds : List Bytes) → separated slash (cs ++ ds) ≡ separated slash cs ++ separated slash ds
unfolding separated
separated-append [] ds = refl
separated-append (c ∷ cs) ds =
    rw (separated-append cs ds) (ap (λ (t : Bytes). slash ∷ t) (sym (append_assoc c _ _)))

-- A path below a folder that is not the root directory starts with the text of the folder.
path_of-append :
    (n : Bytes) (ns cs : List Bytes)
    → path_of true ((n ∷ ns) ++ cs) ≡ path_of true (n ∷ ns) ++ separated slash cs
unfolding path_of join
path_of-append n ns cs =
    rw (separated-append ns cs) (ap (λ (t : Bytes). slash ∷ t) (sym (append_assoc n _ _)))

is_absolute-root : (ns : List Bytes) → is_absolute (path_of true ns ++ slash ∷ []) ≡ true
unfolding path_of is_absolute
is_absolute-root ns = refl

folder_text :
    (root n : Bytes) (ns cs : List Bytes)
    → All IsEntry (n ∷ ns)
    → root ≡ path_of true (n ∷ ns)
    → path_of (is_absolute (root ++ slash ∷ [])) (folder root ++ cs) ≡ root ++ separated slash cs
folder_text root n ns cs h e =
    rw (e, is_absolute-root (n ∷ ns), folder-path_of (n ∷ ns) h) (path_of-append n ns cs)

-- The local path of a parameter starts with the root folder, as it stands in the database.
to_local_path-starts :
    (user : FtpUser) (wd param : Bytes) (n : Bytes) (ns : List Bytes)
    → All IsEntry (n ∷ ns)
    → user.local_root_path ≡ path_of true (n ∷ ns)
    → IsRooted (λ c. Unit {0}) wd
    → (rest : Bytes) × (to_local_path user wd param ≡ user.local_root_path ++ rest)
to_local_path-starts user wd param n ns h root w =
    let (cs, entries, e) = to_local_path-IsInFolder user wd param w in
    (separated slash cs, e ∙ folder_text user.local_root_path n ns cs h root)

-- The text of the reply.
not_retrievable : Bytes → Bytes
not_retrievable path =
    str (record { reply_code = action_not_taken; message = path ++ codes " is not retrievable" })

not_retrievable-starts :
    (path root rest : Bytes)
    → path ≡ root ++ rest
    → not_retrievable path
      ≡ codes "550 " ++ root ++ (rest ++ codes " is not retrievable" ++ codes "\r\n")
unfolding not_retrievable str value to_string codes
not_retrievable-starts path root rest e = rw e (simp (append_assoc))

abbrev pub is_retrievable : FileStatus → Bool
is_retrievable status = status.is_ok && is_regular_file (type status)

module _ {os : Os} where
  handle_mdtm-refused :
      (env : Env) (param : Bytes) (s : Session os) (user : FtpUser)
      → s.logged_in_user ≡ some user
      → denies user.permissions (permission_or file_read dir_list) ≡ false
      → empty param ≡ false
      → is_retrievable (status_of user param s) ≡ false
      → (handle_mdtm env param s).posted
        ≡ s.posted ++ not_retrievable (to_local_path user s.ftp_working_directory param) ∷ []
  unfolding handle_mdtm send_ftp_message not_retrievable
  handle_mdtm-refused env param s user e d p refused = ground (arith, e, d, p, refused)

-- MDTM tells a client where the server keeps its files: for a path that names no regular file, there
-- or not, the reply is `550`, then the path of the user's root folder in the server's own file
-- system, and more. The root folder is absolute, normalised and not the root directory, the working
-- directory is an absolute, normalised FTP path, and the user may read files or list directories.
pub handle_mdtm-discloses :
    {os : Os} (env : Env) (param : Bytes) (s : Session os) (user : FtpUser) (n : Bytes)
    (ns : List Bytes)
    → s.logged_in_user ≡ some user
    → denies user.permissions (permission_or file_read dir_list) ≡ false
    → empty param ≡ false
    → IsRooted (λ c. Unit {0}) s.ftp_working_directory
    → All IsEntry (n ∷ ns)
    → user.local_root_path ≡ path_of true (n ∷ ns)
    → is_retrievable (status_of user param s) ≡ false
    → (rest : Bytes) × ((handle_mdtm env param s).posted
        ≡ s.posted ++ (codes "550 " ++ user.local_root_path ++ rest) ∷ [])
handle_mdtm-discloses env param s user n ns e d p w h root refused =
    let (rest, starts) = to_local_path-starts user s.ftp_working_directory param n ns h root w in
    (
      rest ++ codes " is not retrievable" ++ codes "\r\n",
      handle_mdtm-refused env param s user e d p refused
          ∙ ap (λ r. s.posted ++ r ∷ [])
              (not_retrievable-starts _ user.local_root_path rest starts),
    )
