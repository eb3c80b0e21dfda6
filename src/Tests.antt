-- ===== src/Tests.antt =====
-- Runs of the definitions at fixed inputs, and the theorems at concrete ones.
mod Data
mod Machines
mod Service
mod System
mod Windows
use fineftp_server.Base.{
  ◌≡◌, ◌↔◌, ◌⊎◌, refl, none, some, [], ◌∷◌, ◌++◌, true, false, arith, codes, bytes_eq,
}
use fineftp_server.Permission.{all, read_only, denies}
use fineftp_server.Users.{find, get_user, is_username_anonymous_user}
use fineftp_server.Users.Laws.{
  no_users, Registration, register, registered, register_all, first_registration, register_result,
  get_user-register_all,
}
use fineftp_server.CleanPath.{clean_path, clean_path_native, slash, backslash}
use fineftp_server.CleanPath.Unix.{path_of, is_absolute}
use fineftp_server.CleanPath.{is_empty}
use fineftp_server.Base.{not, List, Bytes}
use fineftp_server.CleanPath.Root.{IsRoot}
use fineftp_server.CleanPath.Rules.{Reduces, IsReduced}
use fineftp_server.CleanPath.Reduction.{components_behind, shown, clean_path-Reduces}
use fineftp_server.CleanPath.Normal.{folder, clean_path_idem, clean_path_below}
use fineftp_server.Session.Nul.{hidden_parent, c_str-hidden_parent}
use fineftp_server.CleanPath.{join}
use fineftp_server.Os.{c_str}
use fineftp_server.FileStatus.{file_status_of, is_regular_file, type}
use fineftp_server.FileCache.{erase}
use fineftp_server.Session.{Session, send_ftp_message, to_absolute_ftp_path, to_local_path}
use fineftp_server.Session.Paths.{NoNul, IsInFolder, to_local_path-IsInFolder, c_str-to_local_path}
use fineftp_server.Session.Manage.{handle_dele}
use fineftp_server.Session.Info.{to_upper}
use fineftp_server.Session.Dispatch.{command_word, parameters, handle_ftp_command}
use fineftp_server.Session.Demo.{demo_os, demo_user, demo_env, demo_session, demo_disk}
use fineftp_server.Session.Effect.{IsSafe, Step}
use fineftp_server.Session.Effect.Accounts.{RootsNoNul, RootsNoNul-of}
use fineftp_server.Session.Effect.Commands.{handle_ftp_command-Step}
use fineftp_server.Session.Effect.Runs.{
  start, command, Reaches-IsSafe, read_only-disk, logged_out-disk,
}
use fineftp_server.Session.Replies.{IsAnswered}
use fineftp_server.Session.Replies.Commands.{handle_ftp_command-IsAnswered}
use fineftp_server.Session.Sequences.{handle_ftp_command-case, login}

unix_run : clean_path (codes "/a/./b//../c/") false slash ≡ codes "/a/c"
unfolding clean_path codes bytes_eq
unix_run = refl

unix_above : clean_path (codes "../a/../../b") false slash ≡ codes "../../b"
unfolding clean_path codes bytes_eq
unix_above = refl

windows_run : clean_path (codes "C:/a\\..\\b") true backslash ≡ codes "C:\\b"
unfolding clean_path codes bytes_eq
windows_run = refl

windows_host : clean_path (codes "\\\\host/share/..") true backslash ≡ codes "\\\\host\\"
unfolding clean_path codes bytes_eq
windows_host = refl

abbrev administrator : Session demo_os
administrator = demo_session (some (demo_user all))

abbrev reader : Session demo_os
reader = demo_session (some (demo_user read_only))

dele_run :
    (handle_ftp_command no_users demo_env (codes "dele ../a") administrator).disk
    ≡ (codes "/srv", none) ∷ (codes "/srv/d", none) ∷ []
unfolding handle_ftp_command codes bytes_eq find command_word handle_dele file_status_of c_str
    to_local_path clean_path_native to_absolute_ftp_path parameters is_regular_file type denies
    send_ftp_message erase
dele_run = refl

no_roots : RootsNoNul no_users
no_roots = RootsNoNul-of no_users tt tt

srv-NoNul : NoNul (codes "/srv")
unfolding codes
srv-NoNul = ground arith

dele-NoNul : NoNul (codes "dele ../a")
unfolding codes
dele-NoNul = ground arith

mkd-NoNul : NoNul (codes "MKD x")
unfolding codes
mkd-NoNul = ground arith

administrator-IsSafe : IsSafe administrator
unfolding path_of join
administrator-IsSafe = record { directory = ([], tt, refl); renaming = tt; root = srv-NoNul }

reader-IsSafe : IsSafe reader
unfolding path_of join
reader-IsSafe = record { directory = ([], tt, refl); renaming = tt; root = srv-NoNul }

nobody-IsSafe : IsSafe (demo_session none)
unfolding path_of join
nobody-IsSafe = record { directory = ([], tt, refl); renaming = tt; root = tt }

handle_ftp_command-Step_example :
    Step administrator (handle_ftp_command no_users demo_env (codes "dele ../a") administrator)
handle_ftp_command-Step_example =
    handle_ftp_command-Step no_users demo_env (codes "dele ../a") administrator no_roots dele-NoNul
      administrator-IsSafe

Reaches-IsSafe_example : IsSafe (handle_ftp_command no_users demo_env (codes "MKD x") administrator)
Reaches-IsSafe_example =
    Reaches-IsSafe no_users no_roots administrator-IsSafe (command demo_env (codes "MKD x") start)
      (mkd-NoNul, tt)

read_only-disk_example :
    (handle_ftp_command no_users demo_env (codes "MKD x") reader).disk ≡ demo_disk
read_only-disk_example =
    read_only-disk no_users demo_env (codes "MKD x") reader (demo_user read_only) no_roots mkd-NoNul
      reader-IsSafe refl refl

logged_out-disk_example :
    (handle_ftp_command no_users demo_env (codes "dele ../a") (demo_session none)).disk ≡ demo_disk
logged_out-disk_example =
    logged_out-disk no_users demo_env (codes "dele ../a") (demo_session none) no_roots dele-NoNul
      nobody-IsSafe refl

handle_ftp_command-IsAnswered_example :
    IsAnswered reader (handle_ftp_command no_users demo_env (codes "MKD x") reader)
handle_ftp_command-IsAnswered_example =
    handle_ftp_command-IsAnswered no_users demo_env (codes "MKD x") reader

parent-NoNul : NoNul (codes "../../etc")
unfolding codes
parent-NoNul = ground arith

to_local_path-IsInFolder_example :
    IsInFolder (demo_user all) (to_local_path (demo_user all) (slash ∷ []) (codes "../../etc"))
unfolding path_of join
to_local_path-IsInFolder_example =
    to_local_path-IsInFolder (demo_user all) (slash ∷ []) (codes "../../etc") ([], tt, refl)

c_str-hidden_parent_example :
    c_str (to_local_path (demo_user all) (slash ∷ []) (hidden_parent []))
    ≡ path_of (is_absolute (codes "/srv" ++ slash ∷ [])) (folder (codes "/srv") ++ codes ".." ∷ [])
c_str-hidden_parent_example = c_str-hidden_parent (demo_user all) [] srv-NoNul tt

clean_path-Reduces_example :
    (root : Bytes) × (cs : List Bytes) × IsRoot true (codes "\\\\host/share/..") root
    × Reduces (not (is_empty root)) (components_behind root true (codes "\\\\host/share/..")) cs
    × IsReduced (not (is_empty root)) cs
    × (clean_path (codes "\\\\host/share/..") true backslash ≡ shown true backslash root cs)
clean_path-Reduces_example = clean_path-Reduces (codes "\\\\host/share/..") true backslash
