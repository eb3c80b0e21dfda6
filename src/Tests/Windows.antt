-- ===== src/Tests/Windows.antt =====
-- The theorems on the files of the Windows build at concrete inputs.
use fineftp_server.Base.{ℕ}
use fineftp_server.Base.{
  ◌∷◌, All, arith, bytes_eq, ◌-◌, ◌^◌, ◌<◌, ◌≡◌, ◌↔◌, refl, none, some, [], true, false, Bytes,
  codes,
}
use fineftp_server.Os.{OpenMode}
use fineftp_server.Permission.{all, denies, file_delete}
use fineftp_server.Users.{FtpUser}
use fineftp_server.CleanPath.{slash, is_letter, clean_path, join}
use fineftp_server.Session.{to_absolute_ftp_path}
use fineftp_server.Windows.Paths.{to_local_path, clean_path_native}
use fineftp_server.Windows.Paths.Escape.{IsName, climb, on_drive}
use fineftp_server.Windows.Status.{Machine, file_status_of, type, wide_path}
use fineftp_server.Windows.Manage.{handle_dele, handle_rmd, handle_mkd}
use fineftp_server.Windows.Rename.{handle_rnto}
use fineftp_server.Windows.Effect.{Renames, Deletes, Removes, Makes, handlers-IsAllowed}
use fineftp_server.Windows.Folder.{dir_content}
use fineftp_server.Windows.Folder.Listed.{names, dir_content-listed_on}
use fineftp_server.FileStatus.Order.{IsSorted}
use fineftp_server.FileStatus.Laws.{is_listed}
use fineftp_server.Users.{find}
use fineftp_server.CleanPath.{backslash}
use fineftp_server.Base.{◌++◌, if◌then◌else◌}
use fineftp_server.Windows.Manage.Escape.{handle_dele-escapes}
use fineftp_server.FileStatus.{status_from, is_regular_file}
use fineftp_server.Session.{Session}
use fineftp_server.Session.Demo.{demo_os, demo_session}
use fineftp_server.Windows.{Api, map_handle}
use fineftp_server.Windows.Calls.{IsBalanced}
use fineftp_server.Windows.Readable.{ReadableFile, Files, get, lock, fix_separators}
use fineftp_server.Windows.Readable.Leaks.{until_destroyed, fresh, get-IsBalanced}
use fineftp_server.Windows.Writeable.{good, close, open_writeable}
use fineftp_server.Windows.Writeable.Limits.{open_writeable-good}

-- A machine on which everything opens, and every file has five bytes.
abbrev small_files : Api
small_files = record {
  create_file = λ path access disposition. some 7;
  get_file_information_by_handle = λ h. some (0, 5);
  create_file_mapping = λ h high low. map_handle 8;
  map_view_of_file = λ h size. some 4096;
  set_file_pointer = λ h. 5;
}

abbrev no_files : Files
no_files = record { files = []; live = λ i. none; next = 0 }

get-IsBalanced_example :
    IsBalanced (
      until_destroyed
        (fresh
          (lock no_files (fix_separators (codes "C:/a")))
          (get small_files (codes "C:/a") no_files).file)
        (get small_files (codes "C:/a") no_files).calls)
    × ((i : ℕ) (file : ReadableFile)
        → lock no_files (fix_separators (codes "C:/a")) ≡ some (i, file)
        → get small_files (codes "C:/a") no_files
          ≡ record { file = some (i, file); files = no_files; calls = [] })
get-IsBalanced_example = get-IsBalanced small_files (codes "C:/a") no_files

abbrev appending : OpenMode
appending = record { app = true; binary = true }

open_writeable-good_example :
    ((good (open_writeable small_files (codes "C:/a") appending) ≡ true) ↔ (5 < 2 ^ 32 - 1))
    × IsBalanced (close (open_writeable small_files (codes "C:/a") appending)).calls
open_writeable-good_example =
    open_writeable-good small_files (codes "C:/a") appending 7 5 refl refl refl

abbrev user_of_srv : FtpUser
user_of_srv = record {
  password = [];
  local_root_path = on_drive b'C' (codes "ftp" ∷ codes "srv" ∷ []);
  permissions = all;
}

ftp_srv-IsName : All IsName (codes "ftp" ∷ codes "srv" ∷ [])
unfolding codes
ftp_srv-IsName =
    (((λ e. cc, λ e. cc, λ e. cc), ground arith), (((λ e. cc, λ e. cc, λ e. cc), ground arith), tt))

secret-IsName : IsName (codes "secret")
unfolding codes
secret-IsName = ((λ e. cc, λ e. cc, λ e. cc), ground arith)

c_letter : is_letter b'C' ≡ true
unfolding is_letter
c_letter = refl

-- A machine on which everything is a regular file, and that deletes nothing but remembers it.
abbrev some_machine : Machine demo_os
some_machine = record {
  conversion = record {
    wide_char_to_multi_byte = λ page s. s;
    multi_byte_to_wide_char = λ page s. s;
  };
  left_in_buffer = λ file. file;
  wstat64 =
      λ d p. some (record { st_mode = 0o100644; st_size = 1; st_mtime = 0; st_mtime_nsec = 0 });
  find_files = λ d p. some (codes ".", codes ".." ∷ []);
  move_file = λ p q d. (false, d);
  delete_file = λ p d. (true, (p, none) ∷ d);
  remove_directory = λ p d. (false, d);
  create_directory = λ p d. (false, d);
  get_last_error = λ d. 5;
  format_message = λ n. none;
}

abbrev served : Session demo_os
served = demo_session (some user_of_srv)

deletes_file : denies user_of_srv.permissions file_delete ≡ false
unfolding denies
deletes_file = refl

abbrev secret : Bytes
secret = on_drive b'C' (codes "secret" ∷ [])

secret_there : (file_status_of some_machine served.disk secret).is_ok ≡ true
unfolding file_status_of status_from
secret_there = refl

secret_regular : is_regular_file (type (file_status_of some_machine served.disk secret)) ≡ true
unfolding file_status_of status_from type is_regular_file
secret_regular = refl

handle_dele-escapes_example :
    (handle_dele some_machine (climb 2 (codes "secret")) served).disk
    ≡ (some_machine.delete_file (wide_path some_machine secret) served.disk).1
handle_dele-escapes_example =
    handle_dele-escapes some_machine served user_of_srv b'C' (codes "ftp" ∷ codes "srv" ∷ [])
      (codes "secret") refl refl deletes_file refl c_letter ftp_srv-IsName secret-IsName
      secret_there secret_regular

handlers-IsAllowed_example :
    Renames some_machine (codes "a") served (handle_rnto some_machine (codes "a") served)
    × Deletes some_machine (codes "a") served (handle_dele some_machine (codes "a") served)
    × Removes some_machine (codes "a") served (handle_rmd some_machine (codes "a") served)
    × Makes some_machine (codes "a") served (handle_mkd some_machine (codes "a") served)
handlers-IsAllowed_example = handlers-IsAllowed some_machine (codes "a") served

dir_content-listed_on_example :
    IsSorted (dir_content some_machine served.disk (codes "C:\\ftp"))
    × ((name : Bytes)
        → find name (dir_content some_machine served.disk (codes "C:\\ftp")) ≡ (
            if is_listed name
              (names some_machine served.disk (codes "C:\\ftp") (some (codes ".", codes ".." ∷ [])))
            then some
                (file_status_of some_machine served.disk (codes "C:\\ftp" ++ backslash ∷ name))
            else none))
dir_content-listed_on_example = dir_content-listed_on some_machine served.disk (codes "C:\\ftp")

-- RETR ..\..\secret
escape_run : to_local_path user_of_srv (slash ∷ []) (codes "..\\..\\secret") ≡ codes "C:\\secret"
unfolding to_local_path codes to_absolute_ftp_path clean_path clean_path_native bytes_eq join
escape_run = refl
