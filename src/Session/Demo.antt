-- ===== src/Session/Demo.antt =====
-- A small machine to run the model on: its disk is a list of paths, each a directory, or a file
-- with its content.
use fineftp_server.Base.{ℕ, true, false, Option, none, some, List, [], ◌∷◌, Bytes, codes, length}
use fineftp_server.Permission.{Permission}
use fineftp_server.Users.{FtpUser, find}
use fineftp_server.CleanPath.{slash}
use fineftp_server.Os.{Os, Stat, Opened}
use fineftp_server.FileCache.{Files, erase}
use fineftp_server.Session.{Session, Env, v4, closed}

-- `none` is a directory.
abbrev pub DemoDisk : Type 0
DemoDisk = List (Bytes × Option Bytes)

abbrev demo_stat : Option (Option Bytes) → Option Stat
demo_stat none = none
demo_stat (some none) =
    some (record { st_mode = 0o040755; st_size = 4096; st_mtime = 0; st_mtime_nsec = 0 })
demo_stat (some (some content)) =
    some (record { st_mode = 0o100644; st_size = length content; st_mtime = 0; st_mtime_nsec = 0 })

abbrev demo_opendir : Option (Option Bytes) → Option (List Bytes)
demo_opendir none = none
demo_opendir (some none) = some (codes "." ∷ codes ".." ∷ [])
demo_opendir (some (some content)) = none

abbrev demo_open : Option (Option Bytes) → Option Opened
demo_open none = none
demo_open (some none) = none
demo_open (some (some content)) =
    some (record { fstat_size = some (length content); mmap = some content })

abbrev demo_tellg : Option (Option Bytes) → Option (Option ℕ)
demo_tellg none = none
demo_tellg (some none) = none
demo_tellg (some (some content)) = some (some (length content))

abbrev pub demo_os : Os
demo_os = record {
  Disk = DemoDisk;
  stat = λ d p. demo_stat (find p d);
  opendir = λ d p. demo_opendir (find p d);
  open_read = λ d p. demo_open (find p d);
  tellg = λ d p. demo_tellg (find p d);
  fstream = λ p mode d. (true, (p, some []) ∷ erase p d);
  rename = λ p q d. (false, d);
  unlink = λ p d. (true, erase p d);
  rmdir = λ p d. (true, erase p d);
  mkdir = λ p mode d. (true, (p, none) ∷ d);
}

abbrev pub demo_user : Permission → FtpUser
demo_user permissions = record {
  password = codes "pw";
  local_root_path = codes "/srv";
  permissions = permissions;
}

abbrev pub demo_env : Env
demo_env = record {
  local_endpoint = some (v4 127 0 0 1);
  open_ok = true;
  bind_ok = true;
  listen_ok = true;
  port = 2022;
  draws = λ n. n;
  gmtime =
      λ t. record { tm_year = 70; tm_mon = 0; tm_mday = 1; tm_hour = 0; tm_min = 0; tm_sec = 0 };
}

abbrev pub no_files : Files
no_files = record { files = []; live = λ i. none; next = 0 }

abbrev pub demo_disk : DemoDisk
demo_disk =
    (codes "/srv", none) ∷ (codes "/srv/a", some (codes "hello")) ∷ (codes "/srv/d", none) ∷ []

abbrev pub demo_session : Option FtpUser → Session demo_os
demo_session user = record {
  logged_in_user = user;
  last_command = [];
  rename_from_path = [];
  username_for_login = [];
  data_type_binary = false;
  shutdown_requested = false;
  ftp_working_directory = slash ∷ [];
  data_acceptor = closed;
  posted = [];
  accepting = [];
  reading = true;
  thrown = false;
  drawn = 0;
  files = no_files;
  disk = demo_disk;
}
