-- ===== src/Windows/Paths.antt =====
-- filesystem.cpp and ftp_session.cpp: `cleanPathNative` and `toLocalPath` of the Windows build.
pub mod Escape
use fineftp_server.Base.{true, ◌∷◌, ◌++◌, Bytes}
use fineftp_server.Users.{FtpUser}
use fineftp_server.CleanPath.{slash, backslash, clean_path}
use fineftp_server.Session.{to_absolute_ftp_path}

unfoldable pub clean_path_native : Bytes → Bytes
clean_path_native path = clean_path path true backslash

-- For the user who is logged in.
unfoldable pub to_local_path : FtpUser → Bytes → Bytes → Bytes
unfolding clean_path_native
to_local_path user working_directory path =
    clean_path_native (user.local_root_path ++ slash ∷ to_absolute_ftp_path working_directory path)
