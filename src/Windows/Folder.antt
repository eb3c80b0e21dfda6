-- ===== src/Windows/Folder.antt =====
-- filesystem.cpp: `canOpenDir` and `dirContent` of the Windows build.
pub mod Listed
use fineftp_server.Base.{
  Bool, true, false, ◌&&◌, Option, none, some, List, [], ◌∷◌, ◌++◌, Bytes, ℕ, if◌then◌else◌,
}
use fineftp_server.CleanPath.{backslash}
use fineftp_server.Os.{Os}
use fineftp_server.FileStatus.{FileStatus, is_dir, is_opened, emplace}
use fineftp_server.Windows.Readable.{fix_separators}
use fineftp_server.Windows.StrConvert.{wide_to_utf8}
use fineftp_server.Windows.Status.{Machine, wide_path, file_status_of, type}

unfoldable pub find_file_path : Bytes → Bytes
unfolding fix_separators
find_file_path path = fix_separators (path ++ backslash ∷ b'*' ∷ [])

module _ {os : Os} (m : Machine os) (disk : os.Disk) where
  unfoldable pub can_open_dir : FileStatus → Bool
  can_open_dir f =
      if f.is_ok && is_dir (type f)
      then is_opened (m.find_files disk (wide_path m (find_file_path f.path)))
      else false

  -- What `WideToUtf8` returns; it does not look at whether the API failed.
  unfoldable pub file_name : List ℕ → Bytes
  file_name file = elim (wide_to_utf8 m.conversion file) [
    | none ↦ m.left_in_buffer file
    | some name ↦ name
  ]

  -- The loop.
  unfoldable pub read_files :
      Bytes → List (Bytes × FileStatus) → List (List ℕ) → List (Bytes × FileStatus)
  unfolding file_name
  read_files path content [] = content
  read_files path content (file ∷ files) =
      read_files path
        (emplace (file_name file) (file_status_of m disk (path ++ backslash ∷ file_name file))
          content)
        files

  unfoldable pub content_of : Bytes → Option (List ℕ × List (List ℕ)) → List (Bytes × FileStatus)
  unfolding read_files
  content_of path none = []
  content_of path (some (file, files)) = read_files path [] (file ∷ files)

  unfoldable pub dir_content : Bytes → List (Bytes × FileStatus)
  unfolding content_of
  dir_content path = content_of path (m.find_files disk (wide_path m (find_file_path path)))
