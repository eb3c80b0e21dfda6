-- ===== src/Windows/Folder/Listed.antt =====
-- filesystem.cpp: what `dirContent` of the Windows build returns.
use fineftp_server.Base.{
  ℕ, ◌≡◌, refl, Option, none, some, List, [], ◌∷◌, ◌++◌, Bytes, Bool, arith, bytes_eq_iff,
  if◌then◌else◌,
}
use mathlib.Core.List.{map}
use fineftp_server.CleanPath.{backslash}
use fineftp_server.Users.{find}
use fineftp_server.Os.{Os}
use fineftp_server.FileStatus.{FileStatus, emplace}
use fineftp_server.FileStatus.Order.{IsSorted, or_else, emplace-IsSorted, find-emplace}
use fineftp_server.FileStatus.Laws.{contains, is_listed}
use fineftp_server.Windows.Status.{Machine, wide_path, file_status_of}
use fineftp_server.Windows.Folder.{find_file_path, file_name, read_files, content_of, dir_content}

module _ {os : Os} (m : Machine os) (disk : os.Disk) (path : Bytes) where
  -- The names that Windows finds, as they are converted.
  abbrev pub names : Option (List ℕ × List (List ℕ)) → Option (List Bytes)
  names none = none
  names (some (file, files)) = some (map (file_name m disk) (file ∷ files))

  abbrev pub entry : Bytes → FileStatus
  entry name = file_status_of m disk (path ++ backslash ∷ name)

  abbrev entry_if : Bool → Bytes → Option FileStatus
  entry_if b name = if b then some (entry name) else none

  read_files-IsSorted :
      (content : List (Bytes × FileStatus)) (files : List (List ℕ))
      → IsSorted content
      → IsSorted (read_files m disk path content files)
  unfolding read_files
  read_files-IsSorted content [] h = h
  read_files-IsSorted content (f ∷ files) h =
      let name = file_name m disk f in
      read_files-IsSorted (emplace name (entry name) content) files
        (emplace-IsSorted name (entry name) content h)

  find-read_files :
      (content : List (Bytes × FileStatus)) (files : List (List ℕ)) (name : Bytes)
      → IsSorted content
      → find name (read_files m disk path content files)
        ≡ or_else (find name content) (entry_if (contains name (map (file_name m disk) files)) name)
  unfolding read_files
  find-read_files content [] name h = ground arith
  find-read_files content (f ∷ files) name h =
      let n = file_name m disk f in
      let next = emplace n (entry n) content in
      ground (
        arith,
        find-read_files next files name (emplace-IsSorted n (entry n) content h),
        find-emplace name n (entry n) content h,
        bytes_eq_iff n name,
      )

  content_of-listed :
      (found : Option (List ℕ × List (List ℕ)))
      → IsSorted (content_of m disk path found)
        × ((name : Bytes)
            → find name (content_of m disk path found)
              ≡ entry_if (is_listed name (names found)) name)
  unfolding content_of find
  content_of-listed none = (tt, λ name. refl)
  content_of-listed (some (file, files)) = (
    read_files-IsSorted [] (file ∷ files) tt,
    λ name. simp (find-read_files [] (file ∷ files) name tt),
  )

  -- On Windows, too, the names come in strictly ascending order, so each once; and what there is under
  -- a name is the status of the path that is the directory, a backslash and the name, for the names
  -- that `FindFirstFileW` and `FindNextFileW` give, as `WideToUtf8` returns them, and nothing for all
  -- others. Where `FindFirstFileW` fails there is no content.
  pub dir_content-listed_on :
      IsSorted (dir_content m disk path)
      × ((name : Bytes)
          → find name (dir_content m disk path) ≡ (
              if is_listed name (names (m.find_files disk (wide_path m (find_file_path path))))
              then some (file_status_of m disk (path ++ backslash ∷ name))
              else none))
  unfolding dir_content
  dir_content-listed_on = content_of-listed (m.find_files disk (wide_path m (find_file_path path)))
