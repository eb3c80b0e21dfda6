-- ===== src/FileStatus/Laws.antt =====
-- filesystem.cpp: what `dirContent` returns.
use fineftp_server.Base.{
  ◌≡◌, refl, Bool, false, ◌||◌, Option, none, some, List, [], ◌∷◌, ◌++◌, arith, Bytes, codes,
  bytes_eq, bytes_eq_iff, if◌then◌else◌,
}
use fineftp_server.Users.{find}
use fineftp_server.Os.{Os, c_str}
use fineftp_server.FileStatus.{
  FileStatus, file_status_of, emplace, read_dir, content_of, dir_content,
}
use fineftp_server.FileStatus.Order.{IsSorted, or_else, emplace-IsSorted, find-emplace}

-- Whether `readdir` gives the name.
abbrev pub contains : Bytes → List Bytes → Bool
contains name [] = false
contains name (n ∷ names) = bytes_eq n name || contains name names

abbrev pub is_listed : Bytes → Option (List Bytes) → Bool
is_listed name none = false
is_listed name (some names) = contains name names

module _ (os : Os) (disk : os.Disk) (path : Bytes) where
  abbrev pub entry : Bytes → FileStatus
  entry name = file_status_of os disk (path ++ codes "/" ++ name)

  abbrev pub entry_if : Bool → Bytes → Option FileStatus
  entry_if b name = if b then some (entry name) else none

  read_dir-IsSorted :
      (content : List (Bytes × FileStatus)) (names : List Bytes)
      → IsSorted content
      → IsSorted (read_dir os disk path content names)
  unfolding read_dir
  read_dir-IsSorted content [] h = h
  read_dir-IsSorted content (n ∷ names) h =
      read_dir-IsSorted (emplace n (entry n) content) names (emplace-IsSorted n (entry n) content h)

  find-read_dir :
      (content : List (Bytes × FileStatus)) (names : List Bytes) (name : Bytes)
      → IsSorted content
      → find name (read_dir os disk path content names)
        ≡ or_else (find name content) (entry_if (contains name names) name)
  unfolding read_dir
  find-read_dir content [] name h = ground arith
  find-read_dir content (n ∷ names) name h =
      let next = emplace n (entry n) content in
      ground (
        arith,
        find-read_dir next names name (emplace-IsSorted n (entry n) content h),
        find-emplace name n (entry n) content h,
        bytes_eq_iff n name,
      )

  content_of-listed :
      (opened : Option (List Bytes))
      → IsSorted (content_of os disk path opened)
        × ((name : Bytes)
            → find name (content_of os disk path opened) ≡ entry_if (is_listed name opened) name)
  unfolding content_of find
  content_of-listed none = (tt, λ name. refl)
  content_of-listed (some names) =
      (read_dir-IsSorted [] names tt, λ name. simp (find-read_dir [] names name tt))

  -- The names come in strictly ascending order, so each once; and what there is under a name is the
  -- status of the file of that name in the directory, for the names that `readdir` gives, and
  -- nothing for all others. A directory that cannot be opened has no content.
  pub dir_content-listed :
      IsSorted (dir_content os disk path)
      × ((name : Bytes)
          → find name (dir_content os disk path) ≡ (
              if is_listed name (os.opendir disk (c_str path))
              then some (file_status_of os disk (path ++ codes "/" ++ name))
              else none))
  unfolding dir_content
  dir_content-listed = content_of-listed (os.opendir disk (c_str path))
