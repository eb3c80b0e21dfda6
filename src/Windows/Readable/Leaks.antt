-- ===== src/Windows/Readable/Leaks.antt =====
-- No handle and no view of a file is lost: what `get` takes is given back on every path without a
-- file, or by the destructor.
use fineftp_server.Base.{ℕ, ◌≡◌, refl, [], Option, none, some, List, ◌++◌, arith, Bytes}
use fineftp_server.Windows.{Api, Call}
use fineftp_server.Windows.Calls.{IsBalanced}
use fineftp_server.Windows.Readable.{
  ReadableFile, Files, quad_part, view_file, map_file, size_known, opened_file, open_file, enter,
  get_from, get, lock, fix_separators, close_view, close_handle, destroy_calls,
}

-- The calls, and those of the destructor if there is an object.
abbrev pub until_destroyed : Option ReadableFile → List Call → List Call
until_destroyed none calls = calls
until_destroyed (some f) calls = calls ++ destroy_calls f

open_file-IsBalanced :
    (api : Api) (path : Bytes)
    → IsBalanced (until_destroyed (open_file api path).0 (open_file api path).1)
unfolding open_file opened_file size_known map_file view_file destroy_calls close_view close_handle
    quad_part
open_file-IsBalanced api path r = ground arith

abbrev pub object : Option (ℕ × ReadableFile) → Option ReadableFile
object none = none
object (some (i, f)) = some f

-- The object that was made, unless there was one already.
abbrev pub fresh : Option (ℕ × ReadableFile) → Option (ℕ × ReadableFile) → Option ReadableFile
fresh none file = object file
fresh (some found) file = none

get_from-IsBalanced :
    (c : Files) (made : Option ReadableFile) (calls : List Call) (found : Option (ℕ × ReadableFile))
    → IsBalanced (until_destroyed made calls)
    → IsBalanced (
        until_destroyed
          (fresh found (get_from c (made, calls) found).file)
          (get_from c (made, calls) found).calls)
unfolding get_from enter
get_from-IsBalanced c none calls none h = h
get_from-IsBalanced c (some f) calls none h = h
get_from-IsBalanced c made calls (some found) h = λ r. refl

-- On every path through `get`, what it opens and maps it gives back before it returns no file, and
-- otherwise the destructor of the file gives it back, each handle and view exactly once; a file that
-- is there already is returned without a call, and the map stays as it is.
pub get-IsBalanced :
    (api : Api) (path : Bytes) (c : Files)
    → IsBalanced (
        until_destroyed
          (fresh (lock c (fix_separators path)) (get api path c).file)
          (get api path c).calls)
      × ((i : ℕ) (file : ReadableFile)
          → lock c (fix_separators path) ≡ some (i, file)
          → get api path c ≡ record { file = some (i, file); files = c; calls = [] })
unfolding get get_from
get-IsBalanced api path c = (
  get_from-IsBalanced c _ _ (lock c (fix_separators path))
      (open_file-IsBalanced api (fix_separators path)),
  λ i file e. rw e refl,
)
