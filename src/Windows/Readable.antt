-- ===== src/Windows/Readable.antt =====
-- win32/file_man.{h,cpp}, `ReadableFile`: the files that are mapped, under their paths. As in the Unix
-- build, an object is a number and `live` holds those with a shared pointer left.
pub mod Leaks
use Prim.Native.Nat.{bit_or}
use mathlib.Core.List.{map}
use fineftp_server.Base.{
  ℕ, ◌+◌, ◌*◌, ◌^◌, Option, none, some, List, [], ◌∷◌, ◌++◌, Bytes, ◌==◌, if◌then◌else◌,
}
use fineftp_server.Users.{find, empty}
use fineftp_server.CleanPath.{slash, backslash}
use fineftp_server.Os.{c_str}
use fineftp_server.FileCache.{erase, assign, update}
use fineftp_server.Windows.{
  MapHandle, invalid, null, map_handle, CreationDisposition, open_existing, Api, Resource, handle,
  view, Call, takes, gives_back,
}

abbrev pub generic_read : ℕ
generic_read = 0x8000_0000

-- `data` is the address of the view; each member is `none` where the object holds nothing.
pub record ReadableFile : Type 0 where
  pub path : Bytes
  pub size : ℕ
  pub data_view : Option ℕ
  pub file_handle : Option ℕ
  pub mapping_handle : Option ℕ

pub record Files : Type 0 where
  pub files : List (Bytes × ℕ)
  pub live : ℕ → Option ReadableFile
  pub next : ℕ

unfoldable pub fix_separators : Bytes → Bytes
fix_separators path = map (λ c. if c == slash then backslash else c) path

-- `LARGE_INTEGER` from its halves.
unfoldable pub quad_part : ℕ → ℕ → ℕ
quad_part high low = high * 2 ^ 32 + low

-- The object that is made, if one is, and the calls after `CreateFile`.
abbrev Made : Type 0
Made = Option ReadableFile × List Call

view_file : Bytes → ℕ → ℕ → ℕ → Option ℕ → Made
view_file path size h m none = (none, gives_back (handle m) ∷ gives_back (handle h) ∷ [])
view_file path size h m (some address) = (
  some (record {
    path = path;
    size = size;
    data_view = some address;
    file_handle = some h;
    mapping_handle = some m;
  }),
  takes (view address) ∷ [],
)

map_file : Api → Bytes → ℕ → ℕ → MapHandle → Made
unfolding view_file
map_file api path size h invalid = (none, gives_back (handle h) ∷ [])
map_file api path size h null = (none, gives_back (handle h) ∷ [])
map_file api path size h (map_handle m) =
    let (made, calls) = view_file path size h m (api.map_view_of_file m size) in
    (made, takes (handle m) ∷ calls)

-- A file of size 0 is not mapped.
size_known : Api → Bytes → ℕ → Option (ℕ × ℕ) → Made
unfolding map_file quad_part
size_known api path h none = (none, gives_back (handle h) ∷ [])
size_known api path h (some (high, low)) =
    let size = quad_part high low in
    if size == 0
    then (
      some (record {
        path = path;
        size = size;
        data_view = none;
        file_handle = some h;
        mapping_handle = none;
      }),
      [],
    )
    else map_file api path size h (api.create_file_mapping h high low)

opened_file : Api → Bytes → Option ℕ → Made
unfolding size_known
opened_file api path none = (none, [])
opened_file api path (some h) =
    let (made, calls) = size_known api path h (api.get_file_information_by_handle h) in
    (made, takes (handle h) ∷ calls)

unfoldable pub open_file : Api → Bytes → Made
unfolding opened_file
open_file api path = opened_file api path (api.create_file (c_str path) generic_read open_existing)

lock_from : Files → Option ℕ → Option (ℕ × ReadableFile)
lock_from c none = none
lock_from c (some i) = elim (c.live i) [ none ↦ none | some f ↦ some (i, f) ]

-- `files.find` and `lock`.
unfoldable pub lock : Files → Bytes → Option (ℕ × ReadableFile)
unfolding lock_from
lock c path = lock_from c (find path c.files)

-- What `get` returns, the map after it, and the calls.
pub record Got : Type 0 where
  pub file : Option (ℕ × ReadableFile)
  pub files : Files
  pub calls : List Call

enter : Files → Made → Got
enter c (none, calls) = record { file = none; files = c; calls = calls }
enter c (some f, calls) = record {
  file = some (c.next, f);
  files = record {
    files = assign f.path c.next c.files;
    live = update c.live c.next (some f);
    next = c.next + 1;
  };
  calls = calls;
}

get_from : Files → Made → Option (ℕ × ReadableFile) → Got
unfolding enter
get_from c made none = enter c made
get_from c made (some found) = record { file = some found; files = c; calls = [] }

-- `ReadableFile::get`.
unfoldable pub get : Api → Bytes → Files → Got
unfolding fix_separators lock open_file get_from
get api file_path c =
    let path = fix_separators file_path in get_from c (open_file api path) (lock c path)

close_view : Option ℕ → List Call
close_view none = []
close_view (some address) = gives_back (view address) ∷ []

close_handle : Option ℕ → List Call
close_handle none = []
close_handle (some h) = gives_back (handle h) ∷ []

-- The destructor: its calls,
unfoldable pub destroy_calls : ReadableFile → List Call
unfolding close_view close_handle
destroy_calls f =
    close_view f.data_view ++ close_handle f.mapping_handle ++ close_handle f.file_handle

-- and the map after it.
unfoldable pub erase_path : Bytes → Files → Files
erase_path path c = if empty path then c else record c { files = erase path c.files }
