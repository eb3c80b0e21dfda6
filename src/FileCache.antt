-- ===== src/FileCache.antt =====
-- fineftp-server/src/unix/file_man.{h,cpp}, `ReadableFile`: the files that are mapped, under their
-- paths. An object is a number; `live` holds those with a shared pointer left, and a weak pointer
-- locks exactly these. Each definition is what happens under one hold of the mutex.
pub mod Laws
use fineftp_server.Base.{
  ℕ, ◌+◌, Option, none, some, List, [], ◌∷◌, Bytes, bytes_eq, ltb, ◌==◌, if◌then◌else◌,
}
use fineftp_server.Os.{Os, Opened, c_str}
use fineftp_server.Users.{find, empty}

-- `data` is null for a file that is empty.
pub record ReadableFile : Type 0 where
  pub path : Bytes
  pub size : ℕ
  pub bytes : Option Bytes

pub record Files : Type 0 where
  pub files : List (Bytes × ℕ)
  pub live : ℕ → Option ReadableFile
  pub next : ℕ

-- `std::map::erase`.
unfoldable pub erase {ℓ} : {V : Type ℓ} → Bytes → List (Bytes × V) → List (Bytes × V)
erase k [] = []
erase k ((j, v) ∷ m) = if bytes_eq j k then erase k m else (j, v) ∷ erase k m

-- `files[path] = …`.
unfoldable pub assign {ℓ} : {V : Type ℓ} → Bytes → V → List (Bytes × V) → List (Bytes × V)
assign k v [] = (k, v) ∷ []
assign k v ((j, w) ∷ m) = if bytes_eq j k then (j, v) ∷ m else (j, w) ∷ assign k v m

abbrev pub update {ℓ} : {A : Type ℓ} → (ℕ → A) → ℕ → A → ℕ → A
update f i a j = if i == j then a else f j

-- `files.find` and `lock`.
lock_from : Files → Option ℕ → Option (ℕ × ReadableFile)
lock_from c none = none
lock_from c (some i) = elim (c.live i) [ none ↦ none | some f ↦ some (i, f) ]

unfoldable pub lock : Files → Bytes → Option (ℕ × ReadableFile)
unfolding lock_from
lock c path = lock_from c (find path c.files)

-- A file of size 0 is not mapped; a mapping that fails gives no file.
map_file : Bytes → ℕ → Option Bytes → Option ReadableFile
map_file path size mapped =
    if ltb 0 size
    then elim mapped [
      | none ↦ none
      | some content ↦ some (record { path = path; size = size; bytes = some content })
    ]
    else some (record { path = path; size = size; bytes = none })

read_file : Bytes → Option Opened → Option ReadableFile
unfolding map_file
read_file path none = none
read_file path (some h) = elim h.fstat_size [ none ↦ none | some n ↦ map_file path n h.mmap ]

enter : Files → Option ReadableFile → Option (ℕ × ReadableFile) × Files
enter c none = (none, c)
enter c (some f) = (
  some (c.next, f),
  record c {
    files = assign f.path c.next c.files;
    live = update c.live c.next (some f);
    next = c.next + 1;
  },
)

get_from :
    Files → Option ReadableFile → Option (ℕ × ReadableFile) → Option (ℕ × ReadableFile) × Files
unfolding enter
get_from c fresh (some found) = (some found, c)
get_from c fresh none = enter c fresh

-- `ReadableFile::get`.
unfoldable pub get : (os : Os) → os.Disk → Bytes → Files → Option (ℕ × ReadableFile) × Files
unfolding lock read_file get_from
get os disk path c = get_from c (read_file path (os.open_read disk (c_str path))) (lock c path)

-- The last shared pointer to an object is dropped: from here on no weak pointer to it locks.
unfoldable pub expire : ℕ → Files → Files
expire i c = record c { live = update c.live i none }

-- The destructor's critical section, which comes later.
unfoldable pub erase_path : Bytes → Files → Files
erase_path path c = if empty path then c else record c { files = erase path c.files }
