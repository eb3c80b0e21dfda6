-- ===== src/FileCache/Laws.antt =====
-- What `ReadableFile::get` promises, and what its map keeps to.
use fineftp_server.Base.{
  ℕ, ◌<◌, ◌≡◌, ◌≢◌, refl, ◌∙◌, Option, none, some, List, [], ◌∷◌, arith, Bytes, bytes_eq,
  bytes_eq_iff, Option-cases, inl, inr, if◌then◌else◌,
}
use fineftp_server.Os.{Os, Opened, c_str}
use fineftp_server.Users.{find}
use fineftp_server.FileCache.{
  ReadableFile, Files, erase, assign, lock_from, lock, map_file, read_file, enter, get_from, get,
  expire, erase_path,
}

-- A path stands for an object that was made before, and a live object has the path that it is under.
pub record IsFiles (c : Files) : Type 0 where
  pub known : (path : Bytes) (i : ℕ) → find path c.files ≡ some i → i < c.next
  pub named :
      (path : Bytes) (i : ℕ) (f : ReadableFile)
      → find path c.files ≡ some i
      → c.live i ≡ some f
      → f.path ≡ path

find-assign :
    {V : Type 0} (k j : Bytes) (v : V) (m : List (Bytes × V))
    → find j (assign k v m) ≡ (if bytes_eq k j then some v else find j m)
unfolding find assign
find-assign k j v [] = refl
find-assign k j v ((i, w) ∷ m) =
    ground (arith, find-assign k j v m, bytes_eq_iff i k, bytes_eq_iff k j, bytes_eq_iff i j)

find-erase :
    {V : Type 0} (k j : Bytes) (m : List (Bytes × V))
    → find j (erase k m) ≡ (if bytes_eq k j then none else find j m)
unfolding find erase
find-erase k j [] = ground arith
find-erase k j ((i, w) ∷ m) =
    ground (arith, find-erase k j m, bytes_eq_iff i k, bytes_eq_iff k j, bytes_eq_iff i j)

read_file-path :
    (path : Bytes) (o : Option Opened) {f : ReadableFile}
    → read_file path o ≡ some f
    → f.path ≡ path
unfolding read_file map_file
read_file-path path o e = ground arith

enter-IsFiles : (c : Files) (f : ReadableFile) → IsFiles c → IsFiles (enter c (some f)).1
unfolding enter
enter-IsFiles c f h = record {
  known = λ p i e. ground (arith, h.known p i, find-assign f.path p c.next c.files, e);
  named = λ p i g e l. ground (
    arith,
    h.known p i,
    h.named p i g,
    find-assign f.path p c.next c.files,
    bytes_eq_iff f.path p,
    e,
    l,
  );
}

-- What can happen to the map of files.
pub data Event (os : Os) : Type 0 where
  opens : os.Disk → Bytes → Event os
  -- The last pointer to an object is dropped.
  drops : ℕ → Event os
  -- The destructor of an object with this path has the mutex.
  destroys : Bytes → Event os

pub happens : (os : Os) → Event os → Files → Files
happens os (opens disk path) c = (get os disk path c).1
happens os (drops i) c = expire i c
happens os (destroys path) c = erase_path path c

get_from-IsFiles :
    (c : Files) (fresh : Option ReadableFile) (found : Option (ℕ × ReadableFile))
    → IsFiles c
    → IsFiles (get_from c fresh found).1
unfolding get_from enter
get_from-IsFiles c fresh (some r) h = h
get_from-IsFiles c none none h = h
get_from-IsFiles c (some f) none h = enter-IsFiles c f h

-- Opening a file, dropping one and the destructor of one each keep the map sound: every path in it
-- stands for an object that was made, and a live object is found only under its own path.
pub happens-IsFiles : (os : Os) (e : Event os) (c : Files) → IsFiles c → IsFiles (happens os e c)
unfolding happens get expire erase_path
happens-IsFiles os (opens disk path) c h = get_from-IsFiles c _ _ h
happens-IsFiles os (drops i) c h = record {
  known = h.known;
  named = λ p j f e l. ground (arith, h.named p j f e, l);
}
happens-IsFiles os (destroys path) c h = record {
  known = λ p i e. ground (arith, h.known p i, find-erase path p c.files, e);
  named = λ p i f e l. ground (arith, h.named p i f, find-erase path p c.files, e, l);
}

lock_from-lem :
    (c : Files) (o : Option ℕ) {i : ℕ} {f : ReadableFile}
    → lock_from c o ≡ some (i, f)
    → (o ≡ some i) × (c.live i ≡ some f)
unfolding lock_from
lock_from-lem c o e = ground arith

get_from_found :
    (path : Bytes) (c : Files) (fresh : Option ReadableFile) (found : Option (ℕ × ReadableFile))
    → IsFiles c
    → lock c path ≡ found
    → ((g : ReadableFile) → fresh ≡ some g → g.path ≡ path)
    → (i : ℕ) (f : ReadableFile) → (get_from c fresh found).0 ≡ some (i, f)
    → (f.path ≡ path) × (lock (get_from c fresh found).1 path ≡ some (i, f))
unfolding get_from enter lock
get_from_found path c fresh (some r) h l named i f e =
    let (a, b) = lock_from-lem c (find path c.files) (l ∙ e) in (h.named path i f a b, l ∙ e)
get_from_found path c none none h l named i f e = cc
get_from_found path c (some g) none h l named i f e =
    ground
      (arith, named g refl, find-assign g.path path c.next c.files, bytes_eq_iff g.path path, e)

get_from_other :
    (path other : Bytes) (c : Files) (fresh : Option ReadableFile)
    (found : Option (ℕ × ReadableFile))
    → IsFiles c
    → ((g : ReadableFile) → fresh ≡ some g → g.path ≡ path)
    → other ≢ path
    → lock (get_from c fresh found).1 other ≡ lock c other
unfolding get_from enter lock lock_from
get_from_other path other c fresh (some r) h named n = refl
get_from_other path other c none none h named n = refl
get_from_other path other c (some g) none h named n = elim (Option-cases (find other c.files)) [
  | inl e ↦ ground (
    arith,
    e,
    named g refl,
    n,
    find-assign g.path other c.next c.files,
    bytes_eq_iff g.path other,
  )
  | inr (i, e) ↦ ground (
    arith,
    e,
    h.known other i e,
    named g refl,
    n,
    find-assign g.path other c.next c.files,
    bytes_eq_iff g.path other,
  )
]

opened : (os : Os) → os.Disk → Bytes → Option ReadableFile
opened os disk path = read_file path (os.open_read disk (c_str path))

get_lem :
    (os : Os) (disk : os.Disk) (path : Bytes) (c : Files)
    → get os disk path c ≡ get_from c (opened os disk path) (lock c path)
unfolding get get_from lock read_file opened
get_lem os disk path c = refl

-- From a sound map, the file that `get` returns is the one of the path, and a second `get` on the
-- path returns the same object and leaves the map as it is, whatever became of the disk.
pub get_twice :
    (os : Os) (disk disk' : os.Disk) (path : Bytes) (c : Files) (i : ℕ) (f : ReadableFile)
    → IsFiles c
    → (get os disk path c).0 ≡ some (i, f)
    → (f.path ≡ path)
      × (get os disk' path (get os disk path c).1 ≡ (some (i, f), (get os disk path c).1))
unfolding get_from
get_twice os disk disk' path c i f h e =
    let (p, l) =
      get_from_found path c (opened os disk path) (lock c path) h refl
        (λ g e'. unfold opened in read_file-path path _ e') i f
        (rw (get_lem os disk path c) at e) in
    (p, rw (get_lem os disk path c, get_lem os disk' path, l) refl)

-- From a sound map, `get` on one path leaves the live object of every other path.
pub get-lock :
    (os : Os) (disk : os.Disk) (path other : Bytes) (c : Files)
    → IsFiles c
    → other ≢ path
    → lock (get os disk path c).1 other ≡ lock c other
get-lock os disk path other c h n = rw (get_lem os disk path c) (
    get_from_other path other c (opened os disk path) (lock c path) h
      (λ g e. unfold opened in read_file-path path _ e) n)

-- A file that is not mapped yet, and that opens with its size and maps with its bytes.
pub get-unmapped :
    (os : Os) (disk : os.Disk) (path : Bytes) (c : Files) (h : Opened) (size : ℕ) (content : Bytes)
    → lock c path ≡ none
    → os.open_read disk (c_str path) ≡ some h
    → h.fstat_size ≡ some size
    → 0 < size
    → h.mmap ≡ some content
    → (get os disk path c).0
      ≡ some (c.next, record { path = path; size = size; bytes = some content })
unfolding get read_file map_file get_from enter
get-unmapped os disk path c h size content l o f p m = ground (arith, l, o, f, p, m)
