-- ===== src/FileStatus.antt =====
-- fineftp-server/src/filesystem.{h,cpp}: `FileStatus` and `dirContent` of the Unix build. The mode
-- bits have the values of Linux, and `gmtime_r` and `localtime_r` are parameters.
pub mod Order
pub mod Laws
use Prim.Native.Nat.{bit_and}
use fineftp_server.Base.{
  ℕ, ◌+◌, ◌-◌, ◌/◌, ◌%◌, Bool, true, false, Option, none, some, List, [], ◌∷◌, ◌++◌, Bytes, codes,
  to_string, set_w, ltb, ◌==◌, if◌then◌else◌,
}
use fineftp_server.Os.{Os, Stat, c_str}

pub data FileType : Type 0 where
  unknown regular_file dir character_device block_device fifo symbolic_link socket : FileType

pub record FileStatus : Type 0 where
  pub path : Bytes
  pub is_ok : Bool
  pub file_status : Stat

abbrev no_status : Stat
no_status = record { st_mode = 0; st_size = 0; st_mtime = 0; st_mtime_nsec = 0 }

unfoldable pub status_from : Bytes → Option Stat → FileStatus
status_from path none = record { path = path; is_ok = false; file_status = no_status }
status_from path (some st) = record { path = path; is_ok = true; file_status = st }

-- The constructor.
unfoldable pub file_status_of : (os : Os) → os.Disk → Bytes → FileStatus
unfolding status_from
file_status_of os disk path = status_from path (os.stat disk (c_str path))

unfoldable pub type_of_mode : ℕ → FileType
type_of_mode m =
    if m == 0o100000
    then regular_file
    else if m == 0o040000
    then dir
    else if m == 0o020000
    then character_device
    else if m == 0o060000
    then block_device
    else if m == 0o010000
    then fifo
    else if m == 0o120000
    then symbolic_link
    else if m == 0o140000
    then socket
    else unknown

unfoldable pub type : FileStatus → FileType
unfolding type_of_mode
type f = if f.is_ok then type_of_mode (bit_and f.file_status.st_mode 0o170000) else unknown

unfoldable pub is_dir : FileType → Bool
is_dir dir = true
is_dir _ = false

unfoldable pub is_regular_file : FileType → Bool
is_regular_file regular_file = true
is_regular_file _ = false

unfoldable pub file_size : FileStatus → ℕ
file_size f = if f.is_ok then f.file_status.st_size else 0

permission_char : ℕ → ℕ → ℕ → ℕ
permission_char mode mask c = if bit_and mode mask == 0 then b'-' else c

unfoldable pub permission_string : FileStatus → Bytes
unfolding permission_char
permission_string f =
    let mode = f.file_status.st_mode in
    if f.is_ok
    then permission_char mode 0o400 b'r'
      ∷ permission_char mode 0o200 b'w'
      ∷ permission_char mode 0o100 b'x'
      ∷ permission_char mode 0o040 b'r'
      ∷ permission_char mode 0o020 b'w'
      ∷ permission_char mode 0o010 b'x'
      ∷ permission_char mode 0o004 b'r'
      ∷ permission_char mode 0o002 b'w'
      ∷ permission_char mode 0o001 b'x'
      ∷ []
    else codes "---------"

unfoldable pub owner_string : FileStatus → Bytes
owner_string f = codes "fineFTP"

unfoldable pub group_string : FileStatus → Bytes
group_string f = codes "fineFTP"

-- `struct tm`: the year counts from 1900, the month from 0.
pub record Tm : Type 0 where
  pub tm_year : ℕ
  pub tm_mon : ℕ
  pub tm_mday : ℕ
  pub tm_hour : ℕ
  pub tm_min : ℕ
  pub tm_sec : ℕ

abbrev month_names : List Bytes
month_names =
    codes "Jan"
    ∷ codes "Feb"
    ∷ codes "Mar"
    ∷ codes "Apr"
    ∷ codes "May"
    ∷ codes "Jun"
    ∷ codes "Jul"
    ∷ codes "Aug"
    ∷ codes "Sep"
    ∷ codes "Oct"
    ∷ codes "Nov"
    ∷ codes "Dec"
    ∷ []

-- `std::array::at`, which throws out of range.
at : List Bytes → ℕ → Option Bytes
at [] i = none
at (x ∷ xs) i = let rest = at xs (i - 1) in if i == 0 then some x else rest

append_date : Bytes → Option Bytes → Option Bytes
append_date date none = none
append_date date (some month) = some (month ++ date)

-- The `setfill` of the minutes comes too late for the hours, which keep the blank.
unfoldable pub time_string : (ℕ → Tm) → ℕ → FileStatus → Option Bytes
unfolding at append_date
time_string gmtime current_year f =
    let t = gmtime f.file_status.st_mtime in
    let date =
      if t.tm_year == current_year
      then set_w 3 b' ' (to_string t.tm_mday)
        ++ codes " "
        ++ set_w 2 b' ' (to_string t.tm_hour)
        ++ codes ":"
        ++ set_w 2 b'0' (to_string t.tm_min)
      else set_w 3 b' ' (to_string t.tm_mday) ++ codes "  " ++ to_string (t.tm_year + 1900) in
    if f.is_ok then append_date date (at month_names t.tm_mon) else some (codes "Jan  1 1970")

-- `std::round(ns / 1000000)`, with the seconds that this carries over.
unfoldable pub round_ms : ℕ → ℕ
round_ms ns = (ns + 500_000) / 1_000_000

unfoldable pub generalized_time_string : (ℕ → Tm) → FileStatus → Bytes
unfolding round_ms
generalized_time_string gmtime f =
    let ms = round_ms f.file_status.st_mtime_nsec in
    let time_ms = ms % 1000 in
    let t = gmtime (f.file_status.st_mtime + ms / 1000) in
    let date =
      set_w 4 b' ' (to_string (t.tm_year + 1900))
      ++ set_w 2 b'0' (to_string (t.tm_mon + 1))
      ++ set_w 2 b'0' (to_string t.tm_mday)
      ++ set_w 2 b'0' (to_string t.tm_hour)
      ++ set_w 2 b'0' (to_string t.tm_min)
      ++ set_w 2 b'0' (to_string t.tm_sec) in
    let fraction = if ltb 0 time_ms then codes "." ++ set_w 3 b'0' (to_string time_ms) else [] in
    if f.is_ok then date ++ fraction else codes "19700101000000"

unfoldable pub is_opened {ℓ} : {A : Type ℓ} → Option A → Bool
is_opened none = false
is_opened (some a) = true

unfoldable pub can_open_dir : (os : Os) → os.Disk → FileStatus → Bool
unfolding is_opened
can_open_dir os disk f =
    if f.is_ok
    then (if is_dir (type f) then is_opened (os.opendir disk (c_str f.path)) else false)
    else false

-- `operator<` of two strings.
unfoldable pub bytes_lt : Bytes → Bytes → Bool
bytes_lt [] [] = false
bytes_lt [] (b ∷ t) = true
bytes_lt (a ∷ s) [] = false
bytes_lt (a ∷ s) (b ∷ t) =
    let rest = bytes_lt s t in if ltb a b then true else if ltb b a then false else rest

-- `std::map::emplace`: in the order of the keys, and a key that is there stays as it is.
unfoldable pub emplace {ℓ} : {V : Type ℓ} → Bytes → V → List (Bytes × V) → List (Bytes × V)
unfolding bytes_lt
emplace k v [] = (k, v) ∷ []
emplace k v ((j, w) ∷ m) =
    if bytes_lt k j
    then (k, v) ∷ (j, w) ∷ m
    else if bytes_lt j k
    then (j, w) ∷ emplace k v m
    else (j, w) ∷ m

module _ (os : Os) (disk : os.Disk) (path : Bytes) where
  -- The loop over the names.
  read_dir : List (Bytes × FileStatus) → List Bytes → List (Bytes × FileStatus)
  read_dir content [] = content
  read_dir content (name ∷ names) =
      read_dir (emplace name (file_status_of os disk (path ++ codes "/" ++ name)) content) names

  content_of : Option (List Bytes) → List (Bytes × FileStatus)
  unfolding read_dir
  content_of none = []
  content_of (some names) = read_dir [] names

  unfoldable pub dir_content : List (Bytes × FileStatus)
  unfolding content_of
  dir_content = content_of (os.opendir disk (c_str path))
