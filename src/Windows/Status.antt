-- ===== src/Windows/Status.antt =====
-- filesystem.cpp, `FileStatus`, and ftp_session.cpp, `GetLastErrorStr`, of the Windows build. What the
-- Windows API answers for a path is the record `Machine`; paths are wide strings.
use Prim.Native.Nat.{bit_and}
use fineftp_server.Base.{
  ℕ, Bool, ◌||◌, Option, none, some, List, [], ◌∷◌, Bytes, codes, ltb, ◌==◌, if◌then◌else◌,
}
use fineftp_server.Os.{Os, Stat, c_str}
use fineftp_server.FileStatus.{
  FileType, unknown, regular_file, dir, character_device, FileStatus, status_from,
}
use fineftp_server.Windows.StrConvert.{Conversion, utf8_to_wide}

pub record Machine (os : Os) : Type 0 where
  pub conversion : Conversion
  -- What is in the buffer of `WideToUtf8`, one byte too short for the terminator, after the API has
  -- failed for that.
  pub left_in_buffer : List ℕ → Bytes
  pub wstat64 : os.Disk → List ℕ → Option Stat
  -- The name that `FindFirstFileW` finds, unless it fails, and those that `FindNextFileW` finds then.
  pub find_files : os.Disk → List ℕ → Option (List ℕ × List (List ℕ))
  -- These return whether they succeeded, and the disk after the call.
  pub move_file : List ℕ → List ℕ → os.Disk → Bool × os.Disk
  pub delete_file : List ℕ → os.Disk → Bool × os.Disk
  pub remove_directory : List ℕ → os.Disk → Bool × os.Disk
  pub create_directory : List ℕ → os.Disk → Bool × os.Disk
  -- Of the last call, which left the disk like this.
  pub get_last_error : os.Disk → ℕ
  -- The text of an error, unless there is none.
  pub format_message : ℕ → Option Bytes

-- `std::iscntrl` in the "C" locale.
unfoldable pub is_control : ℕ → Bool
is_control c = ltb c 32 || c == 127

unfoldable pub remove_controls : Bytes → Bytes
unfolding is_control
remove_controls [] = []
remove_controls (c ∷ s) = let rest = remove_controls s in if is_control c then rest else c ∷ rest

unfoldable pub message_text : Option Bytes → Bytes
unfolding remove_controls
message_text none = []
message_text (some text) = remove_controls text

-- The string that `Utf8ToWide` makes, up to its terminator. It measures the same text that it then
-- converts, and so does not fail.
wide_from : Option (List ℕ) → List ℕ
wide_from none = []
wide_from (some text) = c_str text

module _ {os : Os} (m : Machine os) where
  unfoldable pub get_last_error_str : os.Disk → Bytes
  unfolding message_text
  get_last_error_str disk =
      let error = m.get_last_error disk in
      if error == 0 then [] else message_text (m.format_message error)

  unfoldable pub wide_path : Bytes → List ℕ
  unfolding wide_from
  wide_path path = wide_from (utf8_to_wide m.conversion path)

  -- The constructor.
  unfoldable pub file_status_of : os.Disk → Bytes → FileStatus
  unfolding wide_path status_from
  file_status_of disk path = status_from path (m.wstat64 disk (wide_path path))

type_of_mode : ℕ → FileType
type_of_mode mode =
    if mode == 0x8000
    then regular_file
    else if mode == 0x4000
    then dir
    else if mode == 0x2000
    then character_device
    else unknown

unfoldable pub type : FileStatus → FileType
unfolding type_of_mode
type f = if f.is_ok then type_of_mode (bit_and f.file_status.st_mode 0xf000) else unknown

permission_char : ℕ → ℕ → ℕ → ℕ
permission_char mode mask c = if bit_and mode mask == 0 then b'-' else c

unfoldable pub permission_string : FileStatus → Bytes
unfolding permission_char
permission_string f =
    let mode = f.file_status.st_mode in
    if f.is_ok
    then permission_char mode 0o400 b'r'
      ∷ permission_char mode 0o200 b'w'
      ∷ permission_char mode 0o100 b'x'
      ∷ permission_char mode 0o400 b'r'
      ∷ permission_char mode 0o200 b'w'
      ∷ permission_char mode 0o100 b'x'
      ∷ permission_char mode 0o400 b'r'
      ∷ permission_char mode 0o200 b'w'
      ∷ permission_char mode 0o100 b'x'
      ∷ []
    else codes "---------"
