-- ===== src/Os.antt =====
-- The operating system, as fineftp-server/src calls it: the answers of `stat`, `opendir`, `open`,
-- `rename`, … on a disk. These calls take C strings, which end at the first NUL byte.
use fineftp_server.Base.{ℕ, Bool, Option, List, [], ◌∷◌, Bytes, ◌==◌, if◌then◌else◌}

-- The members of `struct stat` that the program reads; the times are not before 1970.
pub record Stat : Type 0 where
  pub st_mode : ℕ
  pub st_size : ℕ
  pub st_mtime : ℕ
  pub st_mtime_nsec : ℕ

-- A file descriptor from `open(path, O_RDONLY)`: what `fstat` says of its size, and the bytes that
-- `mmap` shows, if they succeed.
pub record Opened : Type 0 where
  pub fstat_size : Option ℕ
  pub mmap : Option Bytes

-- `std::ios::openmode` of a file that is written; `std::ios::out` is implied.
pub record OpenMode : Type 0 where
  pub app : Bool
  pub binary : Bool

pub record Os : Type 1 where
  pub Disk : Type 0
  pub stat : Disk → Bytes → Option Stat
  -- The names that `readdir` gives, if `opendir` succeeds.
  pub opendir : Disk → Bytes → Option (List Bytes)
  pub open_read : Disk → Bytes → Option Opened
  -- `std::ifstream` opened at the end: whether it is good, and what `tellg` says.
  pub tellg : Disk → Bytes → Option (Option ℕ)
  -- These return whether they succeeded, and the disk after the call.
  pub fstream : Bytes → OpenMode → Disk → Bool × Disk
  pub rename : Bytes → Bytes → Disk → Bool × Disk
  pub unlink : Bytes → Disk → Bool × Disk
  pub rmdir : Bytes → Disk → Bool × Disk
  pub mkdir : Bytes → ℕ → Disk → Bool × Disk

-- `std::string::c_str`, as far as a C function reads it.
unfoldable pub c_str : Bytes → Bytes
c_str [] = []
c_str (c ∷ s) = if c == 0 then [] else c ∷ c_str s
