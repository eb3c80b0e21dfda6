-- ===== src/Windows.antt =====
-- fineftp-server/src/win32/file_man.{h,cpp}: the files of the Windows build. What the Windows API
-- answers is the record `Api`; a handle is a number, and `none` is `INVALID_HANDLE_VALUE`. The calls
-- that take or give back a resource are kept in order as a list of `Call`.
pub mod Readable
pub mod Writeable
pub mod Calls
pub mod Paths
pub mod StrConvert
pub mod Status
pub mod Folder
pub mod Manage
pub mod Rename
pub mod Effect
use fineftp_server.Base.{ℕ, Bool, Option, Bytes}

-- What `CreateFileMapping` returns.
pub data MapHandle : Type 0 where
  invalid null : MapHandle
  map_handle : ℕ → MapHandle

-- How `CreateFile` is called: the access bits and the disposition.
pub data CreationDisposition : Type 0 where
  create_always open_existing : CreationDisposition

pub record Api : Type 0 where
  pub create_file : Bytes → ℕ → CreationDisposition → Option ℕ
  -- `nFileSizeHigh` and `nFileSizeLow`.
  pub get_file_information_by_handle : ℕ → Option (ℕ × ℕ)
  -- Its size in two halves, high and low.
  pub create_file_mapping : ℕ → ℕ → ℕ → MapHandle
  -- The address of as many bytes, unless it is null.
  pub map_view_of_file : ℕ → ℕ → Option ℕ
  -- Moves to the end, with a null pointer for the high half.
  pub set_file_pointer : ℕ → ℕ

pub data Resource : Type 0 where
  handle view : ℕ → Resource

-- A resource is taken, or given back by `CloseHandle` or `UnmapViewOfFile`.
pub data Call : Type 0 where
  takes gives_back : Resource → Call
