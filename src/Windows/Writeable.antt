-- ===== src/Windows/Writeable.antt =====
-- win32/file_man.cpp, `WriteableFile`: the constructor, `close`, `write` and `good`.
pub mod Limits
use Prim.Native.Nat.{bit_or}
use fineftp_server.Base.{
  ℕ, ◌%◌, ◌^◌, Bool, true, false, ◌&&◌, Option, none, some, List, [], ◌∷◌, ◌++◌, Bytes, ◌==◌,
  if◌then◌else◌,
}
use fineftp_server.Os.{OpenMode, c_str}
use fineftp_server.Windows.{
  CreationDisposition, create_always, open_existing, Api, Resource, handle, Call, takes, gives_back,
}

abbrev pub generic_write : ℕ
generic_write = 0x4000_0000

abbrev pub file_append_data : ℕ
file_append_data = 4

abbrev pub invalid_set_file_pointer : ℕ
invalid_set_file_pointer = 0xffff_ffff

-- `handle_`, and the calls that were made for it.
pub record WriteableFile : Type 0 where
  pub file_handle : Option ℕ
  pub calls : List Call

unfoldable pub good : WriteableFile → Bool
good f = elim f.file_handle [ none ↦ false | some h ↦ true ]

close_from : Option ℕ → List Call → WriteableFile
close_from none calls = record { file_handle = none; calls = calls }
close_from (some h) calls = record {
  file_handle = none;
  calls = calls ++ gives_back (handle h) ∷ [];
}

-- `close`, which the destructor calls.
unfoldable pub close : WriteableFile → WriteableFile
unfolding close_from
close f = close_from f.file_handle f.calls

unfoldable pub desired_access : OpenMode → ℕ
desired_access mode = if mode.app then bit_or generic_write file_append_data else generic_write

unfoldable pub creation_disposition : OpenMode → CreationDisposition
creation_disposition mode = if mode.app then open_existing else create_always

-- The end of the constructor: a file to append to is written from its end.
move_to_end : Api → OpenMode → Option ℕ → WriteableFile
unfolding close
move_to_end api mode none = record { file_handle = none; calls = [] }
move_to_end api mode (some h) =
    let f : WriteableFile = record { file_handle = some h; calls = takes (handle h) ∷ [] } in
    if mode.app && (api.set_file_pointer h == invalid_set_file_pointer) then close f else f

-- The constructor.
unfoldable pub open_writeable : Api → Bytes → OpenMode → WriteableFile
unfolding desired_access creation_disposition move_to_end
open_writeable api filename mode =
    move_to_end api mode
      (api.create_file (c_str filename) (desired_access mode) (creation_disposition mode))

-- What `write` asks `WriteFile` for: the handle, and how many bytes of the data.
unfoldable pub write : WriteableFile → ℕ → Option ℕ × ℕ
write f size = (f.file_handle, size % 2 ^ 32)
