-- ===== src/Windows/Writeable/Limits.antt =====
-- Which files can be appended to.
use fineftp_server.Base.{ℕ, ◌-◌, ◌^◌, ◌<◌, ◌≡◌, ◌↔◌, true, some, arith, Bytes, ltb, if◌then◌else◌}
use fineftp_server.Os.{OpenMode, c_str}
use fineftp_server.Windows.{Api, open_existing}
use fineftp_server.Windows.Calls.{IsBalanced}
use fineftp_server.Windows.Writeable.{
  good, close, close_from, invalid_set_file_pointer, desired_access, creation_disposition,
  move_to_end, open_writeable,
}

-- `SetFilePointer` with a null pointer for the high half: the new position, here the size of the
-- file, if it fits into 32 bits, and else `INVALID_SET_FILE_POINTER`.
abbrev pub MovesTo : Api → ℕ → ℕ → Type 0
MovesTo api h size =
    api.set_file_pointer h ≡ (if ltb size (2 ^ 32) then size else invalid_set_file_pointer)

-- A file that opens for appending is good exactly if its size is below 2^32 - 1, where
-- `SetFilePointer` reports positions as its documentation says; and whatever its size, the handle
-- is closed once the object is destroyed.
pub open_writeable-good :
    (api : Api) (filename : Bytes) (mode : OpenMode) (h size : ℕ)
    → mode.app ≡ true
    → api.create_file (c_str filename) (desired_access mode) open_existing ≡ some h
    → MovesTo api h size
    → ((good (open_writeable api filename mode) ≡ true) ↔ (size < 2 ^ 32 - 1))
      × IsBalanced (close (open_writeable api filename mode)).calls
unfolding open_writeable move_to_end creation_disposition close close_from good
open_writeable-good api filename mode h size app e m = ground (arith, app, e, m)
