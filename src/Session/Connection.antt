-- ===== src/Session/Connection.antt =====
-- ftp_session.cpp: the handler of `acceptDataConnection`, the texts of `sendDirectoryListing` and
-- `sendNameList`, and the chunks that `receiveDataFromSocketAndWriteToFile` writes.
pub mod Laws
pub mod Transfers
pub mod Delivery
pub mod Listings
use fineftp_server.Base.{
  ℕ, Bool, true, false, not, ◌&&◌, Option, none, some, List, [], ◌∷◌, ◌++◌, Bytes, codes, bytes_eq,
  to_string, set_w, ◌==◌, if◌then◌else◌,
}
use fineftp_server.Message.FtpReplyCode.{
  transfer_aborted, error_opening_data_connection, closing_data_connection,
}
use fineftp_server.Os.{Os}
use fineftp_server.FileStatus.{
  FileStatus, Tm, type, is_dir, permission_string, owner_string, group_string, file_size,
  time_string,
}
use fineftp_server.Session.{Session, Address, v4, v6, send_ftp_message, close_data_acceptor}

-- `operator==` of two addresses.
unfoldable pub address_eq : Address → Address → Bool
address_eq (v4 a b c d) (v4 a' b' c' d') = (a == a' && b == b') && (c == c' && d == d')
address_eq (v4 a b c d) (v6 s) = false
address_eq (v6 s) (v4 a b c d) = false
address_eq (v6 s) (v6 t) = bytes_eq s t

-- `validateDataConnection`, on what `remote_endpoint` says of the data and the command socket.
unfoldable pub validate_data_connection : Option Address → Option Address → Bool
unfolding address_eq
validate_data_connection none command = false
validate_data_connection (some data_address) none = false
validate_data_connection (some data_address) (some command_address) =
    address_eq data_address command_address

-- What `async_accept` reports: an error with its message, or the two addresses.
pub data Accepted : Type 0 where
  accept_error : Bytes → Accepted
  accepted : Option Address → Option Address → Accepted

module _ {os : Os} where
  -- The handler, up to the call of the connected handler: whether it is called, and the session.
  unfoldable pub data_accepted : Accepted → Session os → Bool × Session os
  unfolding validate_data_connection
  data_accepted (accept_error message) s =
      (false, send_ftp_message transfer_aborted (codes "Data transfer aborted: " ++ message) s)
  data_accepted (accepted data_address command_address) s =
      let s' = close_data_acceptor s in
      if validate_data_connection data_address command_address then (true, s') else (
        false,
        send_ftp_message error_opening_data_connection (codes "Data connection rejected") s',
      )

-- A line of `sendDirectoryListing`, if `timeString` does not throw.
listing_line : Bytes → FileStatus → Option Bytes → Option Bytes
listing_line filename status none = none
listing_line filename status (some time) = some (
    (if is_dir (type status) then b'd' else b'-') ∷ permission_string status
    ++ codes "   1 "
    ++ set_w 10 b' ' (owner_string status)
    ++ codes " "
    ++ set_w 10 b' ' (group_string status)
    ++ codes " "
    ++ set_w 10 b' ' (to_string (file_size status))
    ++ codes " "
    ++ time
    ++ codes " "
    ++ filename
    ++ codes "\r\n")

append_line : Option Bytes → Option Bytes → Option Bytes
append_line none rest = none
append_line (some line) none = none
append_line (some line) (some rest) = some (line ++ rest)

unfoldable pub directory_listing : (ℕ → Tm) → ℕ → List (Bytes × FileStatus) → Option Bytes
unfolding listing_line append_line
directory_listing gmtime current_year [] = some []
directory_listing gmtime current_year ((filename, status) ∷ content) =
    append_line (listing_line filename status (time_string gmtime current_year status))
      (directory_listing gmtime current_year content)

-- The text of `sendNameList`.
unfoldable pub name_list : List (Bytes × FileStatus) → Bytes
name_list [] = []
name_list ((filename, status) ∷ content) = filename ++ codes "\r\n" ++ name_list content

-- A read that completed: the data, and whether it ended with an error (the end of the file, too).
pub record Chunk : Type 0 where
  pub bytes : Bytes
  pub ec : Bool

abbrev pub is_empty_chunk : Bytes → Bool
is_empty_chunk [] = true
is_empty_chunk (c ∷ s) = false

-- What is written to the file for the reads that complete, and whether the transfer is ended and
-- answered. A read without an error and without data is not followed by another.
unfoldable pub receive_data : List Chunk → Bytes × Bool
receive_data [] = ([], false)
receive_data (c ∷ cs) =
    let (more, ended) = receive_data cs in
    if c.ec
    then (c.bytes, true)
    else if is_empty_chunk c.bytes
    then ([], false)
    else (c.bytes ++ more, ended)
