-- ===== src/Session/Receiver.antt =====
-- ftp_session.cpp, `receiveDataFromSocketAndWriteToFile`, `writeDataToFile` and `endDataReceiving`:
-- what runs on the data strand to receive a file; and `WriteableFile` of unix/file_man.h. What the
-- object calls on its `std::fstream` is kept in order in `file`. `received` and `answers` record the
-- data that was read, and how often `Done` was answered.
pub mod File
pub mod Laws
pub mod Delivery
pub mod Stor
use fineftp_server.Base.{
  ℕ, ◌+◌, ◌≡◌, ◌≢◌, Bool, true, false, List, [], ◌∷◌, ◌++◌, Bytes, if◌then◌else◌,
}
use fineftp_server.Os.{OpenMode}

-- A call on the stream of a file that is written.
pub data StreamCall : Type 0 where
  opens : Bytes → OpenMode → StreamCall
  writes : Bytes → StreamCall
  flushes closes : StreamCall

unfoldable pub writeable_file : Bytes → OpenMode → List StreamCall
writeable_file filename mode = opens filename mode ∷ []

unfoldable pub write : Bytes → List StreamCall → List StreamCall
write data_read file = file ++ writes data_read ∷ []

-- Also what the destructor does.
unfoldable pub close : List StreamCall → List StreamCall
close file = file ++ flushes ∷ closes ∷ []

-- The `error_code` of `async_read`: none, `eof`, or another.
pub data ReadStatus : Type 0 where
  success eof failed : ReadStatus

pub record Receiver : Type 0 where
  pub file : List StreamCall
  -- An `async_read` has not completed.
  pub reading : Bool
  -- The function that `endDataReceiving` posts has not run.
  pub ending : Bool
  -- The last pointer to the file was dropped.
  pub released : Bool
  pub answers : ℕ
  pub received : Bytes

-- `receiveDataFromSocketAndWriteToFile`.
unfoldable pub receive : Receiver → Receiver
receive r = record r { reading = true }

-- The connected handler of `receiveFile`, on a file that was opened.
unfoldable pub begin : Bytes → OpenMode → Receiver
unfolding receive writeable_file
begin filename mode = receive (record {
  file = writeable_file filename mode;
  reading = false;
  ending = false;
  released = false;
  answers = 0;
  received = [];
})

-- `writeDataToFile`: it asks for more before it writes.
unfoldable pub write_data_to_file : Bytes → (Receiver → Receiver) → Receiver → Receiver
unfolding write
write_data_to_file bytes fetch_more r =
    let r' = fetch_more r in record r' { file = write bytes r'.file }

unfoldable pub end_data_receiving : Receiver → Receiver
end_data_receiving r = record r { ending = true }

abbrev pub is_nothing : Bytes → Bool
is_nothing [] = true
is_nothing (c ∷ s) = false

abbrev pub no_more : Receiver → Receiver
no_more r = r

-- The completion handler of `async_read`.
unfoldable pub read_completed : Bytes → ReadStatus → Receiver → Receiver
unfolding receive write_data_to_file end_data_receiving
read_completed bytes success r =
    let r' = record r { reading = false; received = r.received ++ bytes } in
    if is_nothing bytes then r' else write_data_to_file bytes receive r'
read_completed bytes _ r =
    let r' = record r { reading = false; received = r.received ++ bytes } in
    end_data_receiving (if is_nothing bytes then r' else write_data_to_file bytes no_more r')

-- The function that `endDataReceiving` posts.
unfoldable pub data_received : Receiver → Receiver
unfolding close
data_received r = record r { file = close r.file; ending = false; answers = r.answers + 1 }

-- The destructor of the file.
unfoldable pub release : Receiver → Receiver
unfolding close
release r = record r { file = close r.file; released = true }

-- One handler of the strand. The file lives as long as a handler holds it.
pub data ReceiverStep (r : Receiver) : Receiver → Type 0 where
  reads :
      (bytes : Bytes) (status : ReadStatus)
      → r.reading ≡ true
      → ReceiverStep r (read_completed bytes status r)
  ends : r.ending ≡ true → ReceiverStep r (data_received r)
  releases : r.reading ≡ false → r.ending ≡ false → r.released ≡ false → ReceiverStep r (release r)

pub data ReceiverRun : Receiver → Receiver → Type 0 where
  stays : {r : Receiver} → ReceiverRun r r
  steps : {q r s : Receiver} → ReceiverStep q r → ReceiverRun r s → ReceiverRun q s
