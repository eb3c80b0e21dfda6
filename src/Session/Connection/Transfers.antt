-- ===== src/Session/Connection/Transfers.antt =====
-- ftp_session.cpp: what happens on a data connection that was accepted: the handlers that
-- `sendDirectoryListing`, `sendNameList`, `sendFile` and `receiveFile` pass on, and how each ends.
-- `DELAY_226_RESP_MS` is 0, as the build sets it unless it is told otherwise.
use fineftp_server.Base.{
  take, ℕ, Option, none, some, List, [], ◌∷◌, ◌++◌, Bytes, codes, ◌==◌, if◌then◌else◌,
}
use fineftp_server.Message.FtpReplyCode.{transfer_aborted, closing_data_connection}
use fineftp_server.Os.{Os, OpenMode}
use fineftp_server.FileStatus.{Tm}
use fineftp_server.FileCache.{ReadableFile}
use fineftp_server.Session.{
  Session, Transfer, sends_listing, sends_names, sends_file, receives, send_ftp_message,
}
use fineftp_server.Session.Connection.{Accepted, data_accepted, directory_listing, name_list}

-- What is under way on the data socket.
pub data Work : Type 0 where
  -- Nothing: the reply is posted.
  answered : Work
  -- `addDataToBufferAndSend`, in this order; the null pointer ends the transmission.
  buffers : List (Option Bytes) → Work
  -- `async_write` of a file.
  writes : Bytes → Work
  -- `receiveDataFromSocketAndWriteToFile`.
  reads : Bytes → OpenMode → Work

module _ {os : Os} where
  unfoldable pub done : Session os → Session os
  done s = send_ftp_message closing_data_connection (codes "Done") s

  -- The buffer of the write is the mapping, as long as the size says.
  unfoldable pub send_content : ℕ → Option Bytes → Session os → Work × Session os
  send_content size none s = (
    answered,
    send_ftp_message transfer_aborted (codes "Data transfer aborted: File data is null") s,
  )
  send_content size (some content) s = (writes (take size content), s)

  -- The handler of `sendFile`.
  unfoldable pub send_file : ReadableFile → Session os → Work × Session os
  unfolding done send_content
  send_file file s =
      if file.size == 0 then (answered, done s) else send_content file.size file.bytes s

  unfoldable pub send_text : Option Bytes → Session os → Option (Work × Session os)
  send_text none s = none
  send_text (some text) s = some (buffers (some text ∷ none ∷ []), s)

  -- The connected handler; nothing if it throws.
  unfoldable pub connected : (ℕ → Tm) → ℕ → Transfer → Session os → Option (Work × Session os)
  unfolding send_file send_text
  connected gmtime current_year (sends_listing content) s =
      send_text (directory_listing gmtime current_year content) s
  connected gmtime current_year (sends_names content) s = send_text (some (name_list content)) s
  connected gmtime current_year (sends_file i file) s = some (send_file file s)
  connected gmtime current_year (receives path mode) s = some (reads path mode, s)

  -- The completion handler of the write of a file, with the message of its error if there is one.
  unfoldable pub file_sent : Option Bytes → Session os → Session os
  unfolding done
  file_sent none s = done s
  file_sent (some message) s =
      send_ftp_message transfer_aborted (codes "Data transfer aborted: " ++ message) s

  -- `endDataReceiving`.
  unfoldable pub end_data_receiving : Session os → Session os
  unfolding done
  end_data_receiving s = done s

  -- `writeDataToSocket`, when it comes to the null pointer.
  unfoldable pub text_sent : Session os → Session os
  unfolding done
  text_sent s = done s

  -- The handler that ends what is under way, where nothing fails.
  unfoldable pub conclude : Work → Session os → Session os
  unfolding file_sent end_data_receiving text_sent
  conclude answered s = s
  conclude (buffers queue) s = text_sent s
  conclude (writes content) s = file_sent none s
  conclude (reads path mode) s = end_data_receiving s

  unfoldable pub accept_from :
      (ℕ → Tm) → ℕ → Accepted → List Transfer → Session os → Option (Work × Session os)
  unfolding connected
  accept_from gmtime current_year result [] s = some (answered, s)
  accept_from gmtime current_year result (t ∷ ts) s =
      let (valid, s') = data_accepted result (record s { accepting = ts }) in
      if valid then connected gmtime current_year t s' else some (answered, s')

  -- A connection comes in, or fails: the handler that has waited longest is called.
  unfoldable pub accept_next : (ℕ → Tm) → ℕ → Accepted → Session os → Option (Work × Session os)
  unfolding accept_from
  accept_next gmtime current_year result s = accept_from gmtime current_year result s.accepting s
