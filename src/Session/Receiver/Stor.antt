-- ===== src/Session/Receiver/Stor.antt =====
-- STOR from the command to the file.
use fineftp_server.Base.{
  ℕ, ◌≡◌, refl, ap, ◌∙◌, true, false, some, List, [], ◌∷◌, ◌++◌, append_assoc, arith, Bytes, codes,
  All,
}
use fineftp_server.Permission.{denies, file_write}
use fineftp_server.Message.{str}
use fineftp_server.Message.FtpReplyCode.{
  file_status_ok_opening_data_connection, closing_data_connection,
}
use fineftp_server.Users.{FtpUser}
use fineftp_server.Os.{Os, OpenMode, c_str}
use fineftp_server.FileStatus.{Tm}
use fineftp_server.Session.{
  Session, receives, Address, is_open, to_local_path, send_ftp_message, status_of,
  accept_data_connection,
}
use fineftp_server.Session.Upload.{handle_stor, store, open_and_receive, opened_write}
use fineftp_server.Session.Connection.Transfers.{
  reads, done, connected, conclude, end_data_receiving,
}
use fineftp_server.Session.Connection.Laws.{concat}
use fineftp_server.Session.Connection.Delivery.{
  work_of, replies_after, connect_from, connect_from-connected, close_data_acceptor-posted,
}
use fineftp_server.Session.Receiver.{ReadStatus, Receiver, begin, is_nothing, ReceiverRun}
use fineftp_server.Session.Receiver.File.{written, is_closed}
use fineftp_server.Session.Receiver.Delivery.{is_end, receive_file}

-- The reply to STOR, and the one that ends the transfer.
abbrev pub receiving_replies : List Bytes
receiving_replies =
    str (record {
      reply_code = file_status_ok_opening_data_connection;
      message = codes "Receiving file";
    })
    ∷ str (record { reply_code = closing_data_connection; message = codes "Done" })
    ∷ []

module _ {os : Os} where
  -- STOR as the session has it: the mode of the file.
  abbrev pub stor_mode : Session os → OpenMode
  stor_mode s = record { app = false; binary = s.data_type_binary }

  handle_stor-opened :
      (param : Bytes) (s : Session os) (user : FtpUser) (disk : os.Disk)
      → s.logged_in_user ≡ some user
      → denies user.permissions file_write ≡ false
      → is_open s.data_acceptor ≡ true
      → (status_of user param s).is_ok ≡ false
      → os.fstream (c_str (to_local_path user s.ftp_working_directory param)) (stor_mode s) s.disk
        ≡ (true, disk)
      → handle_stor param s
        ≡ opened_write
            (to_local_path user s.ftp_working_directory param)
            (stor_mode s)
            (codes "Receiving file")
            s
            (true, disk)
  unfolding handle_stor store open_and_receive
  handle_stor-opened param s user disk e d listens free o = ground (arith, e, d, listens, free, o)

  opened_write-receives :
      (path : Bytes) (mode : OpenMode) (s : Session os) (disk : os.Disk) (a : Address)
      (gmtime : ℕ → Tm) (current_year : ℕ)
      → s.accepting ≡ []
      → (work_of (
            connect_from a gmtime current_year
              (opened_write path mode (codes "Receiving file") s (true, disk)))
          ≡ some (reads path mode))
        × (replies_after (
              connect_from a gmtime current_year
                (opened_write path mode (codes "Receiving file") s (true, disk)))
            ≡ s.posted ++ receiving_replies)
  unfolding opened_write accept_data_connection connected send_ftp_message conclude
      end_data_receiving done
  opened_write-receives path mode s disk a gmtime current_year w =
      let s' = opened_write path mode (codes "Receiving file") s (true, disk) in
      let one : s'.accepting ≡ receives path mode ∷ [] =
        ap (λ ts. ts ++ receives path mode ∷ []) w in
      let started = connect_from-connected (receives path mode) a gmtime current_year s' one in
      rw started (
        refl,
        ap
              (λ rs.
                rs
                ++ str (record { reply_code = closing_data_connection; message = codes "Done" })
                  ∷ [])
              (close_data_acceptor-posted (record s' { accepting = [] }))
            ∙ append_assoc s.posted _ _,
      )

-- STOR by a user who is logged in with the permission to write, after PASV and with no other transfer
-- waiting, of a path where nothing is and that opens: once the client connects from its own address,
-- the file is received, and the two replies are `150 Receiving file` and `226 Done`. However the
-- client's data is split into reads that bring something and a last one with an error, which is the
-- end of the data or any other, there is a run that reads all of it, in which exactly these bytes are
-- written to the file, in order, the file is closed and released, and the transfer is answered once.
pub handle_stor-receives :
    {os : Os} (param : Bytes) (s : Session os) (user : FtpUser) (disk : os.Disk) (a : Address)
    (gmtime : ℕ → Tm) (current_year : ℕ) (bs : List Bytes) (last : Bytes) (status : ReadStatus)
    → s.logged_in_user ≡ some user
    → denies user.permissions file_write ≡ false
    → is_open s.data_acceptor ≡ true
    → s.accepting ≡ []
    → (status_of user param s).is_ok ≡ false
    → os.fstream (c_str (to_local_path user s.ftp_working_directory param)) (stor_mode s) s.disk
      ≡ (true, disk)
    → All (λ b. is_nothing b ≡ false) bs
    → is_end status ≡ true
    → (work_of (connect_from a gmtime current_year (handle_stor param s))
        ≡ some (reads (to_local_path user s.ftp_working_directory param) (stor_mode s)))
      × (replies_after (connect_from a gmtime current_year (handle_stor param s))
          ≡ s.posted ++ receiving_replies)
      × (r : Receiver) × ReceiverRun
          (begin (to_local_path user s.ftp_working_directory param) (stor_mode s))
          r
      × (written r.file ≡ concat bs ++ last)
      × (is_closed r.file ≡ true)
      × (r.answers ≡ 1)
      × (r.released ≡ true)
handle_stor-receives param s user disk a gmtime current_year bs last status e d listens w free o h
      f =
    let path = to_local_path user s.ftp_working_directory param in
    let (work, replies) = opened_write-receives path (stor_mode s) s disk a gmtime current_year w in
    let stored = handle_stor-opened param s user disk e d listens free o in
    let (r, run, all, closed, once, gone) = receive_file path (stor_mode s) bs last status h f in
    (rw stored work, rw stored replies, r, run, all, closed, once, gone)
