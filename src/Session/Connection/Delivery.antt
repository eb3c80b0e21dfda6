-- ===== src/Session/Connection/Delivery.antt =====
-- RETR from the command to the end of the transfer.
use fineftp_server.Base.{
  take, ℕ, ◌<◌, ◌≡◌, refl, ap, ◌∙◌, true, false, Option, none, some, List, [], ◌∷◌, ◌++◌,
  append_assoc, arith, Bytes, codes, bytes_eq_iff,
}
use fineftp_server.Permission.{denies, file_read}
use fineftp_server.Message.{str}
use fineftp_server.Message.FtpReplyCode.{
  file_status_ok_opening_data_connection, closing_data_connection,
}
use fineftp_server.Users.{FtpUser}
use fineftp_server.Os.{Os, Opened, c_str}
use fineftp_server.FileStatus.{Tm}
use fineftp_server.FileCache.{ReadableFile, Files, lock, get}
use fineftp_server.FileCache.Laws.{get-unmapped}
use fineftp_server.Session.{
  Session, Transfer, sends_file, Address, v4, v6, is_open, to_local_path, send_ftp_message,
  accept_data_connection, close_data_acceptor,
}
use fineftp_server.Session.Download.{handle_retr, retrieved}
use fineftp_server.Session.Connection.{
  accepted, data_accepted, validate_data_connection, address_eq,
}
use fineftp_server.Session.Connection.Transfers.{
  Work, writes, done, send_content, send_file, connected, file_sent, conclude, accept_from,
  accept_next,
}

address_eq_refl : (a : Address) → address_eq a a ≡ true
unfolding address_eq
address_eq_refl (v4 a b c d) = ground arith
address_eq_refl (v6 s) = (bytes_eq_iff s s).1 refl

-- The reply to RETR, and the one that ends the transfer.
abbrev pub sending_replies : List Bytes
sending_replies =
    str (record {
      reply_code = file_status_ok_opening_data_connection;
      message = codes "Sending file";
    })
    ∷ str (record { reply_code = closing_data_connection; message = codes "Done" })
    ∷ []

with_first : {A B : Type 0} (x : A × B) {a : A} → x.0 ≡ a → x ≡ (a, x.1)
with_first x e = ap (λ a. (a, x.1)) e

module _ {os : Os} where
  abbrev pub work_of : Option (Work × Session os) → Option Work
  work_of none = none
  work_of (some (work, s)) = some work

  -- The replies, once the work has ended without an error.
  abbrev pub replies_after : Option (Work × Session os) → List Bytes
  replies_after none = []
  replies_after (some (work, s)) = (conclude work s).posted

  -- The next connection comes from the client's address.
  abbrev pub connect_from : Address → (ℕ → Tm) → ℕ → Session os → Option (Work × Session os)
  connect_from a gmtime current_year s =
      accept_next gmtime current_year (accepted (some a) (some a)) s

  send_file-writes :
      (file : ReadableFile) (content : Bytes) (s : Session os)
      → 0 < file.size
      → file.bytes ≡ some content
      → send_file file s ≡ (writes (take file.size content), s)
  unfolding send_file send_content
  send_file-writes file content s p b = ground (arith, p, b)

  -- The only transfer that waits gets the connection.
  pub connect_from-connected :
      (t : Transfer) (a : Address) (gmtime : ℕ → Tm) (current_year : ℕ) (s : Session os)
      → s.accepting ≡ t ∷ []
      → connect_from a gmtime current_year s
        ≡ connected gmtime current_year t (close_data_acceptor (record s { accepting = [] }))
  unfolding accept_next accept_from data_accepted validate_data_connection
  connect_from-connected t a gmtime current_year s w = ground (arith, w, address_eq_refl a)

  pub close_data_acceptor-posted : (s : Session os) → (close_data_acceptor s).posted ≡ s.posted
  unfolding close_data_acceptor
  close_data_acceptor-posted s = ground arith

  retrieved-delivers :
      (s : Session os) (i : ℕ) (file : ReadableFile) (files : Files) (content : Bytes) (a : Address)
      (gmtime : ℕ → Tm) (current_year : ℕ)
      → s.accepting ≡ []
      → 0 < file.size
      → file.bytes ≡ some content
      → (work_of (connect_from a gmtime current_year (retrieved s (some (i, file), files)))
          ≡ some (writes (take file.size content)))
        × (replies_after (connect_from a gmtime current_year (retrieved s (some (i, file), files)))
            ≡ s.posted ++ sending_replies)
  unfolding retrieved accept_data_connection connected send_ftp_message conclude file_sent done
      close_data_acceptor
  retrieved-delivers s i file files content a gmtime current_year w p b =
      let s' = retrieved s (some (i, file), files) in
      let one : s'.accepting ≡ sends_file i file ∷ [] = ap (λ ts. ts ++ sends_file i file ∷ []) w in
      let started = connect_from-connected (sends_file i file) a gmtime current_year s' one in
      rw (started, send_file-writes file content _ p b)
        (
          refl,
          ap
                (λ rs.
                  rs
                  ++ str (record { reply_code = closing_data_connection; message = codes "Done" })
                    ∷ [])
                (close_data_acceptor-posted (record s' { accepting = [] }))
              ∙ append_assoc s.posted _ _,
        )

  handle_retr-retrieved :
      (param : Bytes) (s : Session os) (user : FtpUser)
      → s.logged_in_user ≡ some user
      → denies user.permissions file_read ≡ false
      → is_open s.data_acceptor ≡ true
      → handle_retr param s
        ≡ retrieved s (get os s.disk (to_local_path user s.ftp_working_directory param) s.files)
  unfolding handle_retr
  handle_retr-retrieved param s user e d is_listening = ground (arith, e, d, is_listening)

  -- RETR by a user who is logged in with the permission to read, after PASV and with no other
  -- transfer waiting, of a file that is not mapped yet and that opens with a size above 0 and is
  -- mapped: once the client connects from its own address, the bytes of the mapping are written, as
  -- many of them as the size says, and the two replies are `150 Sending file` and, when the write has ended without an error,
  -- `226 Done`.
  pub handle_retr-delivers :
      (param : Bytes) (s : Session os) (user : FtpUser) (h : Opened) (size : ℕ) (content : Bytes)
      (a : Address) (gmtime : ℕ → Tm) (current_year : ℕ)
      → s.logged_in_user ≡ some user
      → denies user.permissions file_read ≡ false
      → is_open s.data_acceptor ≡ true
      → s.accepting ≡ []
      → lock s.files (to_local_path user s.ftp_working_directory param) ≡ none
      → os.open_read s.disk (c_str (to_local_path user s.ftp_working_directory param)) ≡ some h
      → h.fstat_size ≡ some size
      → 0 < size
      → h.mmap ≡ some content
      → (work_of (connect_from a gmtime current_year (handle_retr param s))
          ≡ some (writes (take size content)))
        × (replies_after (connect_from a gmtime current_year (handle_retr param s))
            ≡ s.posted ++ sending_replies)
  handle_retr-delivers param s user h size content a gmtime current_year e d is_listening w l o f p
        m =
      let path = to_local_path user s.ftp_working_directory param in
      let got = get-unmapped os s.disk path s.files h size content l o f p m in
      rw
        (
          handle_retr-retrieved param s user e d is_listening,
          with_first (get os s.disk path s.files) got,
        )
        (retrieved-delivers s s.files.next
          (record { path = path; size = size; bytes = some content }) _ content a gmtime
          current_year w p refl)
