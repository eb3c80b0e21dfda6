-- ===== src/Tests/Data.antt =====
-- The theorems on data connections and quoted paths at concrete inputs.
use fineftp_server.Base.{take, bytes_eq, false, codes, ◌≡◌, refl, some, [], ◌∷◌, ◌++◌, true, arith}
use fineftp_server.Permission.{all, denies, file_read}
use fineftp_server.Users.{find}
use fineftp_server.CleanPath.{clean_path, clean_path_native}
use fineftp_server.Os.{Opened, c_str}
use fineftp_server.FileCache.{lock}
use fineftp_server.Session.Download.{handle_retr}
use fineftp_server.Session.Connection.Transfers.{writes}
use fineftp_server.Session.Connection.Delivery.{
  work_of, replies_after, connect_from, sending_replies, handle_retr-delivers,
}
use fineftp_server.FileStatus.{FileStatus, Tm, file_status_of}
use fineftp_server.Session.{
  is_open, to_local_path, to_absolute_ftp_path, Session, Address, v4, listening, closed,
  create_quoted_ftp_path,
}
use fineftp_server.Session.Connection.{accepted, data_accepted, name_list}
use fineftp_server.Session.Connection.Laws.{
  data_accepted-validated, read_lines, read_lines-name_list,
}
use fineftp_server.Os.{OpenMode}
use fineftp_server.CleanPath.{slash}
use fineftp_server.Permission.{file_write}
use fineftp_server.Session.Upload.{handle_stor}
use fineftp_server.Session.{status_of}
use fineftp_server.Session.Connection.Transfers
use fineftp_server.Session.Receiver.{
  success, eof, failed, Receiver, receive, begin, write_data_to_file, end_data_receiving,
  read_completed, data_received, reads, ends, ReceiverRun, stays, steps,
}
use fineftp_server.Session.Receiver.File.{written, is_closed}
use fineftp_server.Session.Receiver.Laws.{IsReceiver, ReceiverRun-IsReceiver}
use fineftp_server.Session.Receiver.Stor.{stor_mode, receiving_replies, handle_stor-receives}
use fineftp_server.Session.Quoting.{read_path, read_path-create_quoted_ftp_path}
use fineftp_server.Base.{none, List, Bytes, set_w, to_string}
use fineftp_server.Permission.{dir_list}
use fineftp_server.Session.{Session}
use fineftp_server.FileStatus.{
  type, is_dir, can_open_dir, dir_content, time_string, permission_string, owner_string,
  group_string, file_size, emplace,
}
use fineftp_server.Session.Listing.{handle_list, list_path}
use fineftp_server.Session.Sender.{SenderRun}
use fineftp_server.Session.Sender.Laws.{waiting}
use fineftp_server.Session.Connection.{directory_listing}
use fineftp_server.Session.Connection.Transfers.{buffers}
use fineftp_server.Session.Connection.Listings.{
  listing_replies, IsListable, content_at, handle_list-delivers,
}
use fineftp_server.Session.Demo.{demo_os, demo_user, demo_session}

abbrev passive : Session demo_os
passive = record (demo_session (some (demo_user all))) { data_acceptor = listening }

abbrev new_year : Tm
new_year = record { tm_year = 70; tm_mon = 0; tm_mday = 1; tm_hour = 0; tm_min = 0; tm_sec = 0 }

abbrev client : Address
client = v4 10 0 0 7

client_accepted : (data_accepted (accepted (some client) (some client)) passive).0 ≡ true
unfolding data_accepted
client_accepted = refl

data_accepted-validated_example :
    (a : Address) × (accepted (some client) (some client) ≡ accepted (some a) (some a))
    × ((data_accepted (accepted (some client) (some client)) passive).1.data_acceptor ≡ closed)
data_accepted-validated_example =
    data_accepted-validated (accepted (some client) (some client)) passive client_accepted

abbrev some_file : FileStatus
some_file = record {
  path = b'a' ∷ [];
  is_ok = true;
  file_status = record { st_mode = 0o100644; st_size = 1; st_mtime = 0; st_mtime_nsec = 0 };
}

read_lines-name_list_example :
    read_lines 2 (name_list ((b'a' ∷ [], some_file) ∷ (b'b' ∷ b'c' ∷ [], some_file) ∷ []))
    ≡ (b'a' ∷ []) ∷ (b'b' ∷ b'c' ∷ []) ∷ []
read_lines-name_list_example =
    read_lines-name_list ((b'a' ∷ [], some_file) ∷ (b'b' ∷ b'c' ∷ [], some_file) ∷ [])
      (ground arith)

read_path-create_quoted_ftp_path_example :
    read_path (create_quoted_ftp_path (b'/' ∷ b'"' ∷ []) ++ b' ' ∷ [])
    ≡ (b'/' ∷ b'"' ∷ [], b' ' ∷ [])
read_path-create_quoted_ftp_path_example =
    read_path-create_quoted_ftp_path (b'/' ∷ b'"' ∷ []) (b' ' ∷ []) refl

abbrev renaming : Session demo_os
renaming = record passive { last_command = codes "RNFR"; rename_from_path = b'a' ∷ [] }

reads_file : denies (demo_user all).permissions file_read ≡ false
unfolding denies
reads_file = refl

abbrev opened_a : Opened
opened_a = record { fstat_size = some 5; mmap = some (codes "hello") }

handle_retr-delivers_example :
    (work_of (connect_from client (λ t. new_year) 70 (handle_retr (codes "a") passive))
      ≡ some (writes (take 5 (codes "hello"))))
    × (replies_after (connect_from client (λ t. new_year) 70 (handle_retr (codes "a") passive))
        ≡ passive.posted ++ sending_replies)
unfolding lock find codes to_local_path to_absolute_ftp_path clean_path_native clean_path is_open
    c_str bytes_eq
handle_retr-delivers_example =
    handle_retr-delivers (codes "a") passive (demo_user all) opened_a 5 (codes "hello") client
      (λ t. new_year) 70 refl reads_file refl refl refl refl refl (ground arith) refl

abbrev mode : OpenMode
mode = record { app = false; binary = true }

ReceiverRun-IsReceiver_example : IsReceiver (
    data_received (
      read_completed
        (codes "lo")
        eof
        (read_completed (codes "hel") success (begin (codes "a") mode))))
unfolding codes begin receive read_completed write_data_to_file end_data_receiving
ReceiverRun-IsReceiver_example = ReceiverRun-IsReceiver (codes "a") mode (
    steps (reads (codes "hel") success refl)
      (steps (reads (codes "lo") eof refl) (steps (ends refl) stays)))

writes_file : denies (demo_user all).permissions file_write ≡ false
unfolding denies
writes_file = refl

handle_stor-receives_example :
    (work_of (connect_from client (λ t. new_year) 70 (handle_stor (codes "new") passive))
      ≡ some (
          Transfers.reads
            (to_local_path (demo_user all) (slash ∷ []) (codes "new"))
            (stor_mode passive)))
    × (replies_after (connect_from client (λ t. new_year) 70 (handle_stor (codes "new") passive))
        ≡ passive.posted ++ receiving_replies)
    × (r : Receiver) × ReceiverRun
        (begin (to_local_path (demo_user all) (slash ∷ []) (codes "new")) (stor_mode passive))
        r
    × (written r.file ≡ codes "hello")
    × (is_closed r.file ≡ true)
    × (r.answers ≡ 1)
    × (r.released ≡ true)
unfolding find codes to_local_path to_absolute_ftp_path clean_path_native clean_path is_open c_str
    bytes_eq status_of file_status_of
handle_stor-receives_example =
    handle_stor-receives (codes "new") passive (demo_user all) _ client (λ t. new_year) 70
      (codes "hel" ∷ []) (codes "lo") failed refl writes_file refl refl refl refl (refl, tt) refl

lists : denies (demo_user all).permissions dir_list ≡ false
unfolding denies
lists = refl

root-IsListable : IsListable (demo_user all) (list_path []) passive
unfolding status_of to_local_path to_absolute_ftp_path clean_path_native clean_path find codes
    bytes_eq c_str list_path file_status_of type is_dir can_open_dir
root-IsListable = record { there = refl; directory = refl; opens = refl }

abbrev root_content : List (Bytes × FileStatus)
root_content = content_at (demo_user all) (list_path []) passive

abbrev listing_text : Bytes
listing_text =
    codes
      "----------   1    fineFTP    fineFTP          0 Jan  1 1970 .\r\n----------   1    fineFTP    fineFTP          0 Jan  1 1970 ..\r\n"

root_content-text : directory_listing (λ t. new_year) 70 root_content ≡ some listing_text
unfolding list_path dir_content file_status_of status_of to_local_path to_absolute_ftp_path
    clean_path_native clean_path find codes bytes_eq c_str directory_listing time_string
    permission_string owner_string group_string file_size emplace is_dir set_w type to_string
root_content-text = refl

handle_list-delivers_example :
    (work_of (connect_from client (λ t. new_year) 70 (handle_list [] passive))
      ≡ some (buffers (some listing_text ∷ none ∷ [])))
    × (replies_after (connect_from client (λ t. new_year) 70 (handle_list [] passive))
        ≡ passive.posted ++ listing_replies (codes "Sending directory listing"))
    × SenderRun (waiting [] [] 0) (waiting (([] ++ listing_text) ++ []) ([] ++ listing_text) 1)
handle_list-delivers_example =
    handle_list-delivers [] passive (demo_user all) listing_text client (λ t. new_year) 70 [] [] 0
      refl lists refl root-IsListable root_content-text
