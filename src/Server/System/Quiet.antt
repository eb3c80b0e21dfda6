-- ===== src/Server/System/Quiet.antt =====
-- What a data connection and the end of the control connection do to a session: neither its user nor
-- a path nor the disk changes.
use fineftp_server.Base.{
  ℕ, ◌≡◌, refl, ◌∙◌, Option, none, some, List, [], ◌∷◌, arith, Bytes, if-cases,
}
use fineftp_server.Os.{Os}
use fineftp_server.FileStatus.{Tm}
use fineftp_server.FileCache.{ReadableFile}
use fineftp_server.Session.{
  Session, Transfer, sends_listing, sends_names, sends_file, receives, send_ftp_message,
  close_data_acceptor,
}
use fineftp_server.Session.Connection.{
  Accepted, accepted, accept_error, data_accepted, name_list, directory_listing,
}
use fineftp_server.Session.Connection.Transfers.{
  Work, answered, buffers, writes, reads, done, send_content, send_file, send_text, connected,
  file_sent, end_data_receiving, conclude, accept_from, accept_next,
}
use fineftp_server.Session.Stream.{read_failed}
use fineftp_server.Session.Effect.Quiet.{Same}
use fineftp_server.Session.Identity.{IsSameAccount}

module _ {os : Os} where
  pub record IsQuiet (s t : Session os) : Type 0 where
    pub paths : Same s t
    pub account : IsSameAccount s t

  still : {s : Session os} → IsQuiet s s
  still = record {
    paths = record { user = refl; directory = refl; renaming = refl; disk = refl };
    account = record { user = refl; name = refl };
  }

  trans : {s t u : Session os} → IsQuiet s t → IsQuiet t u → IsQuiet s u
  trans p q = record {
    paths = record {
      user = q.paths.user ∙ p.paths.user;
      directory = q.paths.directory ∙ p.paths.directory;
      renaming = q.paths.renaming ∙ p.paths.renaming;
      disk = q.paths.disk ∙ p.paths.disk;
    };
    account = record {
      user = q.account.user ∙ p.account.user;
      name = q.account.name ∙ p.account.name;
    };
  }

  pub file_sent-IsQuiet : (error : Option Bytes) (s : Session os) → IsQuiet s (file_sent error s)
  unfolding file_sent done send_ftp_message
  file_sent-IsQuiet none s = ground arith
  file_sent-IsQuiet (some message) s = ground arith

  pub conclude-IsQuiet : (work : Work) (s : Session os) → IsQuiet s (conclude work s)
  unfolding conclude end_data_receiving file_sent
  conclude-IsQuiet answered s = still
  conclude-IsQuiet (buffers queue) s = file_sent-IsQuiet none s
  conclude-IsQuiet (writes content) s = file_sent-IsQuiet none s
  conclude-IsQuiet (reads path mode) s = file_sent-IsQuiet none s

  pub read_failed-IsQuiet : (s : Session os) → IsQuiet s (read_failed s)
  unfolding read_failed close_data_acceptor
  read_failed-IsQuiet s = ground arith

  data_accepted-IsQuiet :
      (result : Accepted) (s : Session os) → IsQuiet s (data_accepted result s).1
  unfolding data_accepted send_ftp_message close_data_acceptor
  data_accepted-IsQuiet (accept_error message) s = ground arith
  data_accepted-IsQuiet (accepted data_address command_address) s = ground arith

  send_content-IsQuiet :
      (size : ℕ) (content : Option Bytes) (s : Session os)
      → IsQuiet s (send_content size content s).1
  unfolding send_content send_ftp_message
  send_content-IsQuiet size none s = ground arith
  send_content-IsQuiet size (some content) s = still

  send_file-IsQuiet : (file : ReadableFile) (s : Session os) → IsQuiet s (send_file file s).1
  unfolding send_file file_sent
  send_file-IsQuiet file s =
      ground (arith, send_content-IsQuiet file.size file.bytes s, file_sent-IsQuiet none s)

  -- What holds of a session that is there.
  abbrev Quietly : Session os → Option (Work × Session os) → Type 0
  Quietly s none = Unit
  Quietly s (some (work, t)) = IsQuiet s t

  send_text-Quietly : (text : Option Bytes) (s : Session os) → Quietly s (send_text text s)
  unfolding send_text
  send_text-Quietly none s = tt
  send_text-Quietly (some text) s = still

  connected-Quietly :
      (gmtime : ℕ → Tm) (current_year : ℕ) (t : Transfer) (s : Session os)
      → Quietly s (connected gmtime current_year t s)
  unfolding connected
  connected-Quietly gmtime current_year (sends_listing content) s =
      send_text-Quietly (directory_listing gmtime current_year content) s
  connected-Quietly gmtime current_year (sends_names content) s =
      send_text-Quietly (some (name_list content)) s
  connected-Quietly gmtime current_year (sends_file i file) s = send_file-IsQuiet file s
  connected-Quietly gmtime current_year (receives path mode) s = still

  Quietly-trans :
      {s t : Session os} (r : Option (Work × Session os)) → IsQuiet s t → Quietly t r → Quietly s r
  Quietly-trans none p q = tt
  Quietly-trans (some (work, u)) p q = trans p q

  Quietly-some :
      {s t : Session os} {work : Work} (r : Option (Work × Session os))
      → r ≡ some (work, t)
      → Quietly s r
      → IsQuiet s t
  Quietly-some r e q = rw e at q

  accept_from-Quietly :
      (gmtime : ℕ → Tm) (current_year : ℕ) (result : Accepted) (ts : List Transfer) (s : Session os)
      → Quietly s (accept_from gmtime current_year result ts s)
  unfolding accept_from
  accept_from-Quietly gmtime current_year result [] s = still
  accept_from-Quietly gmtime current_year result (t ∷ ts) s =
      let next = record s { accepting = ts } in
      let took : IsQuiet s next = record {
        paths = record { user = refl; directory = refl; renaming = refl; disk = refl };
        account = record { user = refl; name = refl };
      } in
      let moved = trans took (data_accepted-IsQuiet result next) in
      let (valid, s') = data_accepted result next in
      if-cases (Quietly s) valid (connected gmtime current_year t s') (some (answered, s'))
        (λ _. Quietly-trans _ moved (connected-Quietly gmtime current_year t s')) (λ _. moved)

  pub accept_next-IsQuiet :
      (gmtime : ℕ → Tm) (current_year : ℕ) (result : Accepted) (s : Session os) {work : Work}
      {t : Session os}
      → accept_next gmtime current_year result s ≡ some (work, t)
      → IsQuiet s t
  unfolding accept_next
  accept_next-IsQuiet gmtime current_year result s e =
      Quietly-some _ e (accept_from-Quietly gmtime current_year result s.accepting s)
