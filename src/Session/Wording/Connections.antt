-- ===== src/Session/Wording/Connections.antt =====
-- What a session answers for its data connections.
use fineftp_server.Base.{
  if-cases, ℕ, ◌≡◌, refl, Bool, true, false, Option, none, some, List, [], ◌∷◌, ◌++◌, Bytes, codes,
  All-append, if◌then◌else◌,
}
use fineftp_server.Message.Framing.{IsInline}
use fineftp_server.Os.{Os}
use fineftp_server.FileStatus.{Tm}
use fineftp_server.FileCache.{ReadableFile}
use fineftp_server.Session.{Session, Transfer, sends_listing, sends_names, sends_file, receives}
use fineftp_server.Session.Stream.{read_failed}
use fineftp_server.Session.Connection.{
  Accepted, accept_error, accepted, data_accepted, directory_listing, name_list,
}
use fineftp_server.Session.Connection.Transfers.{
  Work, answered, buffers, writes, reads, done, send_content, send_file, send_text, connected,
  file_sent, end_data_receiving, conclude, accept_from, accept_next,
}
use fineftp_server.Session.Wording.{IsText, IsTidy, inline-IsText, send-IsTidy, say-IsTidy}
use fineftp_server.Session.Wording.Numbers.{close-IsTidy}

-- The message of an error of asio is one line.
abbrev pub AcceptedText : Accepted → Type 0
AcceptedText (accept_error message) = IsText message
AcceptedText (accepted data_address command_address) = Unit

aborted-IsText :
    (message : Bytes) → IsText message → IsText (codes "Data transfer aborted: " ++ message)
unfolding codes
aborted-IsText message t =
    let start = codes "Data transfer aborted: " in
    All-append IsInline start message (inline-IsText start refl) t

module _ {os : Os} where
  done-IsTidy : (s : Session os) → IsTidy s → IsTidy (done s)
  unfolding done codes
  done-IsTidy s v = say-IsTidy _ _ refl v

  pub file_sent-IsTidy :
      (message : Bytes) (s : Session os)
      → IsText message
      → IsTidy s
      → IsTidy (file_sent (some message) s)
  unfolding file_sent
  file_sent-IsTidy message s t v = send-IsTidy _ _ (aborted-IsText message t) v

  pub conclude-IsTidy : (work : Work) (s : Session os) → IsTidy s → IsTidy (conclude work s)
  unfolding conclude end_data_receiving file_sent
  conclude-IsTidy answered s v = v
  conclude-IsTidy (buffers queue) s v = done-IsTidy s v
  conclude-IsTidy (writes content) s v = done-IsTidy s v
  conclude-IsTidy (reads path mode) s v = done-IsTidy s v

  pub read_failed-IsTidy : (s : Session os) → IsTidy s → IsTidy (read_failed s)
  unfolding read_failed
  read_failed-IsTidy s v =
      close-IsTidy (record { directory = v.directory; root = v.root; replies = v.replies })

  if-IsTidy_of :
      {A : Type 0} (x y : A × Session os) (b : Bool)
      → IsTidy x.1
      → IsTidy y.1
      → IsTidy (if b then x else y).1
  if-IsTidy_of x y true v w = v
  if-IsTidy_of x y false v w = w

  data_accepted-IsTidy :
      (result : Accepted) (s : Session os)
      → AcceptedText result
      → IsTidy s
      → IsTidy (data_accepted result s).1
  unfolding data_accepted codes
  data_accepted-IsTidy (accept_error message) s t v = send-IsTidy _ _ (aborted-IsText message t) v
  data_accepted-IsTidy (accepted data_address command_address) s t v =
      let closed = close-IsTidy v in
      if-IsTidy_of (true, _) (false, _) _ closed
        (say-IsTidy _ (codes "Data connection rejected") refl closed)

  -- The session that goes on, if one does.
  abbrev Tidily : Option (Work × Session os) → Type 0
  Tidily none = Unit
  Tidily (some (work, s)) = IsTidy s

  send_content-IsTidy :
      (size : ℕ) (content : Option Bytes) (s : Session os)
      → IsTidy s
      → IsTidy (send_content size content s).1
  unfolding send_content codes
  send_content-IsTidy size none s v = say-IsTidy _ _ refl v
  send_content-IsTidy size (some content) s v = v

  send_file-IsTidy : (file : ReadableFile) (s : Session os) → IsTidy s → IsTidy (send_file file s).1
  unfolding send_file
  send_file-IsTidy file s v =
      if-IsTidy_of (answered, done s) (send_content file.size file.bytes s) _ (done-IsTidy s v)
        (send_content-IsTidy file.size file.bytes s v)

  send_text-Tidily : (text : Option Bytes) (s : Session os) → IsTidy s → Tidily (send_text text s)
  unfolding send_text
  send_text-Tidily none s v = tt
  send_text-Tidily (some text) s v = v

  connected-Tidily :
      (gmtime : ℕ → Tm) (current_year : ℕ) (t : Transfer) (s : Session os)
      → IsTidy s
      → Tidily (connected gmtime current_year t s)
  unfolding connected
  connected-Tidily gmtime current_year (sends_listing content) s v =
      send_text-Tidily (directory_listing gmtime current_year content) s v
  connected-Tidily gmtime current_year (sends_names content) s v =
      send_text-Tidily (some (name_list content)) s v
  connected-Tidily gmtime current_year (sends_file i file) s v = send_file-IsTidy file s v
  connected-Tidily gmtime current_year (receives path mode) s v = v

  accept_from-Tidily :
      (gmtime : ℕ → Tm) (current_year : ℕ) (result : Accepted) (ts : List Transfer) (s : Session os)
      → AcceptedText result
      → IsTidy s
      → Tidily (accept_from gmtime current_year result ts s)
  unfolding accept_from
  accept_from-Tidily gmtime current_year result [] s t v = v
  accept_from-Tidily gmtime current_year result (transfer ∷ ts) s t v =
      let next = record s { accepting = ts } in
      let (valid, s') = data_accepted result next in
      let v' =
        data_accepted-IsTidy result next t
          (record { directory = v.directory; root = v.root; replies = v.replies }) in
      if-cases Tidily valid (connected gmtime current_year transfer s') (some (answered, s'))
        (λ _. connected-Tidily gmtime current_year transfer s' v') (λ _. v')

  Tidily-some :
      {work : Work} {s : Session os} (r : Option (Work × Session os))
      → r ≡ some (work, s)
      → Tidily r
      → IsTidy s
  Tidily-some r e v = rw e at v

  pub accept_next-IsTidy :
      (gmtime : ℕ → Tm) (current_year : ℕ) (result : Accepted) (s : Session os) {work : Work}
      {t : Session os}
      → AcceptedText result
      → IsTidy s
      → accept_next gmtime current_year result s ≡ some (work, t)
      → IsTidy t
  unfolding accept_next
  accept_next-IsTidy gmtime current_year result s text v e =
      Tidily-some _ e (accept_from-Tidily gmtime current_year result s.accepting s text v)
