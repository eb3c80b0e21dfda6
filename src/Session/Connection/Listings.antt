-- ===== src/Session/Connection/Listings.antt =====
-- LIST and NLST from the command to the end of the transfer.
use fineftp_server.Base.{
  ℕ, ◌+◌, ◌≡◌, refl, ap, ◌∙◌, true, false, Option, none, some, List, [], ◌∷◌, ◌++◌, append_assoc,
  arith, Bytes, codes,
}
use fineftp_server.Permission.{denies, dir_list}
use fineftp_server.Message.{str}
use fineftp_server.Message.FtpReplyCode.{
  file_status_ok_opening_data_connection, closing_data_connection,
}
use fineftp_server.Users.{FtpUser}
use fineftp_server.Os.{Os}
use fineftp_server.FileStatus.{FileStatus, Tm, type, is_dir, can_open_dir, dir_content}
use fineftp_server.Session.{
  Session, Transfer, sends_listing, sends_names, Address, to_local_path, send_ftp_message,
  accept_data_connection, status_of,
}
use fineftp_server.Session.Listing.{handle_list, handle_nlst, list_directory, list_path}
use fineftp_server.Session.Sender.{SenderRun}
use fineftp_server.Session.Sender.Laws.{waiting, transmits}
use fineftp_server.Session.Connection.{directory_listing, name_list}
use fineftp_server.Session.Connection.Transfers.{buffers, done, connected, conclude, send_text}
use fineftp_server.Session.Connection.Delivery.{
  work_of, replies_after, connect_from, connect_from-connected, close_data_acceptor-posted,
}

-- The reply to the command, and the one that ends the transfer.
abbrev pub listing_replies : Bytes → List Bytes
listing_replies announce =
    str (record { reply_code = file_status_ok_opening_data_connection; message = announce })
    ∷ str (record { reply_code = closing_data_connection; message = codes "Done" })
    ∷ []

-- The text that a transfer hands to the sender.
abbrev pub text_of : (ℕ → Tm) → ℕ → Transfer → Option Bytes
text_of gmtime current_year (sends_listing content) = directory_listing gmtime current_year content
text_of gmtime current_year (sends_names content) = some (name_list content)
text_of gmtime current_year _ = none

module _ {os : Os} where
  connected-buffers :
      (gmtime : ℕ → Tm) (current_year : ℕ) (t : Transfer) (text : Bytes) (s : Session os)
      → text_of gmtime current_year t ≡ some text
      → connected gmtime current_year t s ≡ some (buffers (some text ∷ none ∷ []), s)
  unfolding connected send_text
  connected-buffers gmtime current_year (sends_listing content) text s e = rw e refl
  connected-buffers gmtime current_year (sends_names content) text s e = ground (arith, e)
  connected-buffers gmtime current_year _ text s e = cc

  -- What LIST and NLST leave behind when they succeed.
  announced : Transfer → Bytes → Session os → Session os
  announced t announce s =
      accept_data_connection t (send_ftp_message file_status_ok_opening_data_connection announce s)

  announced-delivers :
      (t : Transfer) (announce text : Bytes) (s : Session os) (a : Address) (gmtime : ℕ → Tm)
      (current_year : ℕ)
      → s.accepting ≡ []
      → text_of gmtime current_year t ≡ some text
      → (work_of (connect_from a gmtime current_year (announced t announce s))
          ≡ some (buffers (some text ∷ none ∷ [])))
        × (replies_after (connect_from a gmtime current_year (announced t announce s))
            ≡ s.posted ++ listing_replies announce)
  unfolding announced accept_data_connection send_ftp_message conclude done
  announced-delivers t announce text s a gmtime current_year w e =
      let s' = announced t announce s in
      let one : s'.accepting ≡ t ∷ [] = ap (λ ts. ts ++ t ∷ []) w in
      let started = connect_from-connected t a gmtime current_year s' one in
      rw (started, connected-buffers gmtime current_year t text _ e)
        (
          refl,
          ap
                (λ rs.
                  rs
                  ++ str (record { reply_code = closing_data_connection; message = codes "Done" })
                    ∷ [])
                (close_data_acceptor-posted (record s' { accepting = [] }))
              ∙ append_assoc s.posted _ _,
        )

  -- The directory that a parameter names can be listed.
  pub record IsListable (user : FtpUser) (param : Bytes) (s : Session os) : Type 0 where
    pub there : (status_of user param s).is_ok ≡ true
    pub directory : is_dir (type (status_of user param s)) ≡ true
    pub opens : can_open_dir os s.disk (status_of user param s) ≡ true

  abbrev pub content_at : FtpUser → Bytes → Session os → List (Bytes × FileStatus)
  content_at user param s = dir_content os s.disk (to_local_path user s.ftp_working_directory param)

  list_directory-announced :
      (transfer : List (Bytes × FileStatus) → Transfer) (announce : Bytes) (user : FtpUser)
      (param : Bytes) (s : Session os)
      → IsListable user param s
      → list_directory transfer announce user param s
        ≡ announced (transfer (content_at user param s)) announce s
  unfolding list_directory announced
  list_directory-announced transfer announce user param s h =
      ground (arith, h.there, h.directory, h.opens)

  handle_list-announced :
      (param : Bytes) (s : Session os) (user : FtpUser)
      → s.logged_in_user ≡ some user
      → denies user.permissions dir_list ≡ false
      → handle_list param s
        ≡ list_directory sends_listing (codes "Sending directory listing") user (list_path param) s
  unfolding handle_list
  handle_list-announced param s user e d = ground (arith, e, d)

  handle_nlst-announced :
      (param : Bytes) (s : Session os) (user : FtpUser)
      → s.logged_in_user ≡ some user
      → denies user.permissions dir_list ≡ false
      → handle_nlst param s ≡ list_directory sends_names (codes "Sending name list") user param s
  unfolding handle_nlst
  handle_nlst-announced param s user e d = ground (arith, e, d)

-- LIST by a user who is logged in with the permission to list, with no other transfer waiting, of a
-- directory that opens, where no time of its entries is out of range: once the client connects from
-- its own address, the text of all entries, and then the end marker, are handed to the sender, and
-- the two replies are `150 Sending directory listing` and `226 Done`; and a sender with nothing to do
-- can send exactly this text and then answer, which leaves it with nothing to do again.
pub handle_list-delivers :
    {os : Os} (param : Bytes) (s : Session os) (user : FtpUser) (text : Bytes) (a : Address)
    (gmtime : ℕ → Tm) (current_year : ℕ) (added sent : Bytes) (answers : ℕ)
    → s.logged_in_user ≡ some user
    → denies user.permissions dir_list ≡ false
    → s.accepting ≡ []
    → IsListable user (list_path param) s
    → directory_listing gmtime current_year (content_at user (list_path param) s) ≡ some text
    → (work_of (connect_from a gmtime current_year (handle_list param s))
        ≡ some (buffers (some text ∷ none ∷ [])))
      × (replies_after (connect_from a gmtime current_year (handle_list param s))
          ≡ s.posted ++ listing_replies (codes "Sending directory listing"))
      × SenderRun
          (waiting added sent answers)
          (waiting ((added ++ text) ++ []) (sent ++ text) (answers + 1))
handle_list-delivers param s user text a gmtime current_year added sent answers e d w h t =
    let content = content_at user (list_path param) s in
    let (work, replies) =
      announced-delivers (sends_listing content) (codes "Sending directory listing") text s a gmtime
        current_year w t in
    let announces =
      handle_list-announced param s user e d
      ∙ list_directory-announced sends_listing _ user (list_path param) s h in
    (rw announces work, rw announces replies, transmits added sent text answers)

-- The same for NLST, whose text cannot fail.
handle_nlst-delivers :
    {os : Os} (param : Bytes) (s : Session os) (user : FtpUser) (a : Address) (gmtime : ℕ → Tm)
    (current_year : ℕ)
    → s.logged_in_user ≡ some user
    → denies user.permissions dir_list ≡ false
    → s.accepting ≡ []
    → IsListable user param s
    → (work_of (connect_from a gmtime current_year (handle_nlst param s))
        ≡ some (buffers (some (name_list (content_at user param s)) ∷ none ∷ [])))
      × (replies_after (connect_from a gmtime current_year (handle_nlst param s))
          ≡ s.posted ++ listing_replies (codes "Sending name list"))
handle_nlst-delivers param s user a gmtime current_year e d w h =
    let content = content_at user param s in
    let (work, replies) =
      announced-delivers (sends_names content) (codes "Sending name list") (name_list content) s a
        gmtime current_year w refl in
    let announces =
      handle_nlst-announced param s user e d
      ∙ list_directory-announced sends_names _ user param s h in
    (rw announces work, rw announces replies)
