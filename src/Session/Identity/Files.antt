-- ===== src/Session/Identity/Files.antt =====
-- The handlers that work on files and directories leave the account alone.
use fineftp_server.Base.{ℕ, zero, suc, ◌+◌, arith, Option-cases, inl, inr}
use fineftp_server.Users.{FtpUser}
use fineftp_server.Os.{Os}
use fineftp_server.Session.{Session, Env, send_message, send_ftp_message, accept_data_connection}
use fineftp_server.Session.Upload.{
  handle_stor, handle_stou, handle_appe, max_attempts, store, store_unique, append_to,
  open_and_receive, opened_write, opened_unique,
}
use fineftp_server.Session.Download.{handle_retr, handle_size, handle_mdtm}
use fineftp_server.Session.Manage.{
  handle_rnfr, handle_rnto, handle_dele, handle_rmd, handle_mkd, handle_pwd, rename_to, after_call,
}
use fineftp_server.Session.Listing.{handle_list, handle_nlst}
use fineftp_server.Session.Identity.{IsCalm, IsHolding}

module _ {os : Os} where
  pub retr-IsHolding : IsHolding (handle_retr {os = os})
  unfolding handle_retr send_message send_ftp_message accept_data_connection
  retr-IsHolding param s = ground arith

  pub stor-IsHolding : IsHolding (handle_stor {os = os})
  unfolding handle_stor send_message send_ftp_message store open_and_receive opened_write
      accept_data_connection
  stor-IsHolding param s = ground arith

  pub appe-IsHolding : IsHolding (handle_appe {os = os})
  unfolding handle_appe send_message send_ftp_message append_to open_and_receive opened_write
      accept_data_connection
  appe-IsHolding param s = ground arith

  pub rnfr-IsHolding : IsHolding (handle_rnfr {os = os})
  unfolding handle_rnfr send_message send_ftp_message
  rnfr-IsHolding param s = ground arith

  pub rnto-IsHolding : IsHolding (handle_rnto {os = os})
  unfolding handle_rnto send_message send_ftp_message rename_to after_call
  rnto-IsHolding param s = ground arith

  pub dele-IsHolding : IsHolding (handle_dele {os = os})
  unfolding handle_dele send_message send_ftp_message after_call
  dele-IsHolding param s = ground arith

  pub rmd-IsHolding : IsHolding (handle_rmd {os = os})
  unfolding handle_rmd send_message send_ftp_message after_call
  rmd-IsHolding param s = ground arith

  pub mkd-IsHolding : IsHolding (handle_mkd {os = os})
  unfolding handle_mkd send_message send_ftp_message after_call
  mkd-IsHolding param s = ground arith

  pub pwd-IsHolding : IsHolding (handle_pwd {os = os})
  unfolding handle_pwd send_message send_ftp_message
  pwd-IsHolding param s = ground arith

  pub list-IsHolding : IsHolding (handle_list {os = os})
  unfolding handle_list send_message send_ftp_message accept_data_connection
  list-IsHolding param s = ground arith

  pub nlst-IsHolding : IsHolding (handle_nlst {os = os})
  unfolding handle_nlst send_message send_ftp_message accept_data_connection
  nlst-IsHolding param s = ground arith

  pub size-IsHolding : IsHolding (handle_size {os = os})
  unfolding handle_size send_message send_ftp_message
  size-IsHolding param s = ground arith

  store_unique-IsCalm :
      (attempts : ℕ) (draws : ℕ → ℕ) (user : FtpUser) (s : Session os)
      → IsCalm s (store_unique attempts draws user s)
  unfolding store_unique opened_unique accept_data_connection send_ftp_message
  store_unique-IsCalm zero draws user s = ground arith
  store_unique-IsCalm (suc n) draws user s =
      let rest = store_unique-IsCalm n draws user (record s { drawn = s.drawn + 1 }) in
      ground (arith, rest.account.user, rest.account.name, rest.thrown, rest.shutdown)

  pub stou-IsHolding : (env : Env) → IsHolding (handle_stou {os = os} env)
  unfolding handle_stou send_ftp_message
  stou-IsHolding env param s = elim (Option-cases s.logged_in_user) [
    | inl e ↦ rw e ground arith
    | inr (user, e) ↦
        let stored = store_unique-IsCalm max_attempts env.draws user s in
        ground (arith, e, stored.account.user, stored.account.name, stored.thrown, stored.shutdown)
  ]

  pub mdtm-IsHolding : (env : Env) → IsHolding (handle_mdtm {os = os} env)
  unfolding handle_mdtm send_message send_ftp_message
  mdtm-IsHolding env param s = ground arith
