-- ===== src/Session/Identity/Info.antt =====
-- The handlers that only inform leave the account alone.
use fineftp_server.Base.{arith}
use fineftp_server.Os.{Os}
use fineftp_server.Session.{send_message, send_ftp_message, send_raw_ftp_message}
use fineftp_server.Session.Info.{
  handle_allo, handle_rest, handle_abor, handle_site, handle_syst, handle_stat, handle_help,
  handle_noop, handle_feat, handle_opts,
}
use fineftp_server.Session.Identity.{IsHolding}

module _ {os : Os} where
  pub allo-IsHolding : IsHolding (handle_allo {os = os})
  unfolding handle_allo send_message send_ftp_message
  allo-IsHolding param s = ground arith

  pub rest-IsHolding : IsHolding (handle_rest {os = os})
  unfolding handle_rest send_message send_ftp_message
  rest-IsHolding param s = ground arith

  pub abor-IsHolding : IsHolding (handle_abor {os = os})
  unfolding handle_abor send_message send_ftp_message
  abor-IsHolding param s = ground arith

  pub site-IsHolding : IsHolding (handle_site {os = os})
  unfolding handle_site send_message send_ftp_message
  site-IsHolding param s = ground arith

  pub syst-IsHolding : IsHolding (handle_syst {os = os})
  unfolding handle_syst send_message send_ftp_message
  syst-IsHolding param s = ground arith

  pub stat-IsHolding : IsHolding (handle_stat {os = os})
  unfolding handle_stat send_message send_ftp_message
  stat-IsHolding param s = ground arith

  pub help-IsHolding : IsHolding (handle_help {os = os})
  unfolding handle_help send_message send_ftp_message
  help-IsHolding param s = ground arith

  pub noop-IsHolding : IsHolding (handle_noop {os = os})
  unfolding handle_noop send_message send_ftp_message
  noop-IsHolding param s = ground arith

  pub feat-IsHolding : IsHolding (handle_feat {os = os})
  unfolding handle_feat send_message send_ftp_message send_raw_ftp_message
  feat-IsHolding param s = ground arith

  pub opts-IsHolding : IsHolding (handle_opts {os = os})
  unfolding handle_opts send_message send_ftp_message
  opts-IsHolding param s = ground arith
