-- ===== src/Message.antt =====
-- fineftp-server/src/ftp_message.h: the reply codes and the text of a reply.
pub mod Framing
use fineftp_server.Base.{ℕ, ◌++◌, Bytes, codes, to_string}

pub data FtpReplyCode : Type 0 where
  command_ok syntax_error_unrecognized_command syntax_error_parameters : FtpReplyCode
  command_not_implemented_superflous command_not_implemented commands_bad_sequence : FtpReplyCode
  command_not_implemented_for_parameter : FtpReplyCode
  reply_restart_marker reply_system_status directory_status file_status : FtpReplyCode
  help_message name_system_type : FtpReplyCode
  service_ready_in_minutes service_ready_for_new_user : FtpReplyCode
  service_closing_control_connection service_not_available : FtpReplyCode
  data_connection_open_transfer_starting data_connection_open_no_transfer : FtpReplyCode
  error_opening_data_connection closing_data_connection transfer_aborted : FtpReplyCode
  entering_passive_mode : FtpReplyCode
  user_logged_in not_logged_in user_name_ok need_account_for_login : FtpReplyCode
  need_account_for_storing_files file_status_ok_opening_data_connection : FtpReplyCode
  file_action_completed pathname_created file_action_needs_further_info : FtpReplyCode
  file_action_not_taken action_not_taken action_aborted_local_error : FtpReplyCode
  action_aborted_page_type_unknown action_not_taken_insufficient_storage_space : FtpReplyCode
  file_action_aborted action_not_taken_filename_not_allowed : FtpReplyCode

-- `static_cast<int>(code)`.
unfoldable pub value : FtpReplyCode → ℕ
value command_ok = 200
value syntax_error_unrecognized_command = 500
value syntax_error_parameters = 501
value command_not_implemented_superflous = 202
value command_not_implemented = 502
value commands_bad_sequence = 503
value command_not_implemented_for_parameter = 504
value reply_restart_marker = 110
value reply_system_status = 211
value directory_status = 212
value file_status = 213
value help_message = 214
value name_system_type = 215
value service_ready_in_minutes = 120
value service_ready_for_new_user = 220
value service_closing_control_connection = 221
value service_not_available = 421
value data_connection_open_transfer_starting = 125
value data_connection_open_no_transfer = 225
value error_opening_data_connection = 425
value closing_data_connection = 226
value transfer_aborted = 426
value entering_passive_mode = 227
value user_logged_in = 230
value not_logged_in = 530
value user_name_ok = 331
value need_account_for_login = 332
value need_account_for_storing_files = 532
value file_status_ok_opening_data_connection = 150
value file_action_completed = 250
value pathname_created = 257
value file_action_needs_further_info = 350
value file_action_not_taken = 450
value action_not_taken = 550
value action_aborted_local_error = 451
value action_aborted_page_type_unknown = 551
value action_not_taken_insufficient_storage_space = 452
value file_action_aborted = 552
value action_not_taken_filename_not_allowed = 553

pub record FtpMessage : Type 0 where
  pub reply_code : FtpReplyCode
  pub message : Bytes

-- `FtpMessage::str`.
unfoldable pub str : FtpMessage → Bytes
str m = to_string (value m.reply_code) ++ codes " " ++ m.message ++ codes "\r\n"
