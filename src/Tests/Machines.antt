-- ===== src/Tests/Machines.antt =====
-- The theorems on files, replies, senders and the server at concrete inputs.
use fineftp_server.Base.{
  ◌≡◌, refl, none, some, List, [], ◌∷◌, true, false, arith, Bytes, codes, All,
}
use fineftp_server.Permission.{all}
use fineftp_server.Message.{FtpMessage, value}
use fineftp_server.Message.FtpReplyCode.{command_ok, action_not_taken}
use fineftp_server.Message.Framing.{read_replies, send_all, IsInline, read_replies-send_all}
use fineftp_server.Users.{find}
use fineftp_server.Users.Laws.{no_users}
use fineftp_server.FileCache.{ReadableFile}
use fineftp_server.FileCache.Laws.{IsFiles, opens, happens, happens-IsFiles}
use fineftp_server.Session.{Session, listening}
use fineftp_server.Session.Upload.{handle_stou, max_attempts}
use fineftp_server.Session.Unique.{IsUnique, handle_stou-IsUnique}
use fineftp_server.Session.Demo.{demo_os, demo_user, demo_env, demo_session, demo_disk, no_files}
use fineftp_server.Session.Output
use fineftp_server.Session.Output.{Output, OutputRun, push_message, written}
use fineftp_server.Session.Output.Laws.{IsOutput, OutputRun-IsOutput, deliver, written-lost}
use fineftp_server.Session.Sender
use fineftp_server.Session.Sender.{Sender, SenderRun, idle, add_data, write_failed}
use fineftp_server.Session.Sender.Stuck.{failed-stuck}
use fineftp_server.Session.Sender.Laws.{IsSender, SenderRun-IsSender}
use fineftp_server.Server
use fineftp_server.Server.{Server, Setup, negsuc, new_server, start, accept_ftp_session}
use fineftp_server.Server.Laws.{IsCounted, ServerRun-IsCounted, bind, start-IsShort}
use fineftp_server.Server.{pos, increment, destroy_session}

no_files-IsFiles : IsFiles no_files
unfolding find
no_files-IsFiles = record { known = λ p i e. cc; named = λ p i f e l. cc }

abbrev path_a : Bytes
path_a = codes "/srv/a"

abbrev file_a : ReadableFile
file_a = record { path = path_a; size = 5; bytes = some (codes "hello") }

happens-IsFiles_example : IsFiles (happens demo_os (opens demo_disk path_a) no_files)
happens-IsFiles_example = happens-IsFiles demo_os (opens demo_disk path_a) no_files no_files-IsFiles

abbrev two_replies : List FtpMessage
two_replies =
    record { reply_code = command_ok; message = b'O' ∷ b'K' ∷ [] }
    ∷ record { reply_code = action_not_taken; message = [] }
    ∷ []

two_replies-IsInline : All (λ m. All IsInline m.message) two_replies
two_replies-IsInline = ground arith

read_replies-send_all_example :
    read_replies 2 (send_all two_replies) ≡ (200, b'O' ∷ b'K' ∷ []) ∷ (550, []) ∷ []
unfolding value
read_replies-send_all_example = read_replies-send_all two_replies two_replies-IsInline

abbrev listener : Session demo_os
listener = record (demo_session (some (demo_user all))) { data_acceptor = listening }

handle_stou-IsUnique_example :
    IsUnique max_attempts demo_env.draws (demo_user all) listener (handle_stou demo_env [] listener)
handle_stou-IsUnique_example = handle_stou-IsUnique demo_env [] listener (demo_user all) refl

abbrev waiting_reply : Output
waiting_reply = push_message (b'x' ∷ []) Output.fresh

fresh-IsOutput : IsOutput Output.fresh
fresh-IsOutput = record { order = refl; busy = λ e. cc; awake = λ n i f. cc }

waiting_reply-IsOutput : IsOutput waiting_reply
waiting_reply-IsOutput =
    OutputRun-IsOutput fresh-IsOutput (Output.steps (Output.pushes (b'x' ∷ [])) Output.stays)

OutputRun-IsOutput_example : IsOutput waiting_reply
OutputRun-IsOutput_example =
    OutputRun-IsOutput fresh-IsOutput (Output.steps (Output.pushes (b'x' ∷ [])) Output.stays)

deliver_example :
    (p : Output) × OutputRun waiting_reply p
    × (p.sent ≡ (b'x' ∷ []) ∷ [])
    × (p.posted ≡ (b'x' ∷ []) ∷ [])
unfolding push_message
deliver_example = deliver waiting_reply waiting_reply-IsOutput refl refl refl

abbrev quitting : Output
quitting = record Output.fresh {
  command_output_queue = (b'x' ∷ []) ∷ (b'y' ∷ []) ∷ [];
  writing = true;
  shutdown_requested = true;
}

written-lost_example : (written quitting).sent ≡ (b'x' ∷ []) ∷ []
written-lost_example =
    written-lost (b'x' ∷ []) ((b'y' ∷ []) ∷ []) quitting (written quitting) refl refl Output.stays

idle-IsSender : IsSender idle
idle-IsSender = record {
  single = λ w. refl;
  once = omega arith;
  ready = λ p. absurd (omega (arith, p));
  data_in_front = λ w. cc;
  kept = λ f. refl;
}

SenderRun-IsSender_example : IsSender (add_data (some (b'x' ∷ [])) idle)
SenderRun-IsSender_example =
    SenderRun-IsSender idle-IsSender (Sender.steps (Sender.adds (some (b'x' ∷ []))) Sender.stays)

abbrev sending : Sender
sending = record idle {
  data_buffer = some (b'x' ∷ []) ∷ none ∷ [];
  writing = true;
  added = b'x' ∷ [];
}

sending-IsSender : IsSender sending
sending-IsSender = record {
  single = λ w. refl;
  once = omega arith;
  ready = λ p. refl;
  data_in_front = λ w. refl;
  kept = λ f. refl;
}

failed-stuck_example :
    ((add_data (some (b'y' ∷ [])) (write_failed sending)).sent ≡ [])
    × ((add_data (some (b'y' ∷ [])) (write_failed sending)).done ≡ 0)
failed-stuck_example =
    failed-stuck sending (add_data (some (b'y' ∷ [])) (write_failed sending)) (some (b'x' ∷ []))
      none [] sending-IsSender refl refl
      (Sender.steps (Sender.adds (some (b'y' ∷ []))) Sender.stays)

abbrev started : Server
started = record (new_server no_users) { accepting = true }

ServerRun-IsCounted_example : IsCounted (accept_ftp_session false started)
ServerRun-IsCounted_example =
    ServerRun-IsCounted {s = started} refl (Server.steps (Server.accepts false refl) Server.stays)

abbrev taken : Setup
taken = record {
  make_address_ok = true;
  open_ok = true;
  set_option_ok = true;
  bind_ok = false;
  listen_ok = true;
}

abbrev free : Setup
free = record taken { bind_ok = true }

abbrev restarted : Server
restarted = (start free (start taken (new_server no_users)).1).1

restarted-accepting : restarted.accepting ≡ true
unfolding start destroy_session
restarted-accepting = refl

start-IsShort_example :
    ((start taken (new_server no_users)).0 ≡ false)
    × ((start free (start taken (new_server no_users)).1).0 ≡ true)
    × (increment (accept_ftp_session false restarted).open_connection_count
        ≡ pos (accept_ftp_session false restarted).active)
start-IsShort_example =
    start-IsShort taken free no_users (bind refl)
      (record { make_address = refl; opens = refl; set_option = refl; bind = refl; listen = refl })
      (Server.steps (Server.accepts false restarted-accepting) Server.stays)
