-- ===== src/Session/Output.antt =====
-- ftp_session.cpp, `sendRawFtpMessage` and `startSendingMessages`: what runs on the command strand
-- to write replies to the control connection. `posted`, `sent` and `failed` record what was handed
-- over, what was written, and that a write failed; the other fields are members of the session.
pub mod Laws
use fineftp_server.Base.{◌≡◌, Bool, true, false, List, [], ◌∷◌, ◌++◌, Bytes, if◌then◌else◌}

pub record Output : Type 0 where
  pub command_output_queue : List Bytes
  -- An `async_write` of the front of the queue has not completed.
  pub writing : Bool
  pub shutdown_requested : Bool
  pub is_open : Bool
  pub posted : List Bytes
  pub sent : List Bytes
  pub failed : Bool

abbrev pub is_empty : List Bytes → Bool
is_empty [] = true
is_empty (r ∷ q) = false

-- The queue of a session that has just started.
abbrev pub fresh : Output
fresh = record {
  command_output_queue = [];
  writing = false;
  shutdown_requested = false;
  is_open = true;
  posted = [];
  sent = [];
  failed = false;
}

unfoldable pub start_sending_messages : Output → Output
start_sending_messages o = record o { writing = true }

-- The function that `sendRawFtpMessage` posts.
unfoldable pub push_message : Bytes → Output → Output
unfolding start_sending_messages
push_message raw o =
    let o' = record o {
      command_output_queue = o.command_output_queue ++ raw ∷ [];
      posted = o.posted ++ raw ∷ [];
    } in
    if is_empty o.command_output_queue then start_sending_messages o' else o'

-- QUIT.
unfoldable pub request_shutdown : Output → Output
request_shutdown o = record o { shutdown_requested = true }

-- What follows the `pop_front` of a write that succeeded.
unfoldable pub continue_sending : Output → Output
unfolding start_sending_messages
continue_sending o =
    if o.shutdown_requested
    then record o { is_open = false }
    else if is_empty o.command_output_queue
    then o
    else start_sending_messages o

-- The completion handler without an error, for the queue as it is.
written_from : List Bytes → Output → Output
unfolding continue_sending
written_from [] o = o
written_from (raw ∷ rest) o =
    continue_sending
      (record o { command_output_queue = rest; writing = false; sent = o.sent ++ raw ∷ [] })

unfoldable pub written : Output → Output
unfolding written_from
written o = written_from o.command_output_queue o

-- The completion handler with an error: it only logs.
unfoldable pub write_failed : Output → Output
write_failed o = record o { writing = false; failed = true }

-- One handler of the strand. A write completes only if there is one, and succeeds only on an open
-- socket.
pub data OutputStep (o : Output) : Output → Type 0 where
  pushes : (raw : Bytes) → OutputStep o (push_message raw o)
  quits : OutputStep o (request_shutdown o)
  writes : o.writing ≡ true → o.is_open ≡ true → OutputStep o (written o)
  fails : o.writing ≡ true → OutputStep o (write_failed o)

pub data OutputRun : Output → Output → Type 0 where
  stays : {o : Output} → OutputRun o o
  steps : {o p q : Output} → OutputStep o p → OutputRun p q → OutputRun o q
