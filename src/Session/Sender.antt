-- ===== src/Session/Sender.antt =====
-- ftp_session.cpp, `addDataToBufferAndSend` and `writeDataToSocket`: what runs on the data strand to
-- send listings. `tasks` counts the functions that `writeDataToSocket` has posted; `added`, `sent`
-- and `done` record the data handed over, the data written, and how often `Done` was answered; the
-- buffer is the member of the session.
pub mod Laws
pub mod Stuck
use fineftp_server.Base.{
  ℕ, ◌+◌, ◌-◌, ◌<◌, ◌≡◌, Bool, true, false, Option, none, some, List, [], ◌∷◌, ◌++◌, Bytes,
  if◌then◌else◌,
}

-- `none` is the null pointer, which ends a transmission.
pub record Sender : Type 0 where
  pub data_buffer : List (Option Bytes)
  pub tasks : ℕ
  -- An `async_write` of the front of the buffer has not completed.
  pub writing : Bool
  pub added : Bytes
  pub sent : Bytes
  pub done : ℕ
  pub failed : Bool

abbrev pub is_empty : List (Option Bytes) → Bool
is_empty [] = true
is_empty (d ∷ q) = false

abbrev pub bytes_of : Option Bytes → Bytes
bytes_of none = []
bytes_of (some d) = d

abbrev pub idle : Sender
idle = record {
  data_buffer = [];
  tasks = 0;
  writing = false;
  added = [];
  sent = [];
  done = 0;
  failed = false;
}

-- `writeDataToSocket` posts its function.
unfoldable pub write_data_to_socket : Sender → Sender
write_data_to_socket s = record s { tasks = s.tasks + 1 }

-- The function that `addDataToBufferAndSend` posts.
unfoldable pub add_data : Option Bytes → Sender → Sender
unfolding write_data_to_socket
add_data d s =
    let s' = record s { data_buffer = s.data_buffer ++ d ∷ []; added = s.added ++ bytes_of d } in
    if is_empty s.data_buffer then write_data_to_socket s' else s'

-- The function that `writeDataToSocket` posts, on the buffer as it is; `front` of an empty deque is
-- undefined.
pub start_from : List (Option Bytes) → Sender → Option Sender
start_from [] s = none
start_from (some d ∷ rest) s = some (record s { writing = true })
start_from (none ∷ rest) s = some (record s { data_buffer = rest; done = s.done + 1 })

-- One such function runs.
unfoldable pub start_writing : Sender → Option Sender
start_writing s = start_from s.data_buffer (record s { tasks = s.tasks - 1 })

-- The completion handler of the write of the front, without an error.
unfoldable pub written_from : List (Option Bytes) → Sender → Sender
unfolding write_data_to_socket
written_from [] s = s
written_from (d ∷ rest) s =
    let s' = record s { data_buffer = rest; writing = false; sent = s.sent ++ bytes_of d } in
    if is_empty rest then s' else write_data_to_socket s'

unfoldable pub written : Sender → Sender
unfolding written_from
written s = written_from s.data_buffer s

-- With an error it only drops the front.
abbrev pub without_front : List (Option Bytes) → List (Option Bytes)
without_front [] = []
without_front (d ∷ rest) = rest

unfoldable pub write_failed : Sender → Sender
write_failed s = record s {
  data_buffer = without_front s.data_buffer;
  writing = false;
  failed = true;
}

-- One handler of the strand.
pub data SenderStep (s : Sender) : Sender → Type 0 where
  adds : (d : Option Bytes) → SenderStep s (add_data d s)
  starts : {t : Sender} → 0 < s.tasks → start_writing s ≡ some t → SenderStep s t
  writes : s.writing ≡ true → SenderStep s (written s)
  fails : s.writing ≡ true → SenderStep s (write_failed s)

pub data SenderRun : Sender → Sender → Type 0 where
  stays : {s : Sender} → SenderRun s s
  steps : {s t u : Sender} → SenderStep s t → SenderRun t u → SenderRun s u
