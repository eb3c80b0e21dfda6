-- ===== src/Server.antt =====
-- fineftp-server/src/server_impl.{h,cpp}: `start`, the accept handler, and the count of open
-- connections. A session that is created waits to be accepted; its destructor calls the completion
-- handler, which counts down, whether it was accepted or not.
pub mod Laws
pub mod System
pub mod Interface
use fineftp_server.Base.{ℕ, zero, suc, ◌+◌, ◌-◌, ◌<◌, ◌≡◌, Bool, true, false, ◌&&◌, if◌then◌else◌}
use fineftp_server.Users.{UserDatabase}

-- `int`, without its bounds.
pub data ℤ : Type 0 where
  pos negsuc : ℕ → ℤ

unfoldable pub increment : ℤ → ℤ
increment (pos n) = pos (n + 1)
increment (negsuc zero) = pos 0
increment (negsuc (suc n)) = negsuc n

unfoldable pub decrement : ℤ → ℤ
decrement (pos zero) = negsuc 0
decrement (pos (suc n)) = pos n
decrement (negsuc n) = negsuc (n + 1)

pub record Server : Type 0 where
  pub ftp_users : UserDatabase
  pub open_connection_count : ℤ
  -- A session waits in `async_accept`.
  pub accepting : Bool
  -- The sessions that were accepted and are not destroyed.
  pub active : ℕ

abbrev pub new_server : UserDatabase → Server
new_server users = record {
  ftp_users = users;
  open_connection_count = pos 0;
  accepting = false;
  active = 0;
}

-- What asio answers while the acceptor is set up.
pub record Setup : Type 0 where
  pub make_address_ok : Bool
  pub open_ok : Bool
  pub set_option_ok : Bool
  pub bind_ok : Bool
  pub listen_ok : Bool

-- `~FtpSession` calls its completion handler.
unfoldable pub destroy_session : Server → Server
destroy_session s = record s { open_connection_count = decrement s.open_connection_count }

-- `start`: each step that fails returns, and so destroys the session that was created first.
unfoldable pub start : Setup → Server → Bool × Server
unfolding destroy_session
start setup s =
    if setup.make_address_ok
      && (setup.open_ok && (setup.set_option_ok && (setup.bind_ok && setup.listen_ok)))
    then (true, record s { accepting = true })
    else (false, destroy_session s)

-- The handler of `async_accept`: it counts, and `acceptFtpSession` either returns, which destroys
-- the session, or starts it and waits with a new one.
unfoldable pub accept_ftp_session : Bool → Server → Server
unfolding destroy_session
accept_ftp_session error s =
    let counted = record s {
      open_connection_count = increment s.open_connection_count;
      accepting = false;
    } in
    if error
    then destroy_session counted
    else record counted { active = s.active + 1; accepting = true }

-- The last pointer to a session that was accepted is dropped.
unfoldable pub end_session : Server → Server
unfolding destroy_session
end_session s = destroy_session (record s { active = s.active - 1 })

pub data ServerStep (s : Server) : Server → Type 0 where
  accepts : (error : Bool) → s.accepting ≡ true → ServerStep s (accept_ftp_session error s)
  ends : 0 < s.active → ServerStep s (end_session s)

pub data ServerRun : Server → Server → Type 0 where
  stays : {s : Server} → ServerRun s s
  steps : {s t u : Server} → ServerStep s t → ServerRun t u → ServerRun s u
