-- ===== src/Server/Interface.antt =====
-- fineftp-server/src/server.cpp, include/fineftp/server.h, and the members of `FtpServerImpl` behind
-- them. `FtpServer` forwards each call to its `FtpServerImpl`, so both are one record. The thread pool
-- is the number of its threads; `stopped` is that of the `io_context`. What `local_endpoint` of the
-- acceptor says is an argument of the getters.
pub mod Laws
use fineftp_server.Base.{
  ℕ, ◌+◌, Bool, true, false, not, ◌&&◌, Option, none, some, List, [], ◌∷◌, Bytes, codes, ltb,
  if◌then◌else◌,
}
use fineftp_server.Permission.{Permission}
use fineftp_server.Users
use fineftp_server.Users.{UserDatabase}
use fineftp_server.Server
use fineftp_server.Server.{ℤ, Server, Setup, new_server}

pub record FtpServer : Type 0 where
  pub address : Bytes
  pub port : ℕ
  pub thread_pool : ℕ
  pub stopped : Bool
  pub server : Server

-- The constructors.
unfoldable pub ftp_server : Bytes → ℕ → FtpServer
ftp_server address port = record {
  address = address;
  port = port;
  thread_pool = 0;
  stopped = false;
  server = new_server (record { database = []; anonymous_user = none });
}

unfoldable pub ftp_server_on : ℕ → FtpServer
unfolding ftp_server
ftp_server_on port = ftp_server (codes "0.0.0.0") port

with_users : FtpServer → UserDatabase × Bool → FtpServer × Bool
with_users f (users, added) = (record f { server = record f.server { ftp_users = users } }, added)

unfoldable pub add_user : Bytes → Bytes → Bytes → Permission → FtpServer → FtpServer × Bool
unfolding with_users
add_user username password local_root_path permissions f =
    with_users f (Users.add_user username password local_root_path permissions f.server.ftp_users)

unfoldable pub add_user_anonymous : Bytes → Permission → FtpServer → FtpServer × Bool
unfolding with_users
add_user_anonymous local_root_path permissions f =
    with_users f
      (Users.add_user (codes "anonymous") [] local_root_path permissions f.server.ftp_users)

-- `start`: the threads are added once the acceptor listens.
unfoldable pub start : ℕ → Setup → FtpServer → Bool × FtpServer
start thread_count setup f =
    let (started, server) = Server.start setup f.server in
    let f' = record f { server = server } in
    if started
    then (true, record f' { thread_pool = f.thread_pool + thread_count })
    else (false, f')

unfoldable pub stop : FtpServer → FtpServer
stop f = record f { thread_pool = 0; stopped = true }

unfoldable pub get_open_connection_count : FtpServer → ℤ
get_open_connection_count f = f.server.open_connection_count

-- Handlers run only on a thread of the pool.
unfoldable pub is_serving : FtpServer → Bool
is_serving f = not f.stopped && ltb 0 f.thread_pool

-- `getPort` and `getAddress`, which throw if the acceptor has no endpoint.
unfoldable pub get_port : Option (Bytes × ℕ) → FtpServer → Option ℕ
get_port none f = none
get_port (some (address, port)) f = some port

unfoldable pub get_address : Option (Bytes × ℕ) → FtpServer → Option Bytes
get_address none f = none
get_address (some (address, port)) f = some address
