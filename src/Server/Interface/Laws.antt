-- ===== src/Server/Interface/Laws.antt =====
-- What a program that uses the library is promised about its users.
use fineftp_server.Base.{
  ◌≡◌, refl, ap, ◌∙◌, ◌↔◌, ◌⊎◌, true, false, some, List, [], ◌∷◌, arith, Bytes, codes, ℕ, ◌<◌,
}
use fineftp_server.Permission.{Permission}
use fineftp_server.Users.{FtpUser, get_user, is_username_anonymous_user}
use fineftp_server.Users.Laws.{
  Registration, register, register_all, first_registration, get_user-register_all,
}
use fineftp_server.Server.{Setup}
use fineftp_server.Server.Interface.{
  FtpServer, ftp_server, with_users, add_user, add_user_anonymous, start, stop, is_serving,
}

-- A call of the program.
pub data Account : Type 0 where
  named : Bytes → Bytes → Bytes → Permission → Account
  anonymous : Bytes → Permission → Account

abbrev pub add : Account → FtpServer → FtpServer
add (named username password root permissions) f = (add_user username password root permissions f).0
add (anonymous root permissions) f = (add_user_anonymous root permissions f).0

abbrev pub add_all : List Account → FtpServer → FtpServer
add_all [] f = f
add_all (a ∷ accounts) f = add_all accounts (add a f)

-- `addUserAnonymous` is `addUser` for the name "anonymous", without a password.
abbrev pub registration : Account → Registration
registration (named username password root permissions) = record {
  username = username;
  user = record { password = password; local_root_path = root; permissions = permissions };
}
registration (anonymous root permissions) = record {
  username = codes "anonymous";
  user = record { password = []; local_root_path = root; permissions = permissions };
}

abbrev pub registrations : List Account → List Registration
registrations [] = []
registrations (a ∷ accounts) = registration a ∷ registrations accounts

add-register :
    (a : Account) (f : FtpServer)
    → (add a f).server.ftp_users ≡ (register (registration a) f.server.ftp_users).0
unfolding add_user add_user_anonymous with_users register
add-register (named username password root permissions) f = refl
add-register (anonymous root permissions) f = refl

add_all-register_all :
    (accounts : List Account) (f : FtpServer)
    → (add_all accounts f).server.ftp_users
      ≡ register_all (registrations accounts) f.server.ftp_users
unfolding register_all
add_all-register_all [] f = refl
add_all-register_all (a ∷ accounts) f =
    add_all-register_all accounts (add a f)
    ∙ ap (register_all (registrations accounts)) (add-register a f)

-- On a new server to which a program added users, anonymous ones among them, whoever logs in under
-- any name and password is the user of the first call for that account, and with the password of
-- that call unless the account is anonymous; and each such login succeeds.
pub get_user-add_all :
    (address : Bytes) (port : ℕ) (accounts : List Account) (n p : Bytes) (u : FtpUser)
    → (get_user n p (add_all accounts (ftp_server address port)).server.ftp_users ≡ some u) ↔ (
        (first_registration n (registrations accounts) ≡ some u)
        × ((is_username_anonymous_user n ≡ true) ⊎ (u.password ≡ p)))
unfolding ftp_server
get_user-add_all address port accounts n p u =
    rw (add_all-register_all accounts (ftp_server address port))
      (get_user-register_all (registrations accounts) n p u)

-- A server that was started with threads serves, until it is stopped.
start-is_serving :
    (threads : ℕ) (setup : Setup) (f : FtpServer)
    → f.stopped ≡ false
    → 0 < threads
    → (start threads setup f).0 ≡ true
    → (is_serving (start threads setup f).1 ≡ true)
      × (is_serving (stop (start threads setup f).1) ≡ false)
unfolding start is_serving stop
start-is_serving threads setup f e h s = ground (arith, e, h, s)
