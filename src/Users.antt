-- ===== src/Users.antt =====
-- fineftp-server/src/ftp_user.h and user_database.{h,cpp}. The map of users is an association list;
-- the mutex makes each call atomic, and what the calls log is left out.
pub mod Laws
use fineftp_server.Base.{
  Bool, true, false, ◌||◌, Option, none, some, List, [], ◌∷◌, Bytes, codes, bytes_eq, String,
  if◌then◌else◌,
}
use fineftp_server.Permission.{Permission}

pub record FtpUser : Type 0 where
  pub password : Bytes
  pub local_root_path : Bytes
  pub permissions : Permission

pub record UserDatabase : Type 0 where
  pub database : List (Bytes × FtpUser)
  pub anonymous_user : Option FtpUser

-- `std::string::empty`.
abbrev pub empty : Bytes → Bool
empty [] = true
empty (c ∷ s) = false

-- `std::map::find`.
unfoldable pub find {ℓ} : {V : Type ℓ} → Bytes → List (Bytes × V) → Option V
find k [] = none
find k ((j, v) ∷ m) = if bytes_eq j k then some v else find k m

unfoldable pub is_username_anonymous_user : Bytes → Bool
is_username_anonymous_user username =
    empty username || bytes_eq username (codes "ftp") || bytes_eq username (codes "anonymous")

add_anonymous : FtpUser → UserDatabase → UserDatabase × Bool
add_anonymous user db = elim db.anonymous_user [
  | some old ↦ (db, false)
  | none ↦ (record db { anonymous_user = some user }, true)
]

add_named : Bytes → FtpUser → UserDatabase → UserDatabase × Bool
add_named username user db = elim (find username db.database) [
  | none ↦ (record db { database = (username, user) ∷ db.database }, true)
  | some old ↦ (db, false)
]

unfoldable pub add_user : Bytes → Bytes → Bytes → Permission → UserDatabase → UserDatabase × Bool
unfolding add_anonymous add_named
add_user username password local_root_path permissions db =
    if is_username_anonymous_user username
    then add_anonymous user db
    else add_named username user db
  where
    user : FtpUser
    user = record {
      password = password;
      local_root_path = local_root_path;
      permissions = permissions;
    }

check_password : Bytes → Option FtpUser → Option FtpUser
check_password password none = none
check_password password (some user) = if bytes_eq user.password password then some user else none

unfoldable pub get_user : Bytes → Bytes → UserDatabase → Option FtpUser
unfolding check_password
get_user username password db =
    if is_username_anonymous_user username
    then db.anonymous_user
    else check_password password (find username db.database)
