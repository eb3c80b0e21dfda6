-- ===== src/Users/Laws.antt =====
-- What logging in promises, against the history of `addUser` calls.
use mathlib.Core.Option.{or_else}
use mathlib.Core.Path.{subst}
use fineftp_server.Base.{
  some-injective, ◌≡◌, sym, ◌∙◌, ◌↔◌, All, Bool-cases, Option-cases, inl, inr, ◌⊎◌, Bool, true, not,
  ◌&&◌, ◌||◌, Option, none, some, List, [], ◌∷◌, arith, Bytes, bytes_eq, bytes_eq_iff,
  if◌then◌else◌,
}
use fineftp_server.Users.{
  FtpUser, UserDatabase, find, is_username_anonymous_user, add_user, get_user,
}

-- The user that a name stands for, whatever the password.
pub registered : Bytes → UserDatabase → Option FtpUser
registered n db = if is_username_anonymous_user n then db.anonymous_user else find n db.database

-- Two names of one account: the same name, or two names of the anonymous user.
pub same_account : Bytes → Bytes → Bool
same_account m n =
    (is_username_anonymous_user m && is_username_anonymous_user n)
    || (not (is_username_anonymous_user m) && (not (is_username_anonymous_user n) && bytes_eq m n))

pub record Registration : Type 0 where
  pub username : Bytes
  pub user : FtpUser

unfoldable pub register : Registration → UserDatabase → UserDatabase × Bool
register r db = add_user r.username r.user.password r.user.local_root_path r.user.permissions db

-- The database after a sequence of `addUser` calls.
unfoldable pub register_all : List Registration → UserDatabase → UserDatabase
register_all [] db = db
register_all (r ∷ rs) db = register_all rs (register r db).0

-- The first call for the account decides.
pub first_registration : Bytes → List Registration → Option FtpUser
first_registration n [] = none
first_registration n (r ∷ rs) =
    if same_account r.username n then some r.user else first_registration n rs

abbrev pub no_users : UserDatabase
no_users = record { database = []; anonymous_user = none }

registered-register :
    (r : Registration) (n : Bytes) (db : UserDatabase)
    → registered n (register r db).0
      ≡ or_else (registered n db) (if same_account r.username n then some r.user else none)
unfolding registered register add_user same_account or_else find
registered-register r n db = ground (arith, bytes_eq_iff r.username n)

-- A call succeeds exactly when the account is free, and a call that fails changes nothing.
pub register_result :
    (r : Registration) (db : UserDatabase)
    → (((register r db).1 ≡ true) ↔ (registered r.username db ≡ none))
      × (((register r db).1 ≡ true) ⊎ ((register r db).0 ≡ db))
unfolding registered register add_user
register_result r db = ((λ e. ground arith, λ e. ground arith), ground arith)

registered-register_all :
    (rs : List Registration) (n : Bytes) (db : UserDatabase)
    → registered n (register_all rs db) ≡ or_else (registered n db) (first_registration n rs)
unfolding register_all first_registration or_else
registered-register_all [] n db = ground arith
registered-register_all (r ∷ rs) n db =
    ground (arith, registered-register_all rs n (register r db).0, registered-register r n db)

first_lem :
    (rs : List Registration) (n : Bytes)
    → registered n (register_all rs no_users) ≡ first_registration n rs
unfolding registered or_else find
first_lem rs n = ground (arith, registered-register_all rs n no_users)

-- A login gives the user of the account: the anonymous one with any password, a named one only with
-- its password.
get_user_iff :
    (n p : Bytes) (db : UserDatabase) (u : FtpUser)
    → (get_user n p db ≡ some u)
      ↔ ((registered n db ≡ some u) × ((is_username_anonymous_user n ≡ true) ⊎ (u.password ≡ p)))
unfolding get_user registered
get_user_iff n p db u = (
  λ e. (ground arith, ground (arith, bytes_eq_iff u.password p)),
  λ h. ground (arith, bytes_eq_iff u.password p),
)

-- Whoever logs in, under any name and password, to a database built by `addUser` calls is the user
-- of the first call for that account; the password is that user's, unless the account is anonymous.
-- And each such login succeeds.
pub get_user-register_all :
    (rs : List Registration) (n p : Bytes) (u : FtpUser)
    → (get_user n p (register_all rs no_users) ≡ some u) ↔ (
        (first_registration n rs ≡ some u)
        × ((is_username_anonymous_user n ≡ true) ⊎ (u.password ≡ p)))
get_user-register_all rs n p u = (
  λ e. let (r, h) = (get_user_iff n p _ u).0 e in (sym (first_lem rs n) ∙ r, h),
  λ (r, h). (get_user_iff n p _ u).1 (first_lem rs n ∙ r, h),
)

-- What is found in a map satisfies what all its values satisfy.
pub find-All {ℓ κ} :
    {V : Type ℓ} (P : V → Type κ) (k : Bytes) (m : List (Bytes × V)) {v : V}
    → All (λ e. P e.1) m
    → find k m ≡ some v
    → P v
unfolding find
find-All P k [] h e = cc
find-All P k ((j, w) ∷ m) h e = elim (Bool-cases (bytes_eq j k)) [
  | inl b ↦ ground (arith, h.0, rw b at e)
  | inr b ↦ find-All P k m h.1 (rw b at e)
]

-- The same for an entry as a whole.
pub find-All-entry {ℓ κ} :
    {V : Type ℓ} (P : Bytes × V → Type κ) (k : Bytes) (m : List (Bytes × V)) {v : V}
    → All P m
    → find k m ≡ some v
    → P (k, v)
unfolding find
find-All-entry P k [] h e = cc
find-All-entry P k ((j, w) ∷ m) h e = elim (Bool-cases (bytes_eq j k)) [
  | inl b ↦
      let same : j ≡ k = (bytes_eq_iff j k).0 b in
      let found : w ≡ _ = some-injective (rw b at e) in
      subst (λ v. P (k, v)) found (subst (λ i. P (i, w)) same h.0)
  | inr b ↦ find-All-entry P k m h.1 (rw b at e)
]

-- What holds of the user, if there is one.
abbrev pub IfUser : (FtpUser → Type 0) → Option FtpUser → Type 0
IfUser P none = Unit
IfUser P (some user) = P user

-- What holds of every user of the database holds of whoever logs in.
pub get_user-IfUser :
    (P : FtpUser → Type 0) (db : UserDatabase)
    → All (λ e. P e.1) db.database
    → IfUser P db.anonymous_user
    → (n p : Bytes) → IfUser P (get_user n p db)
unfolding get_user
get_user-IfUser P db named anonymous n p = elim (Bool-cases (is_username_anonymous_user n)) [
  | inl e ↦ rw e anonymous
  | inr e ↦ rw e (elim (Option-cases (find n db.database)) [
    | inl f ↦ rw f tt
    | inr (user, f) ↦
        let holds = find-All P n db.database named f in
        rw f (elim (Bool-cases (bytes_eq user.password p)) [ inl g ↦ rw g holds | inr g ↦ rw g tt ])
  ])
]
