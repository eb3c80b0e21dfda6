-- ===== src/Session/Effect/Uploads.antt =====
-- The handlers that open a file for writing: STOR, STOU and APPE.
use fineftp_server.Base.{
  ℕ, zero, suc, ◌+◌, ◌≡◌, ◌≢◌, refl, ap, Bool, true, false, not, ◌&&◌, Bool-cases, inl, inr, some,
  arith, Bytes, codes, All-append, to_hex, set_w, to_hex-NoNul, set_w-All,
}
use fineftp_server.Permission.{denies, file_write, file_append, file_delete}
use fineftp_server.Users.{FtpUser}
use fineftp_server.Os.{Os, OpenMode}
use fineftp_server.FileStatus.{FileStatus, type, is_dir, is_regular_file}
use fineftp_server.Session.{
  Session, Env, send_ftp_message, is_open, status_of, accept_data_connection,
}
use fineftp_server.Session.Paths.{NoNul}
use fineftp_server.Session.Upload.{
  unique_name, opened_write, open_and_receive, store, opened_unique, store_unique, append_to,
  max_attempts, handle_stor, handle_stou, handle_appe,
}
use fineftp_server.Session.Effect.{Effect, creates, appends, IsSafe, Step, IsHandler, Granted}
use fineftp_server.Session.Effect.Quiet.{send-Step, if-Step, user-Step}
use fineftp_server.Session.Effect.Changes.{disk-Step, local_path}

-- What is not there has no type.
type-missing : (f : FileStatus) → f.is_ok ≡ false → is_regular_file (type f) ≡ false
unfolding type is_regular_file
type-missing f e = rw e refl

-- What STOR writes over, the user may delete.
overwritten :
    (f : FileStatus) (user : FtpUser)
    → (f.is_ok && (is_regular_file (type f) && denies user.permissions file_delete)) ≡ false
    → is_regular_file (type f) ≡ true
    → Granted user file_delete
overwritten f user free r = elim (Bool-cases f.is_ok) [
  | inl e ↦ ground (arith, free, r, e)
  | inr e ↦ ground (arith, type-missing f e, r)
]

overwritten_nothing :
    (f : FileStatus) (user : FtpUser)
    → f.is_ok ≡ false
    → is_regular_file (type f) ≡ true
    → Granted user file_delete
overwritten_nothing f user free r = ground (arith, type-missing f free, r)

unique_name-NoNul : (n : ℕ) → NoNul (unique_name n)
unfolding unique_name codes
unique_name-NoNul n =
    All-append (λ c. c ≢ 0) (codes "FILE_") (set_w 8 b'0' (to_hex n)) (ground arith)
      (set_w-All (λ c. c ≢ 0) 8 b'0' (to_hex n) (ground arith) (to_hex-NoNul n))

module _ {os : Os} where
  opened_write-Step :
      {user : FtpUser} (path : Bytes) (mode : OpenMode) (announce : Bytes) (s : Session os)
      (r : Bool × os.Disk)
      → s.logged_in_user ≡ some user
      → IsSafe s
      → Effect os user s.disk r.1
      → Step s (opened_write path mode announce s r)
  unfolding opened_write send_ftp_message accept_data_connection
  opened_write-Step path mode announce s (true, d) e v f =
      disk-Step e f (record { directory = v.directory; renaming = v.renaming; root = v.root })
  opened_write-Step path mode announce s (false, d) e v f =
      disk-Step e f (record { directory = v.directory; renaming = v.renaming; root = v.root })

  store-Step :
      {user : FtpUser} (param : Bytes) (s : Session os)
      → s.logged_in_user ≡ some user
      → IsSafe s
      → NoNul param
      → Granted user file_write
      → Step s (store user param s)
  unfolding store open_and_receive status_of
  store-Step {user} param s e v n g =
      let status = status_of user param s in
      let (below, c) = local_path s param e v n in
      let mode : OpenMode = record { app = false; binary = s.data_type_binary } in
      if-Step
        (status.is_ok && (is_regular_file (type status) && denies user.permissions file_delete))
        (λ _. send-Step _ _ v)
        (λ free.
          if-Step (status.is_ok && is_dir (type status)) (λ _. send-Step _ _ v)
            (λ _. opened_write-Step _ _ _ s _ e v (
              creates _ mode below refl g (overwritten status user free)
                (ap (λ p. (os.fstream p mode s.disk).1) c))))

  pub stor-IsHandler : IsHandler (handle_stor {os = os})
  unfolding handle_stor
  stor-IsHandler param s n v = user-Step (send-Step _ _ v) (λ user e.
      if-Step (denies user.permissions file_write) (λ _. send-Step _ _ v)
        (λ g.
          if-Step (not (is_open s.data_acceptor)) (λ _. send-Step _ _ v)
            (λ _. store-Step param s e v n g)))

  opened_unique-Step :
      {user : FtpUser} (name path : Bytes) (mode : OpenMode) (s : Session os) (r : Bool × os.Disk)
      → s.logged_in_user ≡ some user
      → IsSafe s
      → Effect os user s.disk r.1
      → Step s (opened_unique name path mode s r)
  unfolding opened_unique send_ftp_message accept_data_connection
  opened_unique-Step name path mode s (true, d) e v f =
      disk-Step e f (record { directory = v.directory; renaming = v.renaming; root = v.root })
  opened_unique-Step name path mode s (false, d) e v f =
      disk-Step e f (record { directory = v.directory; renaming = v.renaming; root = v.root })

  -- A number more was drawn.
  abbrev one_drawn : Session os → Session os
  one_drawn s = record s { drawn = s.drawn + 1 }

  one_drawn-IsSafe : (s : Session os) → IsSafe s → IsSafe (one_drawn s)
  one_drawn-IsSafe s v = record { directory = v.directory; renaming = v.renaming; root = v.root }

  drawn-Step : {s t : Session os} → Step (one_drawn s) t → Step s t
  drawn-Step st = record { effect = st.effect; safe = st.safe }

  store_unique-Step :
      (attempts : ℕ) (draws : ℕ → ℕ) {user : FtpUser} (s : Session os)
      → s.logged_in_user ≡ some user
      → IsSafe s
      → Granted user file_write
      → Step s (store_unique attempts draws user s)
  unfolding store_unique status_of
  store_unique-Step zero draws s e v g = send-Step _ _ v
  store_unique-Step (suc attempts) draws {user} s e v g =
      let name = unique_name (draws s.drawn) in
      let v' = one_drawn-IsSafe s v in
      let mode : OpenMode = record { app = false; binary = s.data_type_binary } in
      if-Step (status_of user name s).is_ok
        (λ _. drawn-Step (store_unique-Step attempts draws (one_drawn s) e v' g))
        (λ free.
          let (below, c) = local_path s name e v (unique_name-NoNul (draws s.drawn)) in
          drawn-Step (
            opened_unique-Step _ _ _ (one_drawn s) _ e v' (
              creates _ mode below refl g (λ r. overwritten_nothing _ user free r)
                (ap (λ p. (os.fstream p mode s.disk).1) c))))

  pub stou-IsHandler : (env : Env) → IsHandler (handle_stou {os = os} env)
  unfolding handle_stou
  stou-IsHandler env param s n v = user-Step (send-Step _ _ v) (λ user e.
      if-Step (denies user.permissions file_write) (λ _. send-Step _ _ v)
        (λ g.
          if-Step (not (is_open s.data_acceptor)) (λ _. send-Step _ _ v)
            (λ _. store_unique-Step max_attempts env.draws s e v g)))

  append_to-Step :
      {user : FtpUser} (param : Bytes) (exists : Bool) (s : Session os)
      → s.logged_in_user ≡ some user
      → IsSafe s
      → NoNul param
      → (exists ≡ true
          → Granted user file_append × (is_regular_file (type (status_of user param s)) ≡ true))
      → (exists ≡ false → Granted user file_write × ((status_of user param s).is_ok ≡ false))
      → Step s (append_to user param exists s)
  unfolding append_to open_and_receive status_of
  append_to-Step {user} param true s e v n old new =
      let (below, c) = local_path s param e v n in
      let mode : OpenMode = record { app = true; binary = s.data_type_binary } in
      let (g, regular) = old refl in
      if-Step (not (is_open s.data_acceptor)) (λ _. send-Step _ _ v)
        (λ _.
          opened_write-Step _ _ _ s _ e v
            (appends _ mode below refl g regular (ap (λ p. (os.fstream p mode s.disk).1) c)))
  append_to-Step {user} param false s e v n old new =
      let (below, c) = local_path s param e v n in
      let mode : OpenMode = record { app = false; binary = s.data_type_binary } in
      let (g, free) = new refl in
      if-Step (not (is_open s.data_acceptor)) (λ _. send-Step _ _ v)
        (λ _. opened_write-Step _ _ _ s _ e v (
          creates _ mode below refl g (overwritten_nothing _ user free)
            (ap (λ p. (os.fstream p mode s.disk).1) c)))

  pub appe-IsHandler : IsHandler (handle_appe {os = os})
  unfolding handle_appe
  appe-IsHandler param s n v = user-Step (send-Step _ _ v) (λ user e.
      let status = status_of user param s in
      if-Step status.is_ok
        (λ _.
          if-Step (denies user.permissions file_append) (λ _. send-Step _ _ v)
            (λ g.
              if-Step (not (is_regular_file (type status))) (λ _. send-Step _ _ v)
                (λ r. append_to-Step param true s e v n (λ _. (g, ground (arith, r))) (λ x. cc))))
        (λ free.
          if-Step (denies user.permissions file_write) (λ _. send-Step _ _ v)
            (λ g. append_to-Step param false s e v n (λ x. cc) (λ _. (g, free)))))
