-- ===== src/Session/Replies/Calm.antt =====
-- No handler throws over IPv4, and none but QUIT ends the session.
use mathlib.Core.Path.{subst}
use fineftp_server.Base.{
  some-injective, ◌&◌, ◌≡◌, ◌≢◌, refl, inl, inr, true, some, List, [], ◌∷◌, arith, Bytes, codes,
  bytes_eq, bytes_eq_iff, All, Bool-cases,
}
use fineftp_server.Users.{UserDatabase, find}
use fineftp_server.Os.{Os}
use fineftp_server.Session.{Session, Env, send_ftp_message}
use fineftp_server.Session.Access.{handle_user, handle_pass, handle_quit, log_in}
use fineftp_server.Session.Dispatch.{Handler, command_map}
use fineftp_server.Session.Identity.{
  is_v4, IsHolding, acct-IsHolding, cwd-IsHolding, cdup-IsHolding, rein-IsHolding, port-IsHolding,
  pasv-IsHolding, type-IsHolding, stru-IsHolding, mode-IsHolding,
}
use fineftp_server.Session.Identity.Info.{
  allo-IsHolding, rest-IsHolding, abor-IsHolding, site-IsHolding, syst-IsHolding, stat-IsHolding,
  help-IsHolding, noop-IsHolding, feat-IsHolding, opts-IsHolding,
}
use fineftp_server.Session.Identity.Files.{
  retr-IsHolding, stor-IsHolding, stou-IsHolding, appe-IsHolding, rnfr-IsHolding, rnto-IsHolding,
  dele-IsHolding, rmd-IsHolding, mkd-IsHolding, pwd-IsHolding, list-IsHolding, nlst-IsHolding,
  size-IsHolding, mdtm-IsHolding,
}

module _ {os : Os} where
  abbrev pub IsUnthrown : Handler os → Type 0
  IsUnthrown h = (param : Bytes) (s : Session os) → (h param s).thrown ≡ s.thrown

  calm : {h : Handler os} → IsHolding h → IsUnthrown h
  calm quiet param s = (quiet param s).thrown

  -- The session is not ended.
  abbrev pub IsSteady : Handler os → Type 0
  IsSteady h =
      (param : Bytes) (s : Session os) → (h param s).shutdown_requested ≡ s.shutdown_requested

  steady : {h : Handler os} → IsHolding h → IsSteady h
  steady quiet param s = (quiet param s).shutdown

  user-IsSteady : IsSteady handle_user
  unfolding handle_user send_ftp_message
  user-IsSteady param s = ground arith

  pass-IsSteady : (db : UserDatabase) → IsSteady (handle_pass db)
  unfolding handle_pass log_in send_ftp_message
  pass-IsSteady db param s = ground arith

  user-IsUnthrown : IsUnthrown handle_user
  unfolding handle_user send_ftp_message
  user-IsUnthrown param s = ground arith

  quit-IsUnthrown : IsUnthrown handle_quit
  unfolding handle_quit send_ftp_message
  quit-IsUnthrown param s = refl

  pass-IsUnthrown : (db : UserDatabase) → IsUnthrown (handle_pass db)
  unfolding handle_pass log_in send_ftp_message
  pass-IsUnthrown db param s = ground arith

pub command_map-IsUnthrown :
    (os : Os) (db : UserDatabase) (env : Env)
    → is_v4 env.local_endpoint ≡ true
    → All (λ e. IsUnthrown {os = os} e.1) (command_map db env)
unfolding command_map
command_map-IsUnthrown os db env h =
    user-IsUnthrown
    & pass-IsUnthrown db
    & calm acct-IsHolding
    & calm cwd-IsHolding
    & calm cdup-IsHolding
    & calm rein-IsHolding
    & quit-IsUnthrown
    & calm port-IsHolding
    & calm (pasv-IsHolding env h)
    & calm type-IsHolding
    & calm stru-IsHolding
    & calm mode-IsHolding
    & calm retr-IsHolding
    & calm stor-IsHolding
    & calm (stou-IsHolding env)
    & calm appe-IsHolding
    & calm allo-IsHolding
    & calm rest-IsHolding
    & calm rnfr-IsHolding
    & calm rnto-IsHolding
    & calm abor-IsHolding
    & calm dele-IsHolding
    & calm rmd-IsHolding
    & calm mkd-IsHolding
    & calm pwd-IsHolding
    & calm list-IsHolding
    & calm nlst-IsHolding
    & calm site-IsHolding
    & calm syst-IsHolding
    & calm stat-IsHolding
    & calm help-IsHolding
    & calm noop-IsHolding
    & calm feat-IsHolding
    & calm opts-IsHolding
    & calm size-IsHolding
    & calm (mdtm-IsHolding env)
    & tt

-- All but QUIT.
pub command_map-IsSteady :
    (os : Os) (db : UserDatabase) (env : Env)
    → is_v4 env.local_endpoint ≡ true
    → All (λ e. e.0 ≢ codes "QUIT" → IsSteady {os = os} e.1) (command_map db env)
unfolding command_map
command_map-IsSteady os db env h =
    (λ _. user-IsSteady)
    & (λ _. pass-IsSteady db)
    & (λ _. steady acct-IsHolding)
    & (λ _. steady cwd-IsHolding)
    & (λ _. steady cdup-IsHolding)
    & (λ _. steady rein-IsHolding)
    & (λ other. absurd (other refl))
    & (λ _. steady port-IsHolding)
    & (λ _. steady (pasv-IsHolding env h))
    & (λ _. steady type-IsHolding)
    & (λ _. steady stru-IsHolding)
    & (λ _. steady mode-IsHolding)
    & (λ _. steady retr-IsHolding)
    & (λ _. steady stor-IsHolding)
    & (λ _. steady (stou-IsHolding env))
    & (λ _. steady appe-IsHolding)
    & (λ _. steady allo-IsHolding)
    & (λ _. steady rest-IsHolding)
    & (λ _. steady rnfr-IsHolding)
    & (λ _. steady rnto-IsHolding)
    & (λ _. steady abor-IsHolding)
    & (λ _. steady dele-IsHolding)
    & (λ _. steady rmd-IsHolding)
    & (λ _. steady mkd-IsHolding)
    & (λ _. steady pwd-IsHolding)
    & (λ _. steady list-IsHolding)
    & (λ _. steady nlst-IsHolding)
    & (λ _. steady site-IsHolding)
    & (λ _. steady syst-IsHolding)
    & (λ _. steady stat-IsHolding)
    & (λ _. steady help-IsHolding)
    & (λ _. steady noop-IsHolding)
    & (λ _. steady feat-IsHolding)
    & (λ _. steady opts-IsHolding)
    & (λ _. steady size-IsHolding)
    & (λ _. steady (mdtm-IsHolding env))
    & tt

-- What is found in a map satisfies what its entries satisfy.
pub find-entry {ℓ} :
    {V : Type ℓ} (P : Bytes → V → Type 0) (k : Bytes) (m : List (Bytes × V)) {v : V}
    → All (λ e. P e.0 e.1) m
    → find k m ≡ some v
    → P k v
unfolding find
find-entry P k [] h e = cc
find-entry P k ((j, w) ∷ m) {v} h e = elim (Bool-cases (bytes_eq j k)) [
  | inl b ↦
      subst (λ i. P i v) ((bytes_eq_iff j k).0 b) (subst (P j) (some-injective (rw b at e)) h.0)
  | inr b ↦ find-entry P k m h.1 (rw b at e)
]
