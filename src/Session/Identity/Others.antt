-- ===== src/Session/Identity/Others.antt =====
-- Who is logged in, over runs of a session, and what commands other than PASS do to that.
use fineftp_server.Base.{
  ◌∙◌, ◌≢◌, ◌⊎◌, inl, inr, codes, bytes_eq, bytes_eq_iff, ◌&◌, ◌≡◌, refl, false, Option, none, some,
  arith, Bytes, All,
}
use fineftp_server.Users.{UserDatabase, find}
use fineftp_server.Users.Laws.{find-All-entry}
use fineftp_server.Session.Access.{handle_user, handle_quit}
use fineftp_server.Os.{Os}
use fineftp_server.Session.{Session, Env, send_ftp_message}
use fineftp_server.Session.Dispatch.{
  Handler, command_map, handle_ftp_command, command_word, parameters, call,
}
use fineftp_server.Session.Effect.Runs.{Reaches, start, command, elsewhere}
use fineftp_server.Session.Identity.{
  IsSameAccount, IsAuthentic, IsHolding, IsSameAccount-IsAuthentic, acct-IsHolding, cwd-IsHolding,
  cdup-IsHolding, rein-IsHolding, port-IsHolding, pasv-IsSameAccount, type-IsHolding,
  stru-IsHolding, mode-IsHolding,
}
use fineftp_server.Session.Identity.Info.{
  allo-IsHolding, rest-IsHolding, abor-IsHolding, site-IsHolding, syst-IsHolding, stat-IsHolding,
  help-IsHolding, noop-IsHolding, feat-IsHolding, opts-IsHolding,
}
use fineftp_server.Session.Identity.Files.{
  retr-IsHolding, stor-IsHolding, stou-IsHolding, appe-IsHolding, rnfr-IsHolding, rnto-IsHolding,
  dele-IsHolding, rmd-IsHolding, mkd-IsHolding, pwd-IsHolding, list-IsHolding, nlst-IsHolding,
  size-IsHolding, mdtm-IsHolding,
}
use fineftp_server.Session.Identity.Commands.{
  handle_ftp_command-IsAuthentic, finish-IsSameAccount, await_next-IsSameAccount,
}

reaches-IsAuthentic :
    {os : Os} (db : UserDatabase) {s t : Session os}
    → IsAuthentic db s
    → Reaches db s t
    → IsAuthentic db t
reaches-IsAuthentic db v start = v
reaches-IsAuthentic db v (command {t} env line r) =
    handle_ftp_command-IsAuthentic db env line t (reaches-IsAuthentic db v r)
reaches-IsAuthentic db v (elsewhere disk files acceptor posted accepting r) =
    IsSameAccount-IsAuthentic db (record { user = refl; name = refl }) (reaches-IsAuthentic db v r)

module _ {os : Os} where
  -- Afterwards nobody is logged in, or who was before.
  abbrev pub LogsNobodyIn : Session os → Session os → Type 0
  LogsNobodyIn s s' = (s'.logged_in_user ≡ none) ⊎ (s'.logged_in_user ≡ s.logged_in_user)

  abbrev IsNoLogin : Handler os → Type 0
  IsNoLogin h = (param : Bytes) (s : Session os) → LogsNobodyIn s (h param s)

  abbrev IsLogin : Bytes × Handler os → Type 0
  IsLogin e = bytes_eq e.0 (codes "PASS") ≡ false → IsNoLogin e.1

  still : {h : Handler os} → IsHolding h → IsNoLogin h
  still same param s = inr (same param s).account.user

  user-IsNoLogin : IsNoLogin (handle_user {os = os})
  unfolding handle_user send_ftp_message
  user-IsNoLogin param s = inl (ground arith)

  quit-IsNoLogin : IsNoLogin (handle_quit {os = os})
  unfolding handle_quit send_ftp_message
  quit-IsNoLogin param s = inl refl

module _ (os : Os) where
  -- Every entry of the map but that of PASS.
  command_map-IsLogin : (db : UserDatabase) (env : Env) → All IsLogin (command_map {os = os} db env)
  unfolding command_map bytes_eq codes
  command_map-IsLogin db env =
      (λ f. user-IsNoLogin)
      & (λ f. cc)
      & (λ f. still acct-IsHolding)
      & (λ f. still cwd-IsHolding)
      & (λ f. still cdup-IsHolding)
      & (λ f. still rein-IsHolding)
      & (λ f. quit-IsNoLogin)
      & (λ f. still port-IsHolding)
      & (λ f param s. inr (pasv-IsSameAccount env param s).user)
      & (λ f. still type-IsHolding)
      & (λ f. still stru-IsHolding)
      & (λ f. still mode-IsHolding)
      & (λ f. still retr-IsHolding)
      & (λ f. still stor-IsHolding)
      & (λ f. still (stou-IsHolding env))
      & (λ f. still appe-IsHolding)
      & (λ f. still allo-IsHolding)
      & (λ f. still rest-IsHolding)
      & (λ f. still rnfr-IsHolding)
      & (λ f. still rnto-IsHolding)
      & (λ f. still abor-IsHolding)
      & (λ f. still dele-IsHolding)
      & (λ f. still rmd-IsHolding)
      & (λ f. still mkd-IsHolding)
      & (λ f. still pwd-IsHolding)
      & (λ f. still list-IsHolding)
      & (λ f. still nlst-IsHolding)
      & (λ f. still site-IsHolding)
      & (λ f. still syst-IsHolding)
      & (λ f. still stat-IsHolding)
      & (λ f. still help-IsHolding)
      & (λ f. still noop-IsHolding)
      & (λ f. still feat-IsHolding)
      & (λ f. still opts-IsHolding)
      & (λ f. still size-IsHolding)
      & (λ f. still (mdtm-IsHolding env))
      & tt

module _ {os : Os} where
  LogsNobodyIn-same :
      (s t : Session os) {u : Session os} → LogsNobodyIn s t → IsSameAccount t u → LogsNobodyIn s u
  LogsNobodyIn-same s t (inl e) same = inl (same.user ∙ e)
  LogsNobodyIn-same s t (inr e) same = inr (same.user ∙ e)

  call-LogsNobodyIn :
      (db : UserDatabase) (word param : Bytes) (handler : Option (Handler os)) (s : Session os)
      → ((h : Handler os) → handler ≡ some h → IsNoLogin h)
      → LogsNobodyIn s (call word param handler s)
  unfolding call send_ftp_message
  call-LogsNobodyIn db word param none s good = inr refl
  call-LogsNobodyIn db word param (some h) s good =
      LogsNobodyIn-same s (h param s) (good h refl param s)
        (finish-IsSameAccount db word (h param s))

  handle_ftp_command-LogsNobodyIn :
      (db : UserDatabase) (env : Env) (line : Bytes) (s : Session os)
      → command_word line ≢ codes "PASS"
      → LogsNobodyIn s (handle_ftp_command db env line s)
  unfolding handle_ftp_command
  handle_ftp_command-LogsNobodyIn db env line s other =
      let word = command_word line in
      let unlike : bytes_eq word (codes "PASS") ≡ false =
        ground (arith, other, bytes_eq_iff word (codes "PASS")) in
      LogsNobodyIn-same s
        (call word (parameters line) (find word (command_map db env))
          (record s { reading = false }))
        (call-LogsNobodyIn db word (parameters line) (find word (command_map db env))
          (record s { reading = false })
          (λ h e.
            find-All-entry IsLogin word (command_map db env) (command_map-IsLogin os db env) e
              unlike))
        (await_next-IsSameAccount db _)

-- However long a session runs from a state where this holds, nobody is logged in, or the user whom
-- `getUser` gives for the name that the session keeps for the login and some password; and then
-- whatever command line comes next whose command is not PASS, afterwards nobody is logged in, or who
-- was before.
pub Reaches-IsAuthentic :
    {os : Os} (db : UserDatabase) {s t : Session os}
    → IsAuthentic db s
    → Reaches db s t
    → IsAuthentic db t
      × ((env : Env) (line : Bytes)
          → command_word line ≢ codes "PASS"
          → LogsNobodyIn t (handle_ftp_command db env line t))
Reaches-IsAuthentic db {t = t} v r = (
  reaches-IsAuthentic db v r,
  λ env line other. handle_ftp_command-LogsNobodyIn db env line t other,
)
