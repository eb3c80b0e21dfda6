-- ===== src/Server/Laws.antt =====
-- The count of open connections.
use mathlib.Core.Path.{subst}
use fineftp_server.Base.{sym, ℕ, zero, suc, ◌+◌, ◌-◌, ◌<◌, ◌≡◌, refl, ◌∙◌, ap, true, false, arith}
use fineftp_server.Users.{UserDatabase}
use fineftp_server.Server.{
  ℤ, pos, negsuc, increment, decrement, Server, Setup, new_server, start, destroy_session,
  accept_ftp_session, end_session, ServerStep, accepts, ends, ServerRun, stays, steps,
}

-- The count is the number of sessions that were accepted and are not destroyed.
abbrev pub IsCounted : Server → Type 0
IsCounted s = s.open_connection_count ≡ pos s.active

decrement-pos : (n : ℕ) → 0 < n → decrement (pos n) ≡ pos (n - 1)
unfolding decrement
decrement-pos zero p = absurd (omega arith)
decrement-pos (suc n) p = ap pos (omega arith)

decrement-increment : (n : ℕ) → decrement (increment (pos n)) ≡ pos n
unfolding increment
decrement-increment n = decrement-pos (n + 1) (omega arith) ∙ ap pos (omega arith)

step-IsCounted : {s t : Server} → IsCounted s → ServerStep s t → IsCounted t
unfolding accept_ftp_session end_session destroy_session
step-IsCounted {s} h (accepts true a) = rw h (decrement-increment s.active)
step-IsCounted {s} h (accepts false a) = rw h (unfold increment in refl)
step-IsCounted {s} h (ends p) = rw h (decrement-pos s.active p)

-- From a server whose count is right, every run of accepting clients, with or without an error, and
-- of ending sessions keeps it right.
pub ServerRun-IsCounted : {s t : Server} → IsCounted s → ServerRun s t → IsCounted t
ServerRun-IsCounted h stays = h
ServerRun-IsCounted h (steps st r) = ServerRun-IsCounted (step-IsCounted h st) r

-- Every step of the setup of the acceptor succeeds.
pub record IsSetUp (setup : Setup) : Type 0 where
  pub make_address : setup.make_address_ok ≡ true
  pub opens : setup.open_ok ≡ true
  pub set_option : setup.set_option_ok ≡ true
  pub bind : setup.bind_ok ≡ true
  pub listen : setup.listen_ok ≡ true

-- Some step fails.
pub data IsRefused (setup : Setup) : Type 0 where
  make_address : setup.make_address_ok ≡ false → IsRefused setup
  opens : setup.open_ok ≡ false → IsRefused setup
  set_option : setup.set_option_ok ≡ false → IsRefused setup
  bind : setup.bind_ok ≡ false → IsRefused setup
  listen : setup.listen_ok ≡ false → IsRefused setup

-- The count is one too low.
abbrev pub IsShort : Server → Type 0
IsShort s = increment s.open_connection_count ≡ pos s.active

increment-decrement : (c : ℤ) → increment (decrement c) ≡ c
unfolding increment decrement
increment-decrement (pos zero) = refl
increment-decrement (pos (suc n)) = ap pos (omega arith)
increment-decrement (negsuc n) = let e : n + 1 ≡ suc n = omega arith in rw e refl

decrement-increment_lem : (c : ℤ) → decrement (increment c) ≡ c
unfolding increment
decrement-increment_lem (pos n) = decrement-increment n
decrement-increment_lem (negsuc zero) = unfold decrement in refl
decrement-increment_lem (negsuc (suc n)) = unfold decrement in ap negsuc (omega arith)

step-IsShort : {s t : Server} → IsShort s → ServerStep s t → IsShort t
unfolding accept_ftp_session end_session destroy_session
step-IsShort {s} h (accepts true a) = rw (decrement-increment_lem s.open_connection_count) h
step-IsShort {s} h (accepts false a) = rw h (unfold increment in refl)
step-IsShort {s} h (ends p) =
    increment-decrement s.open_connection_count
    ∙ sym (decrement-increment_lem s.open_connection_count)
    ∙ ap decrement h
    ∙ decrement-pos s.active p

run-IsShort : {s t : Server} → IsShort s → ServerRun s t → IsShort t
run-IsShort h stays = h
run-IsShort h (steps st r) = run-IsShort (step-IsShort h st) r

start-refused :
    (setup : Setup) (s : Server) → IsRefused setup → start setup s ≡ (false, destroy_session s)
unfolding start
start-refused setup s (make_address e) = ground (arith, e)
start-refused setup s (opens e) = ground (arith, e)
start-refused setup s (set_option e) = ground (arith, e)
start-refused setup s (bind e) = ground (arith, e)
start-refused setup s (listen e) = ground (arith, e)

start-set_up :
    (setup : Setup) (s : Server)
    → IsSetUp setup
    → start setup s ≡ (true, record s { accepting = true })
unfolding start
start-set_up setup s h = ground (arith, h.make_address, h.opens, h.set_option, h.bind, h.listen)

-- On a new server a start at which some step of the setup fails returns false; and when a later start
-- succeeds, at which no step fails, then after every run of clients that come, with or without an
-- error, and of sessions that end, the count of open connections is one below the number of sessions
-- that were accepted and are not destroyed.
pub start-IsShort :
    (refused good : Setup) (users : UserDatabase) {t : Server}
    → IsRefused refused
    → IsSetUp good
    → ServerRun (start good (start refused (new_server users)).1).1 t
    → ((start refused (new_server users)).0 ≡ false)
      × ((start good (start refused (new_server users)).1).0 ≡ true)
      × (increment t.open_connection_count ≡ pos t.active)
start-IsShort refused good users {t} r g run =
    let failed = start-refused refused (new_server users) r in
    let up = start-set_up good (destroy_session (new_server users)) g in
    let short : IsShort (record (destroy_session (new_server users)) { accepting = true }) =
      unfold destroy_session increment decrement in refl in
    (
      ap (λ x. x.0) failed,
      rw failed (ap (λ x. x.0) up),
      run-IsShort short
          (subst (λ x. ServerRun x t) (ap (λ x. (start good x.1).1) failed ∙ ap (λ x. x.1) up) run),
    )
