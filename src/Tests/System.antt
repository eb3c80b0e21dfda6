-- ===== src/Tests/System.antt =====
-- The theorems on the server as a whole and on its interface at concrete inputs.
use fineftp_server.Base.{
  true, bytes_eq, List, All, ◌↔◌, ◌⊎◌, ◌≡◌, refl, none, some, [], ◌∷◌, arith, codes,
}
use fineftp_server.Permission.{all, read_only, denies}
use fineftp_server.Users.{UserDatabase, find, get_user, is_username_anonymous_user}
use fineftp_server.Users.Laws.{first_registration, get_user-IfUser}
use fineftp_server.CleanPath.{clean_path, clean_path_native}
use fineftp_server.Os.{c_str}
use fineftp_server.Session.{Session, send_ftp_message, to_local_path, to_absolute_ftp_path}
use fineftp_server.Session.Access.{handle_user, handle_pass, log_in}
use fineftp_server.Session.Manage.{handle_mkd}
use fineftp_server.Session.Paths.{NoNul}
use fineftp_server.Session.Dispatch.{handle_ftp_command, command_word, parameters}
use fineftp_server.Session.Demo.{demo_os, demo_user, demo_env, demo_disk, no_files}
use fineftp_server.Session.Effect.Accounts.{RootsNoNul, RootsNoNul-of}
use fineftp_server.Session.Stream.{new_session, start}
use fineftp_server.Server.System.{
  System, new_system, start_session, run_command, SystemStep, stays, steps, accepts, commands,
}
use fineftp_server.Server.Interface.{ftp_server}
use fineftp_server.Server.Interface.Laws.{
  Account, named, anonymous, add_all, registration, registrations, get_user-add_all,
}
use fineftp_server.Session.Wording.{IsText, IsReplyText, inline-IsText}
use fineftp_server.Session.Wording.Plain.{RootsText}
use fineftp_server.Server.System.Wording.{SystemRun-IsReplyText}
use fineftp_server.Server.System.Laws.{IsAuthorised, SystemRun-IsAuthorised}

abbrev alice : UserDatabase
alice = record { database = (codes "alice", demo_user all) ∷ []; anonymous_user = none }

srv-NoNul : NoNul (codes "/srv")
unfolding codes
srv-NoNul = ground arith

alice_roots : RootsNoNul alice
alice_roots = RootsNoNul-of alice (srv-NoNul, tt) tt

user-NoNul : NoNul (codes "USER alice")
unfolding codes
user-NoNul = ground arith

pass-NoNul : NoNul (codes "PASS pw")
unfolding codes
pass-NoNul = ground arith

mkd-NoNul : NoNul (codes "MKD x")
unfolding codes
mkd-NoNul = ground arith

-- A client connects and logs in.
abbrev one_client : System demo_os
one_client = start_session 0 (new_system no_files demo_disk)

abbrev greeted : Session demo_os
greeted = start (new_session no_files demo_disk)

abbrev introduced : Session demo_os
introduced = handle_ftp_command alice demo_env (codes "USER alice") greeted

abbrev logged_in : Session demo_os
logged_in = handle_ftp_command alice demo_env (codes "PASS pw") introduced

abbrev after_user : System demo_os
after_user = run_command alice 0 demo_env (codes "USER alice") greeted one_client

abbrev after_pass : System demo_os
after_pass = run_command alice 0 demo_env (codes "PASS pw") introduced after_user

introduced-reading : introduced.reading ≡ true
unfolding handle_ftp_command codes bytes_eq find command_word parameters handle_user
    send_ftp_message start new_session
introduced-reading = refl

logged_in-reading : logged_in.reading ≡ true
unfolding handle_ftp_command codes bytes_eq find command_word parameters handle_user handle_pass
    send_ftp_message start new_session get_user is_username_anonymous_user log_in
logged_in-reading = refl

user_step : SystemStep alice one_client after_user
unfolding start_session start new_session send_ftp_message
user_step = commands 0 greeted demo_env (codes "USER alice") refl refl

pass_step : SystemStep alice after_user after_pass
unfolding run_command start_session start new_session send_ftp_message
pass_step = commands 0 introduced demo_env (codes "PASS pw") refl introduced-reading

mkd_step :
    SystemStep alice after_pass (run_command alice 0 demo_env (codes "MKD x") logged_in after_pass)
unfolding run_command start_session start new_session send_ftp_message
mkd_step = commands 0 logged_in demo_env (codes "MKD x") refl logged_in-reading

-- She makes a directory.
mkd_run :
    (run_command alice 0 demo_env (codes "MKD x") logged_in after_pass).disk
    ≡ (codes "/srv/x", none) ∷ demo_disk
unfolding run_command handle_ftp_command codes bytes_eq find command_word parameters handle_user
    handle_pass handle_mkd send_ftp_message start new_session get_user is_username_anonymous_user
    log_in start_session to_local_path to_absolute_ftp_path clean_path_native clean_path denies
    c_str
mkd_run = refl

SystemRun-IsAuthorised_example :
    IsAuthorised demo_os alice after_pass.disk
      (run_command alice 0 demo_env (codes "MKD x") logged_in after_pass).disk
unfolding user_step pass_step mkd_step
SystemRun-IsAuthorised_example =
    SystemRun-IsAuthorised alice no_files demo_disk
      (steps (steps (steps stays (accepts 0 refl)) user_step) pass_step) mkd_step alice_roots
      (((tt, tt), user-NoNul), pass-NoNul) mkd-NoNul

alice_texts : RootsText alice
unfolding codes
alice_texts =
    get_user-IfUser (λ user. IsText user.local_root_path) alice
      (inline-IsText (codes "/srv") refl, tt) tt

lines-RunText : IsText (codes "USER alice") × IsText (codes "PASS pw")
unfolding codes
lines-RunText = (inline-IsText (codes "USER alice") refl, inline-IsText (codes "PASS pw") refl)

logged_in-there : after_pass.sessions 0 ≡ some logged_in
unfolding run_command handle_ftp_command find bytes_eq codes command_word handle_user handle_pass
    parameters send_ftp_message get_user start new_session is_username_anonymous_user start_session
logged_in-there = refl

SystemRun-IsReplyText_example : All IsReplyText logged_in.posted
unfolding user_step pass_step
SystemRun-IsReplyText_example =
    SystemRun-IsReplyText alice no_files demo_disk
      (steps (steps (steps stays (accepts 0 refl)) user_step) pass_step) 0 logged_in alice_texts
      (((tt, tt), lines-RunText.0), lines-RunText.1) logged_in-there

abbrev accounts : List Account
accounts =
    named (codes "alice") (codes "pw") (codes "/srv") all ∷ anonymous (codes "/pub") read_only ∷ []

get_user-add_all_example :
    (get_user
        (codes "ftp")
        (codes "me")
        (add_all accounts (ftp_server (codes "127.0.0.1") 2121)).server.ftp_users
      ≡ some (registration (anonymous (codes "/pub") read_only)).user)
    ↔ ((first_registration (codes "ftp") (registrations accounts)
          ≡ some (registration (anonymous (codes "/pub") read_only)).user)
        × ((is_username_anonymous_user (codes "ftp") ≡ true) ⊎ ([] ≡ codes "me")))
get_user-add_all_example =
    get_user-add_all (codes "127.0.0.1") 2121 accounts (codes "ftp") (codes "me")
      (registration (anonymous (codes "/pub") read_only)).user
