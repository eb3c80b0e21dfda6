-- ===== src/Tests/Service.antt =====
-- The theorems on single sessions, their connections and directories at concrete inputs.
use fineftp_server.Base.{
  true, bytes_eq, List, ℕ, suc, ◌+◌, ◌*◌, ◌^◌, ◌<◌, ◌≡◌, refl, ◌&&◌, Option, none, some, [], ◌∷◌,
  ◌++◌, false, arith, Bytes, codes, length, ◌==◌, if◌then◌else◌,
}
use fineftp_server.Permission.{all, denies}
use fineftp_server.Users.{find}
use fineftp_server.Users.Laws.{no_users}
use fineftp_server.Os.{c_str}
use fineftp_server.FileStatus.{file_status_of, dir_content}
use fineftp_server.FileStatus.Order.{IsSorted}
use fineftp_server.FileStatus.Laws.{is_listed, dir_content-listed}
use fineftp_server.Session.{Session, listening}
use fineftp_server.Session.Parameters.{handle_pasv}
use fineftp_server.Session.Info.{to_upper}
use fineftp_server.Session.Dispatch.{handle_ftp_command, command_word}
use fineftp_server.Session.Demo.{demo_os, demo_user, demo_env, demo_session, demo_disk}
use fineftp_server.Session.Replies.{last_reply}
use fineftp_server.Session.Replies.Quit.{IsEnded, run_lines, serve-quit}
use fineftp_server.Session.Replies.Conversation.{IsCommand, IsWaiting, serve-replies}
use fineftp_server.Permission.{read_only, permission_or, file_read, dir_list}
use fineftp_server.CleanPath.{clean_path, clean_path_native, join}
use fineftp_server.CleanPath.Unix.{IsEntry, path_of}
use fineftp_server.CleanPath.Content.{slash-IsRooted}
use fineftp_server.Session.{status_of, to_local_path, to_absolute_ftp_path}
use fineftp_server.Session.Download.{handle_mdtm}
use fineftp_server.Session.Disclosure.{is_retrievable, handle_mdtm-discloses}
use fineftp_server.Session.Passive.{passive_numbers, handle_pasv-listening_port}
use fineftp_server.Session.Effect.Runs
use fineftp_server.Session.Effect.Runs.{Reaches, command}
use fineftp_server.Session.Identity.{IsAuthentic, nobody}
use fineftp_server.Session.Identity.Others.{LogsNobodyIn, Reaches-IsAuthentic}
use fineftp_server.Base.{◌≢◌}
use fineftp_server.Session.{Env}
use fineftp_server.Session.Stream.{serve}
use fineftp_server.Session.Stream.Laws.{has_crlf, IsLine, send_lines, IsReadUntil, handle_lines}

nobody_in : IsAuthentic no_users (demo_session none)
nobody_in = nobody refl

Reaches-IsAuthentic_example :
    IsAuthentic no_users
      (handle_ftp_command no_users demo_env (codes "PASS pw") (demo_session none))
    × ((env : Env) (line : Bytes)
        → command_word line ≢ codes "PASS"
        → LogsNobodyIn
            (handle_ftp_command no_users demo_env (codes "PASS pw") (demo_session none))
            (handle_ftp_command no_users env line
              (handle_ftp_command no_users demo_env (codes "PASS pw") (demo_session none))))
Reaches-IsAuthentic_example =
    Reaches-IsAuthentic no_users nobody_in (command demo_env (codes "PASS pw") Runs.start)

dir_content-listed_example :
    IsSorted (dir_content demo_os demo_disk (codes "/srv"))
    × ((name : Bytes)
        → find name (dir_content demo_os demo_disk (codes "/srv")) ≡ (
            if is_listed name (demo_os.opendir demo_disk (c_str (codes "/srv")))
            then some (file_status_of demo_os demo_disk (codes "/srv" ++ codes "/" ++ name))
            else none))
dir_content-listed_example = dir_content-listed demo_os demo_disk (codes "/srv")

handle_pasv-listening_port_example :
    (high low : ℕ) × (passive_numbers
        (last_reply (handle_pasv demo_env [] (demo_session (some (demo_user all)))).posted)
      ≡ 127 ∷ 0 ∷ 0 ∷ 1 ∷ high ∷ low ∷ [])
    × (high < 2 ^ 8)
    × (low < 2 ^ 8)
    × (high * 2 ^ 8 + low ≡ 2022)
    × ((handle_pasv demo_env [] (demo_session (some (demo_user all)))).data_acceptor ≡ listening)
handle_pasv-listening_port_example =
    handle_pasv-listening_port demo_env [] (demo_session (some (demo_user all))) (demo_user all) 127
      0 0 1 refl refl refl refl refl (ground arith)

srv-IsEntry : IsEntry (codes "srv")
unfolding codes
srv-IsEntry = ground arith

srv_root : (demo_user read_only).local_root_path ≡ path_of true (codes "srv" ∷ [])
unfolding codes path_of join
srv_root = refl

no_nope :
    is_retrievable
      (status_of (demo_user read_only) (codes "nope") (demo_session (some (demo_user read_only))))
    ≡ false
unfolding status_of file_status_of find codes to_local_path to_absolute_ftp_path clean_path_native
    clean_path c_str bytes_eq
no_nope = refl

may_look : denies (demo_user read_only).permissions (permission_or file_read dir_list) ≡ false
unfolding denies permission_or
may_look = refl

handle_mdtm-discloses_example :
    (rest : Bytes) × ((handle_mdtm demo_env
        (codes "nope")
        (demo_session (some (demo_user read_only)))).posted
      ≡ [] ++ (codes "550 " ++ codes "/srv" ++ rest) ∷ [])
unfolding codes
handle_mdtm-discloses_example =
    handle_mdtm-discloses demo_env (codes "nope") (demo_session (some (demo_user read_only)))
      (demo_user read_only) (codes "srv") [] refl may_look refl (slash-IsRooted (λ c. Unit {0}))
      (srv-IsEntry, tt) srv_root no_nope

abbrev behind_first : Option ℕ → Option ℕ
behind_first none = none
behind_first (some n) = some (suc n)

-- `async_read_until` on what has arrived.
abbrev until_crlf : Bytes → Option ℕ
until_crlf [] = none
until_crlf (c ∷ []) = none
until_crlf (c ∷ d ∷ s) =
    let later = behind_first (until_crlf (d ∷ s)) in if c == 13 && d == 10 then some 2 else later

until_crlf-found :
    (line rest : Bytes) → IsLine line → until_crlf (line ++ 13 ∷ 10 ∷ rest) ≡ some (length line + 2)
until_crlf-found [] rest h = refl
until_crlf-found (c ∷ []) rest h = ground arith
until_crlf-found (c ∷ d ∷ line) rest h = ground (arith, until_crlf-found (d ∷ line) rest)

until_crlf-missing : (s : Bytes) → has_crlf s ≡ false → until_crlf s ≡ none
until_crlf-missing [] h = refl
until_crlf-missing (c ∷ []) h = refl
until_crlf-missing (c ∷ d ∷ s) h = ground (arith, until_crlf-missing (d ∷ s))

until_crlf-IsReadUntil : IsReadUntil until_crlf
until_crlf-IsReadUntil = record { found = until_crlf-found; missing = until_crlf-missing }

abbrev noop_line : Bytes
noop_line = b'N' ∷ b'O' ∷ b'O' ∷ b'P' ∷ []

noop_line-IsCommand : IsCommand noop_line
unfolding codes command_word to_upper
noop_line-IsCommand = (refl, ground arith)

demo_session-IsWaiting : IsWaiting (demo_session none)
demo_session-IsWaiting = record { reading = refl; thrown = refl; shutdown = refl }

abbrev served : Session demo_os
served =
    handle_lines no_users (λ n. demo_env) until_crlf 0 (noop_line ∷ noop_line ∷ [])
      (demo_session none)

serve-replies_example :
    (serve no_users
        (λ n. demo_env)
        until_crlf
        3
        0
        (send_lines (noop_line ∷ noop_line ∷ []) (b'P' ∷ []))
        (demo_session none)
      ≡ some served)
    × (rs : List Bytes) × (served.posted ≡ (demo_session none).posted ++ rs)
    × (length rs ≡ 2)
serve-replies_example =
    serve-replies no_users (λ n. demo_env) until_crlf 0 (noop_line ∷ noop_line ∷ []) (b'P' ∷ [])
      (demo_session none) until_crlf-IsReadUntil (λ k. refl)
      (noop_line-IsCommand, (noop_line-IsCommand, tt)) refl demo_session-IsWaiting

abbrev quit_line : Bytes
quit_line = b'Q' ∷ b'U' ∷ b'I' ∷ b'T' ∷ []

quit_line-word : command_word quit_line ≡ codes "QUIT"
unfolding codes command_word to_upper
quit_line-word = refl

serve-quit_example :
    (t : Session demo_os) × (serve no_users
        (λ n. demo_env)
        until_crlf
        4
        0
        (send_lines ((noop_line ∷ []) ++ quit_line ∷ noop_line ∷ []) (b'P' ∷ []))
        (demo_session none)
      ≡ some t)
    × IsEnded
        (run_lines no_users (λ n. demo_env) until_crlf 0 (noop_line ∷ []) (demo_session none))
        t
serve-quit_example =
    serve-quit no_users (λ n. demo_env) until_crlf 0 (noop_line ∷ []) quit_line (noop_line ∷ [])
      (b'P' ∷ []) (demo_session none) until_crlf-IsReadUntil (λ k. refl) (noop_line-IsCommand, tt)
      refl quit_line-word (refl, tt) refl demo_session-IsWaiting
