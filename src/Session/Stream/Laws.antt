-- ===== src/Session/Stream/Laws.antt =====
-- Command lines, one after the other.
use fineftp_server.Base.{
  ℕ, zero, suc, ◌+◌, ◌-◌, ◌≡◌, refl, ap, Bool, true, false, ◌&&◌, ◌||◌, Option, none, some, List,
  [], ◌∷◌, ◌++◌, arith, Bytes, take, drop, length, All, ◌==◌, if◌then◌else◌,
}
use fineftp_server.Users.{UserDatabase}
use fineftp_server.Os.{Os}
use fineftp_server.Session.{Session, Env, close_data_acceptor}
use fineftp_server.Session.Dispatch.{handle_ftp_command}
use fineftp_server.Session.Stream.{read_failed, received, read_ftp_command, serve}

-- Whether "\r\n" stands in the text.
abbrev pub has_crlf : Bytes → Bool
has_crlf [] = false
has_crlf (c ∷ []) = false
has_crlf (c ∷ d ∷ s) = (c == 13 && d == 10) || has_crlf (d ∷ s)

-- A line, whose end is the first "\r\n" of what is sent for it.
abbrev pub IsLine : Bytes → Type 0
IsLine line = has_crlf (line ++ 13 ∷ []) ≡ false

-- What a client sends: lines, and then the beginning of one.
abbrev pub send_lines : List Bytes → Bytes → Bytes
send_lines [] tail = tail
send_lines (line ∷ lines) tail = line ++ 13 ∷ 10 ∷ send_lines lines tail

-- What `asio::async_read_until` promises for the delimiter "\r\n".
pub record IsReadUntil (read_until : Bytes → Option ℕ) : Type 0 where
  pub found :
      (line rest : Bytes)
      → IsLine line
      → read_until (line ++ 13 ∷ 10 ∷ rest) ≡ some (length line + 2)
  pub missing : (s : Bytes) → has_crlf s ≡ false → read_until s ≡ none

take-append : (s t : Bytes) → take (length s) (s ++ t) ≡ s
take-append [] t = refl
take-append (c ∷ s) t = ground (arith, take-append s t)

drop-append : (n : ℕ) (s t : Bytes) → drop (length s + n) (s ++ t) ≡ drop n t
drop-append n [] t = ap (λ m. drop m t) (omega arith)
drop-append n (c ∷ s) t =
    let shifted : suc (length s) + n ≡ suc (length s + n) = omega arith in
    rw shifted (drop-append n s t)

if-some :
    {A : Type 0} (b : Bool) {x : Option A} {y : A} (z : A)
    → x ≡ some y
    → (if b then x else some z) ≡ some (if b then y else z)
if-some true z e = e
if-some false z e = refl

module _ {os : Os} (db : UserDatabase) (envs : ℕ → Env) (read_until : Bytes → Option ℕ) where
  -- The commands of the lines in order, up to one that ends the session; then the connection ends.
  abbrev pub handle_lines : ℕ → List Bytes → Session os → Session os
  handle_lines n [] s = if s.reading then read_failed s else s
  handle_lines n (line ∷ lines) s =
      let rest = handle_lines (n + 1) lines (handle_ftp_command db (envs n) line s) in
      if s.reading then rest else s

  read_ftp_command-line :
      (n : ℕ) (line rest : Bytes) (s : Session os)
      → IsReadUntil read_until
      → IsLine line
      → read_ftp_command db envs read_until n (line ++ 13 ∷ 10 ∷ rest) s
        ≡ (rest, handle_ftp_command db (envs n) line s)
  unfolding read_ftp_command received
  read_ftp_command-line n line rest s h v =
      let kept : (length line + 2) - 2 ≡ length line = omega arith in
      rw
        (
          h.found line rest v,
          kept,
          take-append line (13 ∷ 10 ∷ rest),
          drop-append 2 line (13 ∷ 10 ∷ rest),
        )
        refl

  read_ftp_command-missing :
      (n : ℕ) (tail : Bytes) (s : Session os)
      → IsReadUntil read_until
      → has_crlf tail ≡ false
      → read_ftp_command db envs read_until n tail s ≡ (tail, read_failed s)
  unfolding read_ftp_command received
  read_ftp_command-missing n tail s h e = rw (h.missing tail e) refl

  stopped :
      (fuel n : ℕ) (input : Bytes) (s : Session os)
      → s.reading ≡ false
      → serve db envs read_until fuel n input s ≡ some s
  unfolding serve
  stopped zero n input s e = ground (arith, e)
  stopped (suc fuel) n input s e = ground (arith, e)

  read_failed-reading : (s : Session os) → (read_failed s).reading ≡ false
  unfolding read_failed close_data_acceptor
  read_failed-reading s = ground arith

  -- The session comes to an end for whatever complete lines a client sends before it closes the
  -- connection, after one round for each line and one more, where `async_read_until` stops at the
  -- first "\r\n": the commands are handled in the order of the lines, byte for byte what was sent,
  -- up to one that ends the session; a line that is not complete is not handled.
  pub serve-send_lines :
      (n : ℕ) (lines : List Bytes) (tail : Bytes) (s : Session os)
      → IsReadUntil read_until
      → All IsLine lines
      → has_crlf tail ≡ false
      → serve db envs read_until (suc (length lines)) n (send_lines lines tail) s
        ≡ some (handle_lines n lines s)
  unfolding serve
  serve-send_lines n [] tail s h v e =
      rw (read_ftp_command-missing n tail s h e)
        (if-some s.reading s (stopped zero (n + 1) tail (read_failed s) (read_failed-reading s)))
  serve-send_lines n (line ∷ lines) tail s h v e =
      rw (read_ftp_command-line n line (send_lines lines tail) s h v.0) (
        if-some s.reading s
          (serve-send_lines (n + 1) lines tail (handle_ftp_command db (envs n) line s) h v.1 e))
