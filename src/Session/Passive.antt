-- ===== src/Session/Passive.antt =====
-- ftp_session.cpp, `handleFtpCommandPASV`: what a client reads in the reply.
use fineftp_server.Base.{
  ℕ, zero, suc, ◌+◌, ◌-◌, ◌*◌, ◌/◌, ◌%◌, ◌^◌, ◌<◌, ◌≡◌, refl, ap, append_assoc, Bool, true, false,
  ◌&&◌, some, List, [], ◌∷◌, ◌++◌, arith, Bytes, codes, to_string, read_digits,
  read_digits-to_string, to_string-All, ltb, ◌==◌, if◌then◌else◌, All,
}
use fineftp_server.Users.{FtpUser}
use fineftp_server.Message.{str, value}
use fineftp_server.Message.FtpReplyCode.{entering_passive_mode}
use fineftp_server.Os.{Os}
use fineftp_server.Session.{Session, Env, v4, listening, send_ftp_message, close_data_acceptor}
use fineftp_server.Session.Parameters.{handle_pasv, start_listening, passive_reply, passive_text}
use fineftp_server.Session.Replies.{last_reply, last_reply-snoc}

abbrev is_digit : ℕ → Bool
is_digit c = ltb 47 c && ltb c 58

-- A number, and what is behind the byte that ends it.
abbrev pub read_number : ℕ → Bytes → ℕ × Bytes
read_number n [] = (n, [])
read_number n (c ∷ s) = if is_digit c then read_number (n * 10 + (c - 48)) s else (n, s)

abbrev pub read_numbers : ℕ → Bytes → List ℕ
read_numbers zero s = []
read_numbers (suc count) s = let (n, rest) = read_number 0 s in n ∷ read_numbers count rest

abbrev pub behind_parenthesis : Bytes → Bytes
behind_parenthesis [] = []
behind_parenthesis (c ∷ s) = if c == b'(' then s else behind_parenthesis s

-- The six numbers of the reply to PASV.
abbrev pub passive_numbers : Bytes → List ℕ
passive_numbers reply = read_numbers 6 (behind_parenthesis reply)

read_number-digits :
    (acc : ℕ) (s : Bytes) (c : ℕ) (rest : Bytes)
    → All (λ b. (47 < b) × (b < 58)) s
    → is_digit c ≡ false
    → read_number acc (s ++ c ∷ rest) ≡ (read_digits acc s, rest)
unfolding read_digits
read_number-digits acc [] c rest h e = ground (arith, e)
read_number-digits acc (d ∷ s) c rest h e =
    ground (arith, h.0, read_number-digits (acc * 10 + (d - 48)) s c rest h.1 e)

-- A number that a byte other than a digit ends is read back.
read_number-to_string :
    (n c : ℕ) (rest : Bytes)
    → is_digit c ≡ false
    → read_number 0 (to_string n ++ c ∷ rest) ≡ (n, rest)
read_number-to_string n c rest e =
    rw (read_number-digits 0 (to_string n) c rest (to_string-All n) e)
      (ap (λ m. (m, rest)) (read_digits-to_string n))

numbers-passive_text :
    (a b c d port : ℕ) (rest : Bytes)
    → passive_numbers (passive_text a b c d port ++ rest)
      ≡ a ∷ b ∷ c ∷ d ∷ (port / 2 ^ 8 % 2 ^ 8) ∷ (port % 2 ^ 8) ∷ []
unfolding passive_text codes
numbers-passive_text a b c d port rest = simp (append_assoc, read_number-to_string)

-- Nothing before the text of the address has a parenthesis.
behind_parenthesis-str :
    (text : Bytes)
    → behind_parenthesis (
        str (record {
          reply_code = entering_passive_mode;
          message = codes "Entering passive mode " ++ text;
        }))
      ≡ behind_parenthesis (text ++ codes "\r\n")
unfolding str codes to_string value
behind_parenthesis-str text = refl

module _ {os : Os} where
  passive_reply-posted :
      (a b c d port : ℕ) (s : Session os)
      → passive_numbers (last_reply (passive_reply (v4 a b c d) port s).posted)
        ≡ a ∷ b ∷ c ∷ d ∷ (port / 2 ^ 8 % 2 ^ 8) ∷ (port % 2 ^ 8) ∷ []
  unfolding passive_reply send_ftp_message
  passive_reply-posted a b c d port s =
      rw
        (
          last_reply-snoc s.posted (
              str (record {
                reply_code = entering_passive_mode;
                message = codes "Entering passive mode " ++ passive_text a b c d port;
              })),
          behind_parenthesis-str (passive_text a b c d port),
        )
        (numbers-passive_text a b c d port (codes "\r\n"))

  handle_pasv-listening :
      (env : Env) (param : Bytes) (s : Session os) (user : FtpUser) (a b c d : ℕ)
      → s.logged_in_user ≡ some user
      → env.local_endpoint ≡ some (v4 a b c d)
      → env.open_ok ≡ true
      → env.bind_ok ≡ true
      → env.listen_ok ≡ true
      → handle_pasv env param s
        ≡ passive_reply
            (v4 a b c d)
            env.port
            (record (close_data_acceptor s) { data_acceptor = listening })
  unfolding handle_pasv start_listening close_data_acceptor
  handle_pasv-listening env param s user a b c d e l o bi li = ground (arith, e, l, o, bi, li)

  -- A user who is logged in, on a machine with an IPv4 address whose acceptor opens, binds and
  -- listens on a port below 2^16, is answered that address and that port: the reply has six
  -- numbers, the last two of them bytes that make up the port; and the acceptor listens.
  pub handle_pasv-listening_port :
      (env : Env) (param : Bytes) (s : Session os) (user : FtpUser) (a b c d : ℕ)
      → s.logged_in_user ≡ some user
      → env.local_endpoint ≡ some (v4 a b c d)
      → env.open_ok ≡ true
      → env.bind_ok ≡ true
      → env.listen_ok ≡ true
      → env.port < 2 ^ 16
      → (high low : ℕ) × (passive_numbers (last_reply (handle_pasv env param s).posted)
          ≡ a ∷ b ∷ c ∷ d ∷ high ∷ low ∷ [])
        × (high < 2 ^ 8)
        × (low < 2 ^ 8)
        × (high * 2 ^ 8 + low ≡ env.port)
        × ((handle_pasv env param s).data_acceptor ≡ listening)
  unfolding passive_reply send_ftp_message
  handle_pasv-listening_port env param s user a b c d e l o bi li h =
      rw (handle_pasv-listening env param s user a b c d e l o bi li) (
        (env.port / 2 ^ 8 % 2 ^ 8),
        (env.port % 2 ^ 8),
        passive_reply-posted a b c d env.port
            (record (close_data_acceptor s) { data_acceptor = listening }),
        omega arith,
        omega arith,
        omega arith,
        refl,
      )
