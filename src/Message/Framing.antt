-- ===== src/Message/Framing.antt =====
-- Replies read back from the text that is sent.
use mathlib.Core.List.{map}
use fineftp_server.Base.{
  ℕ, zero, suc, ◌≡◌, ◌≢◌, refl, List, [], ◌∷◌, ◌++◌, append_assoc, arith, Bytes, codes, All,
  to_string, read_digits, read_digits-to_string, to_string-All, All-map, length, ◌==◌,
  if◌then◌else◌,
}
use fineftp_server.Message.{FtpMessage, value, str}

-- What a client reads: up to a line feed, one reply; its code up to the blank, its text up to the
-- carriage return.
unfoldable pub until : ℕ → Bytes → Bytes
until b [] = []
until b (c ∷ s) = if c == b then [] else c ∷ until b s

unfoldable pub behind : ℕ → Bytes → Bytes
behind b [] = []
behind b (c ∷ s) = if c == b then s else behind b s

-- The first line of a text, as a number and a message, and what follows the line.
pub read_reply : Bytes → (ℕ × Bytes) × Bytes
read_reply s = ((read_digits 0 (until b' ' s), until b'\r' (behind b' ' s)), behind b'\n' s)

-- As many replies as asked for, one after the other.
pub read_replies : ℕ → Bytes → List (ℕ × Bytes)
read_replies zero s = []
read_replies (suc n) s = let (r, rest) = read_reply s in r ∷ read_replies n rest

-- What is sent for a list of replies.
pub send_all : List FtpMessage → Bytes
send_all [] = []
send_all (m ∷ ms) = str m ++ send_all ms

pub until-append : (b : ℕ) (s t : Bytes) → All (λ c. c ≢ b) s → until b (s ++ b ∷ t) ≡ s
unfolding until
until-append b [] t h = ground arith
until-append b (c ∷ s) t h = ground (arith, until-append b s t h.1, h.0)

pub behind-append : (b : ℕ) (s t : Bytes) → All (λ c. c ≢ b) s → behind b (s ++ b ∷ t) ≡ t
unfolding behind
behind-append b [] t h = ground arith
behind-append b (c ∷ s) t h = ground (arith, behind-append b s t h.1, h.0)

-- A byte that ends no line.
abbrev pub IsInline : ℕ → Type 0
IsInline c = (c ≢ b'\r') × (c ≢ b'\n')

-- The text of a reply, and what follows.
str-append :
    (m : FtpMessage) (rest : Bytes)
    → str m ++ rest ≡ to_string (value m.reply_code) ++ b' ' ∷ (m.message ++ b'\r' ∷ b'\n' ∷ rest)
unfolding str codes
str-append m rest = rw (append_assoc, append_assoc, append_assoc) refl

-- A line feed ends the line, wherever the blank and the carriage return stand.
line-append :
    (number message rest : Bytes)
    → All (λ c. c ≢ b'\n') number
    → All (λ c. c ≢ b'\n') message
    → behind b'\n' (number ++ b' ' ∷ (message ++ b'\r' ∷ b'\n' ∷ rest)) ≡ rest
unfolding behind
line-append [] [] rest hn hm = refl
line-append [] (c ∷ message) rest hn hm = ground (arith, hm.0, line-append [] message rest tt hm.1)
line-append (c ∷ number) message rest hn hm =
    ground (arith, hn.0, line-append number message rest hn.1 hm)

read_reply-str :
    (m : FtpMessage) (rest : Bytes)
    → All IsInline m.message
    → read_reply (str m ++ rest) ≡ ((value m.reply_code, m.message), rest)
unfolding read_reply
read_reply-str m rest h =
    let digits = to_string-All (value m.reply_code) in
    rw
      (
        str-append m rest,
        until-append b' ' (to_string (value m.reply_code)) (m.message ++ b'\r' ∷ b'\n' ∷ rest)
            (All-map _ _ _ (λ c d. ground (arith, d)) digits),
        behind-append b' ' (to_string (value m.reply_code)) (m.message ++ b'\r' ∷ b'\n' ∷ rest)
            (All-map _ _ _ (λ c d. ground (arith, d)) digits),
        until-append b'\r' m.message (b'\n' ∷ rest) (All-map _ _ _ (λ c d. d.0) h),
        line-append (to_string (value m.reply_code)) m.message rest
            (All-map _ _ _ (λ c d. ground (arith, d)) digits) (All-map _ _ _ (λ c d. d.1) h),
        read_digits-to_string (value m.reply_code),
      )
      refl

-- Replies whose messages hold no carriage return and no line feed are read back, each with its
-- number and its message, from the bytes that are sent for them one after the other.
pub read_replies-send_all :
    (ms : List FtpMessage)
    → All (λ m. All IsInline m.message) ms
    → read_replies (length ms) (send_all ms) ≡ map (λ m. (value m.reply_code, m.message)) ms
unfolding read_replies send_all
read_replies-send_all [] h = refl
read_replies-send_all (m ∷ ms) h =
    rw (read_reply-str m (send_all ms) h.0, read_replies-send_all ms h.1) refl
