-- ===== src/Session/Connection/Laws.antt =====
-- Data connections come from the client's own address; name lists can be read back; a file is
-- received whole.
use mathlib.Core.List.{map}
use fineftp_server.Base.{
  ℕ, zero, suc, ◌≡◌, ◌≢◌, refl, true, false, Option, none, some, List, [], ◌∷◌, ◌++◌, append_assoc,
  arith, Bytes, codes, All, All-map, length, bytes_eq_iff,
}
use fineftp_server.Os.{Os}
use fineftp_server.FileStatus.{FileStatus}
use fineftp_server.Message.Framing.{until, behind, until-append, IsInline}
use fineftp_server.Session.{
  Session, Acceptor, closed, opened, bound, listening, is_open, Address, v4, v6,
  close_data_acceptor,
}
use fineftp_server.Session.Connection.{
  address_eq, validate_data_connection, Accepted, accept_error, accepted, data_accepted, name_list,
  Chunk, is_empty_chunk, receive_data,
}

address_eq_sound : (a b : Address) → address_eq a b ≡ true → a ≡ b
unfolding address_eq
address_eq_sound (v4 a b c d) (v4 a' b' c' d') e = ground (arith, e)
address_eq_sound (v4 a b c d) (v6 s) e = cc
address_eq_sound (v6 s) (v4 a b c d) e = cc
address_eq_sound (v6 s) (v6 t) e = ground (arith, (bytes_eq_iff s t).0 e)

validate_sound :
    (d c : Option Address)
    → validate_data_connection d c ≡ true
    → (a : Address) × (d ≡ some a) × (c ≡ some a)
unfolding validate_data_connection
validate_sound none c e = cc
validate_sound (some d) none e = cc
validate_sound (some d) (some c) e = (d, refl, ground (arith, address_eq_sound d c e))

not_open : (a : Acceptor) → is_open a ≡ false → a ≡ closed
unfolding is_open
not_open closed e = refl
not_open opened e = cc
not_open bound e = cc
not_open listening e = cc

module _ {os : Os} where
  close-closed : (s : Session os) → (close_data_acceptor s).data_acceptor ≡ closed
  unfolding close_data_acceptor
  close-closed s = ground (arith, not_open s.data_acceptor)

  -- Whatever comes in, a transfer goes on only when a connection was accepted, from the address of
  -- the control connection, and then the listening socket was closed, so that no second connection
  -- comes.
  pub data_accepted-validated :
      (result : Accepted) (s : Session os)
      → (data_accepted result s).0 ≡ true
      → (a : Address) × (result ≡ accepted (some a) (some a))
        × ((data_accepted result s).1.data_acceptor ≡ closed)
  unfolding data_accepted
  data_accepted-validated (accept_error message) s e = cc
  data_accepted-validated (accepted d c) s e =
      let (a, p, q) = validate_sound d c (ground (arith, e)) in
      (a, rw (p, q) refl, ground (arith, e, close-closed s))

-- The lines of a text, as many as asked for.
pub read_lines : ℕ → Bytes → List Bytes
read_lines zero s = []
read_lines (suc n) s = until b'\r' s ∷ read_lines n (behind b'\n' s)

name_list-cons : (name rest : Bytes) → name ++ codes "\r\n" ++ rest ≡ name ++ b'\r' ∷ b'\n' ∷ rest
unfolding codes
name_list-cons name rest = append_assoc name (b'\r' ∷ b'\n' ∷ []) rest

behind-line :
    (name rest : Bytes)
    → All (λ c. c ≢ b'\n') name
    → behind b'\n' (name ++ b'\r' ∷ b'\n' ∷ rest) ≡ rest
unfolding behind
behind-line [] rest h = refl
behind-line (c ∷ name) rest h = ground (arith, h.0, behind-line name rest h.1)

-- The names of a directory are read back from the text that NLST sends, in their order, where no
-- name holds a carriage return or a line feed.
pub read_lines-name_list :
    (content : List (Bytes × FileStatus))
    → All (λ e. All IsInline e.0) content
    → read_lines (length content) (name_list content) ≡ map (λ e. e.0) content
unfolding read_lines name_list
read_lines-name_list [] h = refl
read_lines-name_list ((name, status) ∷ content) h =
    rw
      (
        name_list-cons name (name_list content),
        until-append b'\r' name (b'\n' ∷ name_list content) (All-map _ _ _ (λ c d. d.0) h.0),
        behind-line name (name_list content) (All-map _ _ _ (λ c d. d.1) h.0),
        read_lines-name_list content h.1,
      )
      refl

-- Reads that are full, one after the other.
abbrev pub full_chunks : List Bytes → List Chunk → List Chunk
full_chunks [] end = end
full_chunks (b ∷ bs) end = record { bytes = b; ec = false } ∷ full_chunks bs end

abbrev pub concat : List Bytes → Bytes
concat [] = []
concat (b ∷ bs) = b ++ concat bs

-- However the sender's data is split into reads that bring something, with a last one that ends at
-- the end of the data, the file holds all of it, and the transfer is ended.
pub receive_data-full_chunks :
    (bs : List Bytes) (last : Bytes)
    → All (λ b. is_empty_chunk b ≡ false) bs
    → receive_data (full_chunks bs (record { bytes = last; ec = true } ∷ []))
      ≡ (concat bs ++ last, true)
unfolding receive_data
receive_data-full_chunks [] last h = refl
receive_data-full_chunks (b ∷ bs) last h =
    rw (h.0, receive_data-full_chunks bs last h.1) (rw (append_assoc b (concat bs) last) refl)
