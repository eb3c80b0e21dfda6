-- ===== src/Session/Quoting.antt =====
-- The quoted paths in the replies of PWD and MKD, read back.
use fineftp_server.Base.{
  ℕ, ◌≡◌, refl, Bool, true, false, [], ◌∷◌, ◌++◌, append_assoc, arith, Bytes, ◌==◌, Bool-cases, inl,
  inr, if◌then◌else◌,
}
use fineftp_server.Session.{quote_body, create_quoted_ftp_path}

abbrev quote : ℕ
quote = b'"'

cons : ℕ → Bytes × Bytes → Bytes × Bytes
cons c (path, rest) = (c ∷ path, rest)

-- RFC 959, appendix II: inside the quotes a doubled quote is a quote. The flag says that the last
-- byte was a quote which is not yet read. The result is the path and what follows it.
pub read_quoted : Bool → Bytes → Bytes × Bytes
unfolding cons
read_quoted after_quote [] = ([], [])
read_quoted false (c ∷ s) =
    let quoted = read_quoted true s in
    let more = read_quoted false s in if c == quote then quoted else cons c more
read_quoted true (c ∷ s) =
    let more = read_quoted false s in if c == quote then cons c more else ([], c ∷ s)

-- What a client takes from a reply: the first byte is the opening quote.
pub read_path : Bytes → Bytes × Bytes
read_path [] = ([], [])
read_path (c ∷ s) = read_quoted false s

abbrev pub starts_with_quote : Bytes → Bool
starts_with_quote [] = false
starts_with_quote (c ∷ s) = c == quote

read_end : (rest : Bytes) → starts_with_quote rest ≡ false → read_quoted true rest ≡ ([], rest)
unfolding read_quoted
read_end [] h = refl
read_end (c ∷ s) h = rw h refl

read_body :
    (path rest : Bytes)
    → starts_with_quote rest ≡ false
    → read_quoted false (quote_body path ++ quote ∷ rest) ≡ (path, rest)
unfolding read_quoted quote_body cons
read_body [] rest h = read_end rest h
read_body (c ∷ path) rest h = elim (Bool-cases (c == quote)) [
  | inl e ↦ ground (arith, e, read_body path rest h)
  | inr e ↦ ground (arith, e, read_body path rest h)
]

-- A quoted path is read back as it was, whatever bytes it holds, when no quote follows it.
pub read_path-create_quoted_ftp_path :
    (path rest : Bytes)
    → starts_with_quote rest ≡ false
    → read_path (create_quoted_ftp_path path ++ rest) ≡ (path, rest)
unfolding read_path create_quoted_ftp_path
read_path-create_quoted_ftp_path path rest h =
    rw (append_assoc (quote_body path) (quote ∷ []) rest) (read_body path rest h)
