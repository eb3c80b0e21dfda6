-- ===== src/CleanPath/Content.antt =====
-- Cleaning makes up no bytes: what holds of every byte of a path holds of its entries.
use fineftp_server.Base.{
  ℕ, ◌≡◌, refl, Bool, true, false, List, [], ◌∷◌, arith, Bytes, codes, All, All-append, All-reverse,
}
use fineftp_server.CleanPath.{slash, is_slash, add_component, parent, separated, join}
use fineftp_server.CleanPath.Split.{split, NoSep, resolve, split_cons, split-NoSep}
use fineftp_server.CleanPath.Resolve.{IsPlain, resolve-All}
use fineftp_server.CleanPath.Unix.{is_absolute, entries, path_of}

module _ (P : ℕ → Type 0) where
  pub split-All : (s : Bytes) → All P s → All (All P) (split is_slash s)
  unfolding split
  split-All [] h = (tt, tt)
  split-All (c ∷ s) h = ground (arith, split-All s h.1, split_cons is_slash s)

  All-both :
      (ws : List Bytes)
      → All (NoSep is_slash) ws
      → All (All P) ws
      → All (λ c. NoSep is_slash c × All P c) ws
  All-both [] h k = tt
  All-both (w ∷ ws) h k = ((h.0, k.0), All-both ws h.1 k.1)

  -- An entry made of such bytes.
  abbrev pub IsEntryOf : Bytes → Type 0
  IsEntryOf c = IsPlain c × (NoSep is_slash c × All P c)

  -- The text of an absolute path with such entries.
  abbrev pub IsRooted : Bytes → Type 0
  IsRooted p = (cs : List Bytes) × All IsEntryOf cs × (p ≡ path_of true cs)

  pub slash-IsRooted : IsRooted (slash ∷ [])
  unfolding path_of join
  slash-IsRooted = ([], tt, refl)

  pub entries-IsEntryOf : (s : Bytes) → All P s → All IsEntryOf (entries (slash ∷ s))
  unfolding entries is_absolute split
  entries-IsEntryOf s h = All-reverse IsEntryOf _ (
      resolve-All (λ c. NoSep is_slash c × All P c) [] ([] ∷ split is_slash s) tt
        ((tt, tt), All-both (split is_slash s) (split-NoSep is_slash s) (split-All s h)))

  resolve-bytes :
      (absolute : Bool) (cs ws : List Bytes)
      → All P (codes "..")
      → All (All P) cs
      → All (All P) ws
      → All (All P) (resolve absolute cs ws)
  unfolding resolve add_component parent
  resolve-bytes absolute cs [] d h k = h
  resolve-bytes absolute cs (w ∷ ws) d h k =
      resolve-bytes absolute (add_component absolute cs w) ws d (added absolute cs w h k.0) k.1
    where
      added :
          (absolute : Bool) (cs : List Bytes) (w : Bytes)
          → All (All P) cs
          → All P w
          → All (All P) (add_component absolute cs w)
      added true [] w h p = ground arith
      added true (c ∷ cs) w h p = ground arith
      added false [] w h p = ground arith
      added false (c ∷ cs) w h p = ground arith

  pub entries-bytes : (s : Bytes) → All P (codes "..") → All P s → All (All P) (entries s)
  unfolding entries
  entries-bytes s d h =
      All-reverse (All P) _ (resolve-bytes (is_absolute s) [] _ d tt (split-All s h))

  separated-bytes : (cs : List Bytes) → P slash → All (All P) cs → All P (separated slash cs)
  unfolding separated
  separated-bytes [] d h = tt
  separated-bytes (c ∷ cs) d h =
      (d, All-append P c (separated slash cs) h.0 (separated-bytes cs d h.1))

  pub join-bytes : (cs : List Bytes) → P slash → All (All P) cs → All P (join slash cs)
  unfolding join
  join-bytes [] d h = tt
  join-bytes (c ∷ cs) d h = All-append P c (separated slash cs) h.0 (separated-bytes cs d h.1)

  pub path_of-bytes :
      (absolute : Bool) (cs : List Bytes)
      → P slash
      → P b'.'
      → All (All P) cs
      → All P (path_of absolute cs)
  unfolding path_of codes
  path_of-bytes true cs d e h = (d, join-bytes cs d h)
  path_of-bytes false [] d e h = (e, tt)
  path_of-bytes false (c ∷ cs) d e h = join-bytes (c ∷ cs) d h
