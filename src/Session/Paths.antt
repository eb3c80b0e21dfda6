-- ===== src/Session/Paths.antt =====
-- Where the paths of a session lead: below the root folder of the user.
use fineftp_server.Base.{
  ℕ, ◌≡◌, ◌≢◌, refl, inl, inr, true, false, List, [], ◌∷◌, ◌++◌, arith, Bytes, codes, All,
  All-append, ==_iff, Bool-cases,
}
use fineftp_server.Users.{FtpUser}
use fineftp_server.CleanPath.{slash, is_slash, clean_path, clean_path_native}
use fineftp_server.CleanPath.Unix.{IsEntry, is_absolute, entries, path_of, clean_path_unix}
use fineftp_server.CleanPath.Normal.{folder, clean_path_below}
use fineftp_server.CleanPath.Content.{
  IsEntryOf, IsRooted, entries-IsEntryOf, entries-bytes, path_of-bytes,
}
use fineftp_server.Os.{c_str}
use fineftp_server.Session.{starts_with_slash, to_absolute_ftp_path, to_local_path}

-- A local path that is the user's root folder, or an entry of it, or an entry of a folder of it, …
abbrev pub IsInFolder : FtpUser → Bytes → Type 0
IsInFolder user p =
    (cs : List Bytes) × All IsEntry cs
    × (p
        ≡ path_of (is_absolute (user.local_root_path ++ slash ∷ []))
            (folder user.local_root_path ++ cs))

-- The bytes that the program itself puts into a path.
abbrev pub slash_dot : Bytes
slash_dot = slash ∷ b'.' ∷ []

All-unit : (s : Bytes) → All (λ c. Unit {0}) s
All-unit [] = tt
All-unit (c ∷ s) = (tt, All-unit s)

module _ (P : ℕ → Type 0) where
  clean_path-IsRooted : (s : Bytes) → All P s → IsRooted P (clean_path (slash ∷ s) false slash)
  unfolding is_absolute
  clean_path-IsRooted s h = (entries (slash ∷ s), entries-IsEntryOf P s h, clean_path_unix slash s)

  pub All-bytes : (cs : List Bytes) → All (IsEntryOf P) cs → All (All P) cs
  All-bytes [] h = tt
  All-bytes (c ∷ cs) h = (h.0.1.1, All-bytes cs h.1)

  pub All-IsEntry : (cs : List Bytes) → All (IsEntryOf P) cs → All IsEntry cs
  All-IsEntry [] h = tt
  All-IsEntry (c ∷ cs) h = ((h.0.0, h.0.1.0), All-IsEntry cs h.1)

  All-tail : (c : ℕ) (s : Bytes) → All P (c ∷ s) → All P s
  All-tail c s h = h.1

  -- An absolute path is cleaned by itself.
  absolute-IsRooted :
      (wd : Bytes) (c : ℕ) (s : Bytes)
      → All P (c ∷ s)
      → is_slash c ≡ true
      → IsRooted P (to_absolute_ftp_path wd (c ∷ s))
  unfolding to_absolute_ftp_path starts_with_slash
  absolute-IsRooted wd c s h e = rw (e, (==_iff c slash).0 e) (clean_path-IsRooted s h.1)

  -- A relative path is cleaned behind the working directory.
  relative-IsRooted :
      (wd param : Bytes)
      → All P slash_dot
      → IsRooted P wd
      → All P param
      → IsRooted P (clean_path (wd ++ slash ∷ param) false slash)
  unfolding path_of
  relative-IsRooted wd param d (cs, h, w) p =
      let bytes : All P wd = rw w (path_of-bytes P true cs d.0 d.1.0 (All-bytes cs h)) in
      rw w (
        clean_path-IsRooted _
          (All-append P _ (slash ∷ param) (All-tail slash _ (rw w at bytes)) (d.0, p)))

  -- An absolute FTP path comes of every parameter, with entries of the same kind of bytes.
  pub to_absolute_ftp_path-IsRooted :
      (wd param : Bytes)
      → All P slash_dot
      → IsRooted P wd
      → All P param
      → IsRooted P (to_absolute_ftp_path wd param)
  to_absolute_ftp_path-IsRooted wd [] d w p =
      unfold to_absolute_ftp_path starts_with_slash in relative-IsRooted wd [] d w p
  to_absolute_ftp_path-IsRooted wd (c ∷ s) d w p = elim (Bool-cases (is_slash c)) [
    | inl e ↦ absolute-IsRooted wd c s p e
    | inr e ↦
        unfold to_absolute_ftp_path starts_with_slash in rw e (relative-IsRooted wd (c ∷ s) d w p)
  ]

  -- The local path of a parameter is the root folder with entries added.
  pub to_local_path_lem :
      (user : FtpUser) (wd param : Bytes)
      → All P slash_dot
      → IsRooted P wd
      → All P param
      → (cs : List Bytes) × All (IsEntryOf P) cs
        × (to_local_path user wd param
            ≡ path_of
                (is_absolute (user.local_root_path ++ slash ∷ []))
                (folder user.local_root_path ++ cs))
  unfolding to_local_path clean_path_native
  to_local_path_lem user wd param d w p =
      let (cs, h, e) = to_absolute_ftp_path-IsRooted wd param d w p in
      (cs, h, rw e (clean_path_below user.local_root_path cs (All-IsEntry cs h)))

-- The local path has no other bytes than the root folder, the working directory and the parameter.
pub to_local_path-All :
    (P : ℕ → Type 0) (user : FtpUser) (wd param : Bytes)
    → All P slash_dot
    → All P (codes "..")
    → All P user.local_root_path
    → IsRooted P wd
    → All P param
    → All P (to_local_path user wd param)
to_local_path-All P user wd param d dots r w p =
    let (cs, h, e) = to_local_path_lem P user wd param d w p in
    rw e (
      path_of-bytes P _ _ d.0 d.1.0 (
        All-append (All P) (folder user.local_root_path) cs
          (entries-bytes P _ dots (All-append P user.local_root_path _ r (d.0, tt)))
          (All-bytes P cs h)))

-- In the Unix build, where the working directory is an absolute, normalised FTP path, the local path
-- of every parameter is the user's root folder, or stands below it.
pub to_local_path-IsInFolder :
    (user : FtpUser) (wd param : Bytes)
    → IsRooted (λ c. Unit {0}) wd
    → IsInFolder user (to_local_path user wd param)
to_local_path-IsInFolder user wd param w =
    let (cs, h, e) =
      to_local_path_lem (λ c. Unit {0}) user wd param (tt, (tt, tt)) w (All-unit param) in
    (cs, All-IsEntry (λ c. Unit {0}) cs h, e)

abbrev pub NoNul : Bytes → Type 0
NoNul = All (λ c. c ≢ 0)

pub c_str-eq : (s : Bytes) → NoNul s → c_str s ≡ s
unfolding c_str
c_str-eq [] h = refl
c_str-eq (c ∷ s) h = ground (arith, c_str-eq s h.1)

pub slash_dot-NoNul : NoNul slash_dot
slash_dot-NoNul = ground arith

pub dots-NoNul : NoNul (codes "..")
unfolding codes
dots-NoNul = ground arith

-- Where the root folder, the working directory (an absolute, normalised FTP path) and the parameter
-- hold no NUL byte, the operating system is asked for the local path itself.
pub c_str-to_local_path :
    (user : FtpUser) (wd param : Bytes)
    → NoNul user.local_root_path
    → IsRooted (λ c. c ≢ 0) wd
    → NoNul param
    → c_str (to_local_path user wd param) ≡ to_local_path user wd param
c_str-to_local_path user wd param r w p =
    c_str-eq _ (to_local_path-All (λ c. c ≢ 0) user wd param slash_dot-NoNul dots-NoNul r w p)
