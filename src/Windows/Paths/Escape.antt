-- ===== src/Windows/Paths/Escape.antt =====
-- A backslash is a letter to the FTP path and a separator to the local path.
use mathlib.Core.List.{reverse, reverse-cons}
use fineftp_server.Base.{
  ℕ, zero, suc, ◌≡◌, refl, ◌∙◌, true, false, List, [], ◌∷◌, ◌++◌, append-nil, arith, Bytes, codes,
  bytes_eq, All, length, length-append, drop,
}
use fineftp_server.Users.{FtpUser}
use fineftp_server.CleanPath.{
  is_letter, slash, backslash, is_slash, is_any_slash, add_component, separated, join, render,
  clean_path,
}
use fineftp_server.CleanPath.Split.{NoSep, split, resolve, split-append, split-join, split-NoSep'}
use fineftp_server.CleanPath.Resolve.{
  absolute_root-drive, drop_all, IsPlain, resolve-append, resolve_plain, components, lexical,
  clean_path-lexical,
}
use fineftp_server.CleanPath.Unix.{IsEntry, is_absolute, path_of}
use fineftp_server.CleanPath.Normal.{clean_path_below}
use fineftp_server.Session.{starts_with_slash, to_absolute_ftp_path}
use fineftp_server.Session.Nul.{folder_of_nothing}
use fineftp_server.Windows.Paths.{clean_path_native, to_local_path}

-- The name of a file or a folder on Windows.
abbrev pub IsName : Bytes → Type 0
IsName c = IsPlain c × NoSep is_any_slash c

-- As many times two dots and a backslash as the number says, and then a name.
abbrev pub climb : ℕ → Bytes → Bytes
climb zero x = x
climb (suc n) x = b'.' ∷ b'.' ∷ backslash ∷ climb n x

-- A folder on a drive.
abbrev pub on_drive : ℕ → List Bytes → Bytes
on_drive letter folders = letter ∷ b':' ∷ backslash ∷ join backslash folders

NoSep-is_slash : (x : Bytes) → NoSep is_any_slash x → NoSep is_slash x
NoSep-is_slash [] h = tt
NoSep-is_slash (c ∷ x) h = (ground (arith, h.0), NoSep-is_slash x h.1)

climb-NoSep : (n : ℕ) (x : Bytes) → NoSep is_any_slash x → NoSep is_slash (climb n x)
climb-NoSep zero x h = NoSep-is_slash x h
climb-NoSep (suc n) x h = (refl, (refl, (refl, climb-NoSep n x h)))

dots-IsPlain : (s : Bytes) → IsPlain (b'.' ∷ b'.' ∷ backslash ∷ s)
unfolding codes
dots-IsPlain s = (λ e. cc, λ e. cc, λ e. cc)

-- The FTP path takes it for one entry.
climb-IsEntry : (n : ℕ) (x : Bytes) → IsName x → IsEntry (climb n x)
climb-IsEntry zero x h = (h.0, climb-NoSep zero x h.1)
climb-IsEntry (suc n) x h = (dots-IsPlain (climb n x), climb-NoSep (suc n) x h.1)

entry_cleaned :
    (p : Bytes)
    → IsEntry p
    → to_absolute_ftp_path (slash ∷ []) p
      ≡ clean_path ([] ++ slash ∷ path_of true (p ∷ [])) false slash
unfolding to_absolute_ftp_path starts_with_slash path_of join separated
entry_cleaned [] h = absurd (h.0.0 refl)
entry_cleaned (c ∷ p) h = rw (h.1.0, append-nil) refl

entry-to_absolute_ftp_path :
    (p : Bytes) → IsEntry p → to_absolute_ftp_path (slash ∷ []) p ≡ slash ∷ p
unfolding is_absolute path_of join separated
entry-to_absolute_ftp_path p h =
    entry_cleaned p h
    ∙ clean_path_below [] (p ∷ []) (h, tt)
    ∙ rw (folder_of_nothing, append-nil) refl

-- The components of such a parameter, on Windows.
abbrev dots : ℕ → List Bytes → List Bytes
dots zero ws = ws
dots (suc n) ws = codes ".." ∷ dots n ws

split-climb :
    (n : ℕ) (x : Bytes) → NoSep is_any_slash x → split is_any_slash (climb n x) ≡ dots n (x ∷ [])
unfolding split codes
split-climb zero x h = split-NoSep' is_any_slash x h
split-climb (suc n) x h = rw (split-climb n x h) refl

drop_nil : (n : ℕ) → drop {A = Bytes} n [] ≡ []
drop_nil zero = refl
drop_nil (suc n) = refl

resolve-dots :
    (n : ℕ) (stack ws : List Bytes)
    → resolve true stack (dots n ws) ≡ resolve true (drop n stack) ws
unfolding resolve add_component codes bytes_eq
resolve-dots zero stack ws = refl
resolve-dots (suc n) [] ws = rw (resolve-dots n [] ws, drop_nil n) refl
resolve-dots (suc n) (c ∷ stack) ws = resolve-dots n stack ws

length-reverse : (xs : List Bytes) → length (reverse xs) ≡ length xs
length-reverse [] = refl
length-reverse (x ∷ xs) =
    rw (reverse-cons x xs) (omega (arith, length-append (reverse xs) (x ∷ []), length-reverse xs))

skip : (stack ws : List Bytes) → resolve true stack ([] ∷ ws) ≡ resolve true stack ws
unfolding resolve add_component
skip stack ws = refl

-- As many times up as there are folders leaves none of them.
resolve-climb :
    (folders : List Bytes) (x : Bytes)
    → All IsPlain folders
    → IsPlain x
    → resolve true [] (folders ++ [] ∷ dots (length folders) (x ∷ [])) ≡ x ∷ []
resolve-climb folders x hs h =
    let above : drop (length folders) (reverse folders ++ []) ≡ [] =
      rw append-nil
        (drop_all (length folders) (reverse folders) (omega (arith, length-reverse folders))) in
    rw
      (
        resolve-append true [] folders,
        resolve_plain true [] folders hs,
        skip,
        resolve-dots (length folders),
        above,
        resolve_plain true [] (x ∷ []) (h, tt),
      )
      refl

All-IsPlain : (cs : List Bytes) → All IsName cs → All IsPlain cs
All-IsPlain [] h = tt
All-IsPlain (c ∷ cs) h = (h.0.0, All-IsPlain cs h.1)

All-NoSep : (cs : List Bytes) → All IsName cs → All (NoSep is_any_slash) cs
All-NoSep [] h = tt
All-NoSep (c ∷ cs) h = (h.0.1, All-NoSep cs h.1)

split-slash : (s : Bytes) → split is_any_slash (slash ∷ s) ≡ [] ∷ split is_any_slash s
unfolding split
split-slash s = refl

split-backslash : (s : Bytes) → split is_any_slash (backslash ∷ s) ≡ [] ∷ split is_any_slash s
unfolding split
split-backslash s = refl

-- The folders of the root, nothing for the two slashes, and what the parameter splits into.
resolve-split :
    (folders : List Bytes) (p : Bytes)
    → All IsName folders
    → resolve true []
        (split is_any_slash (backslash ∷ (join backslash folders ++ slash ∷ slash ∷ p)))
      ≡ resolve true [] (folders ++ [] ∷ split is_any_slash p)
resolve-split [] p h = unfold join split resolve add_component in refl
resolve-split (c ∷ cs) p h =
    rw
      (
        split-backslash,
        skip,
        split-append is_any_slash (join backslash (c ∷ cs)) (slash ∷ p) slash refl,
        split-join is_any_slash backslash c cs refl (All-NoSep (c ∷ cs) h),
        split-slash,
      )
      refl

components-escaped :
    (letter : ℕ) (folders : List Bytes) (x : Bytes)
    → is_letter letter ≡ true
    → All IsName folders
    → IsName x
    → components true (on_drive letter folders ++ slash ∷ slash ∷ climb (length folders) x) ≡ x ∷ []
unfolding components
components-escaped letter folders x l hs h =
    rw
      (
        absolute_root-drive letter _ l,
        resolve-split folders (climb (length folders) x) hs,
        split-climb (length folders) x h.1,
        resolve-climb folders x (All-IsPlain folders hs) h.0,
      )
      refl

-- On Windows a client leaves the user's root folder: where that is a folder on a drive, in the root
-- directory the parameter that is as many times `..` and a backslash as the path of the folder has
-- entries, and then a name, is mapped to that name on the drive itself. The entries and the name are
-- not empty, `.` or `..`, and hold no slash and no backslash.
pub to_local_path-escapes :
    (user : FtpUser) (letter : ℕ) (folders : List Bytes) (x : Bytes)
    → user.local_root_path ≡ on_drive letter folders
    → is_letter letter ≡ true
    → All IsName folders
    → IsName x
    → to_local_path user (slash ∷ []) (climb (length folders) x) ≡ on_drive letter (x ∷ [])
unfolding to_local_path clean_path_native lexical render join separated
to_local_path-escapes user letter folders x r l hs h =
    rw
      (
        r,
        entry-to_absolute_ftp_path (climb (length folders) x) (climb-IsEntry (length folders) x h),
        clean_path-lexical (on_drive letter folders ++ slash ∷ slash ∷ climb (length folders) x)
            true backslash,
        components-escaped letter folders x l hs h,
        absolute_root-drive letter
            (backslash ∷ (join backslash folders ++ slash ∷ slash ∷ climb (length folders) x)) l,
      )
      refl
