-- ===== src/CleanPath/Normal.antt =====
-- Cleaned paths read again: cleaning twice, and cleaning a clean path below a root folder.
use mathlib.Core.List.{reverse, reverse-append, reverse-reverse}
use fineftp_server.Base.{
  append-nil, ◌≡◌, ◌≢◌, refl, Bool, true, false, List, [], ◌∷◌, ◌++◌, Bytes, codes, bytes_eq, All,
  All-reverse,
}
use fineftp_server.CleanPath.{slash, is_slash, add_component, join, clean_path}
use fineftp_server.CleanPath.Split.{split, NoSep, resolve, split-append, split-join, split-NoSep}
use fineftp_server.CleanPath.Resolve.{IsPlain, resolve-append, resolve_plain}
use fineftp_server.CleanPath.Unix.{
  IsEntry, is_absolute, entries, path_of, clean_path_unix, Settled, resolve-Settled,
  resolve-Settled',
}

path_of-ne-nil :
    (absolute : Bool) (cs : List Bytes)
    → All (λ c. (c ≢ []) × NoSep is_slash c) cs
    → path_of absolute cs ≢ []
unfolding path_of join codes
path_of-ne-nil true cs h = cc
path_of-ne-nil false [] h = cc
path_of-ne-nil false ([] ∷ cs) h = absurd (h.0.0 refl)
path_of-ne-nil false ((b ∷ c) ∷ cs) h = cc

is_absolute-path_of :
    (absolute : Bool) (cs : List Bytes)
    → All (λ c. (c ≢ []) × NoSep is_slash c) cs
    → is_absolute (path_of absolute cs) ≡ absolute
unfolding path_of join is_absolute codes
is_absolute-path_of true cs h = refl
is_absolute-path_of false [] h = refl
is_absolute-path_of false ([] ∷ cs) h = absurd (h.0.0 refl)
is_absolute-path_of false ((b ∷ c) ∷ cs) h = h.0.1.0

All-snd : (cs : List Bytes) → All (λ c. (c ≢ []) × NoSep is_slash c) cs → All (NoSep is_slash) cs
All-snd [] h = tt
All-snd (c ∷ cs) h = (h.0.1, All-snd cs h.1)

split-slash : (s : Bytes) → split is_slash (slash ∷ s) ≡ [] ∷ split is_slash s
unfolding split
split-slash s = refl

resolve_skip :
    (absolute : Bool) (stack ws : List Bytes)
    → resolve absolute stack ([] ∷ ws) ≡ resolve absolute stack ws
unfolding resolve add_component
resolve_skip absolute stack ws = refl

resolve-split-join :
    (absolute : Bool) (stack cs : List Bytes)
    → All (NoSep is_slash) cs
    → resolve absolute stack (split is_slash (join slash cs)) ≡ resolve absolute stack cs
resolve-split-join absolute stack [] h = unfold join split resolve add_component in refl
resolve-split-join absolute stack (c ∷ cs) h = rw (split-join is_slash slash c cs refl h)

resolve-path_of :
    (absolute : Bool) (cs : List Bytes)
    → All (NoSep is_slash) cs
    → resolve absolute [] (split is_slash (path_of absolute cs)) ≡ resolve absolute [] cs
unfolding path_of
resolve-path_of true cs h = rw (split-slash, resolve_skip) (resolve-split-join true [] cs h)
resolve-path_of false [] h = unfold codes split resolve add_component bytes_eq in refl
resolve-path_of false (c ∷ cs) h = resolve-split-join false [] (c ∷ cs) h

Settled-All :
    (absolute : Bool) (cs : List Bytes)
    → Settled absolute cs
    → All (λ c. (c ≢ []) × NoSep is_slash c) cs
Settled-All absolute [] h = tt
Settled-All absolute (c ∷ cs) h = ((h.1, h.2), Settled-All absolute cs h.3)

clean_path_nonempty :
    (p : Bytes) → p ≢ [] → clean_path p false slash ≡ path_of (is_absolute p) (entries p)
clean_path_nonempty [] h = absurd (h refl)
clean_path_nonempty (c ∷ s) h = clean_path_unix c s

-- Text of settled components is clean already.
clean_path-path_of :
    (absolute : Bool) (stack : List Bytes)
    → Settled absolute stack
    → clean_path (path_of absolute (reverse stack)) false slash ≡ path_of absolute (reverse stack)
unfolding entries
clean_path-path_of absolute stack h =
    let parts =
      All-reverse (λ c. (c ≢ []) × NoSep is_slash c) stack (Settled-All absolute stack h) in
    rw (
      clean_path_nonempty _ (path_of-ne-nil absolute (reverse stack) parts),
      is_absolute-path_of absolute (reverse stack) parts,
      resolve-path_of absolute (reverse stack) (All-snd _ parts),
      resolve-Settled' absolute stack h,
    )

-- Cleaning a Unix path twice is cleaning it once, for every path.
pub clean_path_idem :
    (p : Bytes) → clean_path (clean_path p false slash) false slash ≡ clean_path p false slash
clean_path_idem [] = unfold clean_path codes bytes_eq in refl
clean_path_idem (c ∷ s) = rw (clean_path_unix c s) (
    unfold entries in
    clean_path-path_of _ _
      (resolve-Settled _ [] (split is_slash (c ∷ s)) tt (split-NoSep is_slash (c ∷ s))))

is_absolute-append :
    (root s t : Bytes) → is_absolute (root ++ slash ∷ s) ≡ is_absolute (root ++ slash ∷ t)
unfolding is_absolute
is_absolute-append [] s t = refl
is_absolute-append (c ∷ root) s t = refl

-- The folder that a root path stands for.
abbrev pub folder : Bytes → List Bytes
folder root = entries (root ++ slash ∷ [])

All-IsPlain : (cs : List Bytes) → All IsEntry cs → All IsPlain cs
All-IsPlain [] h = tt
All-IsPlain (c ∷ cs) h = (h.0.0, All-IsPlain cs h.1)

All-NoSep : (cs : List Bytes) → All IsEntry cs → All (NoSep is_slash) cs
All-NoSep [] h = tt
All-NoSep (c ∷ cs) h = (h.0.1, All-NoSep cs h.1)

-- The stack after a path below a root, from the stack after the root.
resolve_below :
    (absolute : Bool) (root : Bytes) (cs : List Bytes)
    → All IsEntry cs
    → resolve absolute [] (split is_slash (root ++ slash ∷ path_of true cs))
      ≡ reverse cs ++ resolve absolute [] (split is_slash (root ++ slash ∷ []))
unfolding path_of
resolve_below absolute root cs h =
    rw
      (
        split-append is_slash root (slash ∷ join slash cs) slash refl,
        split-append is_slash root [] slash refl,
        resolve-append absolute [] (split is_slash root),
        split-slash,
        resolve_skip,
        resolve-split-join absolute _ cs (All-NoSep cs h),
        resolve_plain absolute _ cs (All-IsPlain cs h),
        resolve-append absolute [] (split is_slash root),
      )
      (unfold split resolve add_component in refl)

entries_below :
    (root : Bytes) (cs : List Bytes)
    → All IsEntry cs
    → entries (root ++ slash ∷ path_of true cs) ≡ folder root ++ cs
unfolding entries
entries_below root cs h = rw (
  is_absolute-append root (path_of true cs) [],
  resolve_below _ root cs h,
  reverse-append (reverse cs),
  reverse-reverse,
)

append-ne-nil : (root s : Bytes) → root ++ slash ∷ s ≢ []
append-ne-nil [] s = cc
append-ne-nil (c ∷ root) s = cc

-- An absolute path of entries behind a root folder is cleaned to that folder with the path's
-- entries added: no entry of the folder is left.
pub clean_path_below :
    (root : Bytes) (cs : List Bytes)
    → All IsEntry cs
    → clean_path (root ++ slash ∷ path_of true cs) false slash
      ≡ path_of (is_absolute (root ++ slash ∷ [])) (folder root ++ cs)
clean_path_below root cs h = rw (
  clean_path_nonempty (root ++ slash ∷ path_of true cs) (append-ne-nil root _),
  is_absolute-append root (path_of true cs) [],
  entries_below root cs h,
)

-- A folder that is given by its entries is read back.
pub folder-path_of : (ns : List Bytes) → All IsEntry ns → folder (path_of true ns) ≡ ns
unfolding entries
folder-path_of ns h =
    let absolute : is_absolute (path_of true ns ++ slash ∷ []) ≡ true =
      unfold path_of is_absolute in refl in
    rw
      (
        absolute,
        split-append is_slash (path_of true ns) [] slash refl,
        resolve-append true [] (split is_slash (path_of true ns)),
        resolve-path_of true ns (All-NoSep ns h),
        resolve_plain true [] ns (All-IsPlain ns h),
        append-nil,
      )
      (unfold split resolve add_component in reverse-reverse ns)
