-- ===== src/CleanPath/Reduction.antt =====
-- `cleanPath` against rules that say which components of a path cancel out.
use mathlib.Core.List.{reverse, reverse-cons}
use fineftp_server.Base.{
  ℕ, ◌≡◌, refl, ap, ◌∙◌, Bool, true, false, not, ◌&&◌, List, [], ◌∷◌, ◌++◌, append-nil, Bytes,
  codes, length, drop, if◌then◌else◌,
}
use fineftp_server.CleanPath.{
  is_empty, absolute_root, add_component, separator, separated, join, render, clean_path,
}
use fineftp_server.CleanPath.Root.{IsRoot, absolute_root-IsRoot}
use fineftp_server.CleanPath.Split.{split, resolve}
use fineftp_server.CleanPath.Resolve.{components, lexical, clean_path-lexical}
use fineftp_server.CleanPath.Rules.{Reduces, IsReduced, bottom, resolve-Reduces}

-- The components with the separator between them.
abbrev pub between : ℕ → List Bytes → Bytes
between out [] = []
between out (c ∷ []) = c
between out (c ∷ d ∷ cs) = c ++ out ∷ between out (d ∷ cs)

join-between : (out : ℕ) (cs : List Bytes) → join out cs ≡ between out cs
unfolding join separated
join-between out [] = refl
join-between out (c ∷ []) = append-nil c
join-between out (c ∷ d ∷ cs) = ap (λ s. c ++ out ∷ s) (join-between out (d ∷ cs))

-- A path with this root and these components, in order.
abbrev pub shown : Bool → ℕ → Bytes → List Bytes → Bytes
shown windows out root cs =
    if is_empty cs && is_empty root
    then codes "."
    else root ++ ((if windows && not (is_empty root) then out ∷ [] else []) ++ between out cs)

-- The components behind the root.
abbrev pub components_behind : Bytes → Bool → Bytes → List Bytes
components_behind root windows path = split (separator windows) (drop (length root) path)

is_empty-append : (cs ds : List Bytes) (d : Bytes) → is_empty (cs ++ d ∷ ds) ≡ false
is_empty-append [] ds d = refl
is_empty-append (c ∷ cs) ds d = refl

is_empty-reverse : (cs : List Bytes) → is_empty (reverse cs) ≡ is_empty cs
is_empty-reverse [] = refl
is_empty-reverse (c ∷ cs) = rw (reverse-cons c cs) (is_empty-append (reverse cs) [] c)

render-shown :
    (windows : Bool) (out : ℕ) (root : Bytes) (st : List Bytes)
    → (if is_empty st && is_empty root then codes "." else render windows out root st)
      ≡ shown windows out root (reverse st)
unfolding render
render-shown windows out root st = rw (is_empty-reverse st, join-between out (reverse st)) refl

lexical-shown :
    (path : Bytes) (windows : Bool) (out : ℕ)
    → lexical path windows out
      ≡ shown windows out (absolute_root windows path) (reverse (components windows path))
unfolding lexical
lexical-shown [] true out = unfold components absolute_root resolve split add_component in refl
lexical-shown [] false out = unfold components absolute_root resolve split add_component in refl
lexical-shown (c ∷ s) windows out =
    render-shown windows out (absolute_root windows (c ∷ s)) (components windows (c ∷ s))

-- On every path, for both kinds of path and every output separator: the path has a root, which is a
-- slash for Unix, a drive with its colon or two slashes of either kind and a host for Windows, and
-- empty where the path does not start like that; behind the root, the text between the separators
-- reduces to components `cs`, by leaving out empty ones and `.`, a folder together with a `..` right
-- behind it, and, where the root is not empty, a `..` at the front, until nothing of this is left:
-- then all components are plain, but for `..` at the front where the root is empty; and `cleanPath`
-- returns the root and `cs` with the output separator between them, and for Windows behind the root,
-- or `.` where there is neither.
pub clean_path-Reduces :
    (path : Bytes) (windows : Bool) (out : ℕ)
    → (root : Bytes) × (cs : List Bytes) × IsRoot windows path root
      × Reduces (not (is_empty root)) (components_behind root windows path) cs
      × IsReduced (not (is_empty root)) cs
      × (clean_path path windows out ≡ shown windows out root cs)
unfolding components
clean_path-Reduces path windows out =
    let root = absolute_root windows path in
    let (r, n) =
      resolve-Reduces (not (is_empty root)) (components_behind root windows path) [] bottom in
    (
      root,
      reverse (components windows path),
      absolute_root-IsRoot windows path,
      r,
      n,
      clean_path-lexical path windows out ∙ lexical-shown path windows out,
    )
