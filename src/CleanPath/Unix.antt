-- ===== src/CleanPath/Unix.antt =====
-- Unix paths: what `cleanPath` returns, read as a list of entries.
use mathlib.Core.List.{reverse, reverse-cons, concat-ne-nil, tail}
use fineftp_server.Base.{
  ℕ, ◌≡◌, ◌≢◌, refl, sym, inl, inr, Bool, true, false, ◌&&◌, List, [], ◌∷◌, arith, Bytes, codes,
  bytes_eq, All, All-reverse, ==_iff, if◌then◌else◌, Bool-cases,
}
use fineftp_server.CleanPath.{
  slash, is_slash, is_empty, absolute_root, add_component, parent, join, render, clean_path,
}
use fineftp_server.CleanPath.Split.{split, NoSep, resolve, split-NoSep}
use fineftp_server.CleanPath.Resolve.{
  IsPlain, resolve-append, resolve-All, components, lexical, clean_path-lexical,
}

-- A component that names an entry of the folder it stands in, and no other folder.
abbrev pub IsEntry : Bytes → Type 0
IsEntry c = IsPlain c × NoSep is_slash c

unfoldable pub is_absolute : Bytes → Bool
is_absolute [] = false
is_absolute (c ∷ s) = is_slash c

-- The components that are left of a path, in order.
unfoldable pub entries : Bytes → List Bytes
entries path = reverse (resolve (is_absolute path) [] (split is_slash path))

-- The text of a path with given components.
unfoldable pub path_of : Bool → List Bytes → Bytes
path_of true cs = slash ∷ join slash cs
path_of false [] = codes "."
path_of false (c ∷ cs) = join slash (c ∷ cs)

path_of_relative : (cs : List Bytes) → cs ≢ [] → path_of false cs ≡ join slash cs
unfolding path_of
path_of_relative [] h = absurd (h refl)
path_of_relative (c ∷ cs) h = refl

components_absolute :
    (s : Bytes) → components false (slash ∷ s) ≡ resolve true [] (split is_slash (slash ∷ s))
unfolding components absolute_root resolve split add_component
components_absolute s = refl

components_relative :
    (c : ℕ) (s : Bytes)
    → is_slash c ≡ false
    → components false (c ∷ s) ≡ resolve false [] (split is_slash (c ∷ s))
unfolding components absolute_root
components_relative c s e = rw e

components_unix :
    (path : Bytes) → components false path ≡ resolve (is_absolute path) [] (split is_slash path)
unfolding is_absolute
components_unix [] = unfold components absolute_root in refl
components_unix (c ∷ s) = elim (Bool-cases (is_slash c)) [
  | inl e ↦ rw (e, (==_iff c slash).0 e) (components_absolute s)
  | inr e ↦ rw e (components_relative c s e)
]

reverse-ne-nil {ℓ} : {A : Type ℓ} (x : A) (xs : List A) → reverse (x ∷ xs) ≢ []
reverse-ne-nil x xs = rw (reverse-cons x xs) (concat-ne-nil x (reverse xs))

render_unix :
    (absolute : Bool) (root : Bytes) (stack : List Bytes)
    → root ≡ (if absolute then slash ∷ [] else [])
    → (if is_empty stack && is_empty root then codes "." else render false slash root stack)
      ≡ path_of absolute (reverse stack)
unfolding render path_of
render_unix true root [] e = rw e
render_unix true root (c ∷ cs) e = rw e
render_unix false root [] e = rw e
render_unix false root (c ∷ cs) e =
    rw e (sym (path_of_relative (reverse (c ∷ cs)) (reverse-ne-nil c cs)))

root_unix :
    (path : Bytes) → absolute_root false path ≡ (if is_absolute path then slash ∷ [] else [])
unfolding absolute_root is_absolute
root_unix [] = refl
root_unix (c ∷ s) = refl

-- A path that is not empty is cleaned to the text of its entries.
pub clean_path_unix :
    (c : ℕ) (s : Bytes)
    → clean_path (c ∷ s) false slash ≡ path_of (is_absolute (c ∷ s)) (entries (c ∷ s))
unfolding lexical entries
clean_path_unix c s =
    rw (clean_path-lexical, components_unix)
      (render_unix (is_absolute (c ∷ s)) _ _ (root_unix (c ∷ s)))

-- The entries of an absolute path are plain, whatever the path was.
pub entries-IsEntry : (s : Bytes) → All IsEntry (entries (slash ∷ s))
unfolding entries is_absolute
entries-IsEntry s = All-reverse IsEntry _ (
    resolve-All (NoSep is_slash) [] (split is_slash (slash ∷ s)) tt
      (split-NoSep is_slash (slash ∷ s)))

-- A stack on which each component was pushed, and is pushed again when the path is read again.
abbrev pub Settled : Bool → List Bytes → Type 0
Settled absolute [] = Unit
Settled absolute (c ∷ cs) =
    (add_component absolute cs c ≡ c ∷ cs) × (c ≢ []) × NoSep is_slash c × Settled absolute cs

dot_dot-NoSep : NoSep is_slash (codes "..")
unfolding codes
dot_dot-NoSep = ground arith

dot_dot-ne-nil : codes ".." ≢ []
unfolding codes
dot_dot-ne-nil = cc

add_dot_dot :
    (absolute : Bool) (cs : List Bytes)
    → add_component absolute cs (codes "..") ≡ (if absolute then tail cs else parent cs)
unfolding add_component codes bytes_eq
add_dot_dot absolute cs = refl

dot_dot-Settled :
    (absolute : Bool) (cs : List Bytes)
    → Settled absolute cs
    → Settled absolute (if absolute then tail cs else parent cs)
unfolding parent
dot_dot-Settled true [] h = tt
dot_dot-Settled true (c ∷ cs) h = h.3
dot_dot-Settled false [] h = (add_dot_dot false [], dot_dot-ne-nil, dot_dot-NoSep, tt)
dot_dot-Settled false (c ∷ cs) h =
    ground (arith, add_dot_dot false (c ∷ cs), dot_dot-ne-nil, dot_dot-NoSep)

add_component-Settled :
    (absolute : Bool) (cs : List Bytes) (w : Bytes)
    → Settled absolute cs
    → NoSep is_slash w
    → Settled absolute (add_component absolute cs w)
unfolding add_component
add_component-Settled absolute cs [] h n = h
add_component-Settled absolute cs (b ∷ w) h n = ground (arith, dot_dot-Settled absolute cs h)

pub resolve-Settled :
    (absolute : Bool) (cs ws : List Bytes)
    → Settled absolute cs
    → All (NoSep is_slash) ws
    → Settled absolute (resolve absolute cs ws)
unfolding resolve
resolve-Settled absolute cs [] h n = h
resolve-Settled absolute cs (w ∷ ws) h n =
    resolve-Settled absolute (add_component absolute cs w) ws
      (add_component-Settled absolute cs w h n.0) n.1

pub resolve-Settled' :
    (absolute : Bool) (cs : List Bytes)
    → Settled absolute cs
    → resolve absolute [] (reverse cs) ≡ cs
unfolding resolve
resolve-Settled' absolute [] h = refl
resolve-Settled' absolute (c ∷ cs) h =
    rw (reverse-cons c cs, resolve-append, resolve-Settled' absolute cs h.3) h.0
