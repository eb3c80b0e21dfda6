-- ===== src/CleanPath/Resolve.antt =====
-- The stack of components, and `cleanPath` against its description by splitting.
use mathlib.Core.List.{reverse, reverse-cons}
use fineftp_server.Base.{
  ℕ, zero, suc, ◌+◌, ◌≤◌, ◌≡◌, ◌≢◌, refl, sym, inl, inr, Bool, true, false, not, ◌&&◌, ◌||◌, List,
  [], ◌∷◌, ◌++◌, append_assoc, arith, Bytes, codes, bytes_eq_iff, All, length, drop, leb,
  if◌then◌else◌, Bool-cases,
}
use fineftp_server.CleanPath.{
  break_at, is_empty, is_any_slash, absolute_root, windows_root, has_local_drive, local_root,
  is_letter, add_component, collect, render, separator, clean_path,
}
use fineftp_server.CleanPath.Split.{split, resolve, collect-resolve}

-- A component that names an entry of the folder it stands in.
abbrev pub IsPlain : Bytes → Type 0
IsPlain c = (c ≢ []) × (c ≢ codes ".") × (c ≢ codes "..")

pub resolve-append :
    (absolute : Bool) (cs vs ws : List Bytes)
    → resolve absolute cs (vs ++ ws) ≡ resolve absolute (resolve absolute cs vs) ws
unfolding resolve
resolve-append absolute cs [] ws = refl
resolve-append absolute cs (v ∷ vs) ws = resolve-append absolute (add_component absolute cs v) vs ws

pub add_component_plain :
    (absolute : Bool) (cs : List Bytes) (w : Bytes)
    → IsPlain w
    → add_component absolute cs w ≡ w ∷ cs
unfolding add_component
add_component_plain absolute cs [] h = absurd (h.0 refl)
add_component_plain absolute cs (c ∷ w) h =
    ground (arith, bytes_eq_iff (c ∷ w) (codes "."), bytes_eq_iff (c ∷ w) (codes ".."))

-- Plain components are only pushed.
pub resolve_plain :
    (absolute : Bool) (cs ws : List Bytes)
    → All IsPlain ws
    → resolve absolute cs ws ≡ reverse ws ++ cs
unfolding resolve
resolve_plain absolute cs [] h = refl
resolve_plain absolute cs (w ∷ ws) h =
    rw
      (
        add_component_plain absolute cs w h.0,
        resolve_plain absolute (w ∷ cs) ws h.1,
        reverse-cons w ws,
      )
      (sym (append_assoc (reverse ws) (w ∷ []) cs))

module _ (P : Bytes → Type 0) where
  -- Under an absolute root nothing but plain components is ever on the stack.
  add_component-All :
      (cs : List Bytes) (w : Bytes)
      → All (λ c. IsPlain c × P c) cs
      → P w
      → All (λ c. IsPlain c × P c) (add_component true cs w)
  unfolding add_component
  add_component-All cs [] h p = h
  add_component-All [] (b ∷ w) h p =
      ground (arith, bytes_eq_iff (b ∷ w) (codes "."), bytes_eq_iff (b ∷ w) (codes ".."))
  add_component-All (c ∷ cs) (b ∷ w) h p =
      ground (arith, bytes_eq_iff (b ∷ w) (codes "."), bytes_eq_iff (b ∷ w) (codes ".."))

  pub resolve-All :
      (cs ws : List Bytes)
      → All (λ c. IsPlain c × P c) cs
      → All P ws
      → All (λ c. IsPlain c × P c) (resolve true cs ws)
  unfolding resolve
  resolve-All cs [] h p = h
  resolve-All cs (w ∷ ws) h p =
      resolve-All (add_component true cs w) ws (add_component-All cs w h p.0) p.1

length-break_at : (sep : ℕ → Bool) (s : Bytes) → length (break_at sep s).0 ≤ length s
unfolding break_at
length-break_at sep [] = omega arith
length-break_at sep (c ∷ s) = ground (arith, length-break_at sep s)

length-windows_root : (path : Bytes) → length (windows_root path) ≤ length path
unfolding windows_root
length-windows_root [] = ground arith
length-windows_root (a ∷ []) = ground arith
length-windows_root (a ∷ b ∷ s) = ground (arith, length-break_at is_any_slash s)

length-absolute_root :
    (windows : Bool) (path : Bytes) → length (absolute_root windows path) ≤ length path
unfolding absolute_root
length-absolute_root true path = length-windows_root path
length-absolute_root false [] = omega arith
length-absolute_root false (c ∷ s) = ground arith

-- A drive and a colon are the root of what follows.
pub absolute_root-drive :
    (letter : ℕ) (s : Bytes)
    → is_letter letter ≡ true
    → absolute_root true (letter ∷ b':' ∷ s) ≡ letter ∷ b':' ∷ []
unfolding absolute_root windows_root has_local_drive local_root
absolute_root-drive letter s h = rw h refl

pub drop_all {ℓ} : {A : Type ℓ} (n : ℕ) (xs : List A) → length xs ≤ n → drop n xs ≡ []
drop_all zero [] h = refl
drop_all (suc n) [] h = refl
drop_all zero (x ∷ xs) h = absurd (omega arith)
drop_all (suc n) (x ∷ xs) h = drop_all n xs (omega arith)

-- The stack after the whole path.
unfoldable pub components : Bool → Bytes → List Bytes
components windows path =
    let root = absolute_root windows path in
    resolve (not (is_empty root)) [] (split (separator windows) (drop (length root) path))

-- `cleanPath`, described by splitting: no loop, no fuel, no positions.
unfoldable pub lexical : Bytes → Bool → ℕ → Bytes
lexical path windows out =
    let root = absolute_root windows path in
    let cs = components windows path in
    if is_empty path || (is_empty cs && is_empty root)
    then codes "."
    else render windows out root cs

-- The fuel that `cleanPath` gives its loop is enough.
collect_all :
    (absolute : Bool) (sep : ℕ → Bool) (rest : Bytes)
    → collect (length rest + 1) absolute sep rest [] ≡ resolve absolute [] (split sep rest)
collect_all absolute sep rest = collect-resolve sep (length rest + 1) absolute rest [] (omega arith)

-- A path that is nothing but its root has no components.
components_of_root :
    (windows : Bool) (path : Bytes)
    → length path ≤ length (absolute_root windows path)
    → components windows path ≡ []
unfolding components resolve split add_component
components_of_root windows path h = rw (drop_all (length (absolute_root windows path)) path h)

-- On every path, for both kinds of path and every output separator, `cleanPath` returns what
-- `lexical` describes without its loop: the root, and the components that are left when the rest is
-- split at the separators and each `..` takes away the one in front of it.
pub clean_path-lexical :
    (path : Bytes) (windows : Bool) (out : ℕ)
    → clean_path path windows out ≡ lexical path windows out
unfolding clean_path lexical components
clean_path-lexical [] windows out = refl
clean_path-lexical (c ∷ s) windows out =
    let root = absolute_root windows (c ∷ s) in
    elim (Bool-cases (leb (length root + 1) (suc (length s)))) [
      | inl e ↦ rw (e, collect_all)
      | inr e ↦ ground (arith, e, components_of_root windows (c ∷ s))
    ]
