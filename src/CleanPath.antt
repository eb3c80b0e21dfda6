-- ===== src/CleanPath.antt =====
-- fineftp-server/src/filesystem.cpp, `cleanPath` and `cleanPathNative` (the Unix build). The list
-- `components` has its back at the head; `substr(start)` is the rest of the path.
pub mod Split
pub mod Resolve
pub mod Root
pub mod Rules
pub mod Reduction
pub mod Unix
pub mod Normal
pub mod Content
use mathlib.Core.List.{reverse, tail}
use fineftp_server.Base.{
  ℕ, zero, suc, ◌+◌, Bool, true, false, not, ◌&&◌, ◌||◌, Option, none, some, List, [], ◌∷◌, ◌++◌,
  Bytes, codes, bytes_eq, length, drop, leb, ◌==◌, if◌then◌else◌,
}

abbrev pub slash : ℕ
slash = b'/'

abbrev pub backslash : ℕ
backslash = b'\\'

abbrev pub is_slash : ℕ → Bool
is_slash c = c == slash

abbrev pub is_any_slash : ℕ → Bool
is_any_slash c = c == slash || c == backslash

abbrev pub is_empty {ℓ} : {A : Type ℓ} → List A → Bool
is_empty [] = true
is_empty (x ∷ xs) = false

-- `[a-zA-Z]`.
unfoldable pub is_letter : ℕ → Bool
is_letter c = (leb b'a' c && leb c b'z') || (leb b'A' c && leb c b'Z')

-- `find_first_of` and the two `substr` around it: the text in front of the first separator, and
-- the text behind it, if there is one.
unfoldable pub break_at : (ℕ → Bool) → Bytes → Bytes × Option Bytes
break_at sep [] = ([], none)
break_at sep (c ∷ s) =
    let (word, rest) = break_at sep s in if sep c then ([], some s) else (c ∷ word, rest)

-- `^[a-zA-Z]\:`
unfoldable pub has_local_drive : Bytes → Bool
unfolding is_letter
has_local_drive [] = false
has_local_drive (a ∷ []) = false
has_local_drive (a ∷ b ∷ s) = is_letter a && b == b':'

-- `^[/\\]{2}[^/\\]+`
unfoldable pub has_network_drive : Bytes → Bool
has_network_drive [] = false
has_network_drive (a ∷ []) = false
has_network_drive (a ∷ b ∷ []) = false
has_network_drive (a ∷ b ∷ c ∷ s) = is_any_slash a && is_any_slash b && not (is_any_slash c)

unfoldable pub local_root : Bytes → Bytes
local_root [] = []
local_root (a ∷ []) = a ∷ []
local_root (a ∷ b ∷ s) = a ∷ b ∷ []

unfoldable pub network_root : Bytes → Bytes
network_root [] = []
network_root (a ∷ []) = a ∷ []
network_root (a ∷ b ∷ s) = a ∷ b ∷ (break_at is_any_slash s).0

windows_root : Bytes → Bytes
unfolding has_local_drive has_network_drive local_root network_root break_at
windows_root path =
    if has_local_drive path
    then local_root path
    else if has_network_drive path
    then network_root path
    else []

unix_root : Bytes → Bytes
unix_root [] = []
unix_root (c ∷ s) = if c == slash then slash ∷ [] else []

unfoldable pub absolute_root : Bool → Bytes → Bytes
unfolding windows_root unix_root
absolute_root windows path = if windows then windows_root path else unix_root path

-- `..` below a relative path goes up one folder, unless there is none left that can be left.
unfoldable pub parent : List Bytes → List Bytes
parent [] = codes ".." ∷ []
parent (back ∷ front) = if bytes_eq back (codes "..") then codes ".." ∷ back ∷ front else front

-- One round of the loop over the components.
unfoldable pub add_component : Bool → List Bytes → Bytes → List Bytes
unfolding parent
add_component absolute components this =
    if is_empty this || bytes_eq this (codes ".")
    then components
    else if bytes_eq this (codes "..")
    then (if absolute then tail components else parent components)
    else this ∷ components

-- The `do`-loop: its rounds consume the rest of the path, so its length is fuel enough.
unfoldable pub collect : ℕ → Bool → (ℕ → Bool) → Bytes → List Bytes → List Bytes
unfolding break_at add_component
collect zero absolute sep rest components = components
collect (suc fuel) absolute sep rest components =
    let (this, more) = break_at sep rest in
    let components' = add_component absolute components this in
    elim more [
      | none ↦ components'
      | some [] ↦ components'
      | some (c ∷ s) ↦ collect fuel absolute sep (c ∷ s) components'
    ]

unfoldable pub separated : ℕ → List Bytes → Bytes
separated out [] = []
separated out (c ∷ cs) = out ∷ (c ++ separated out cs)

-- The last loop: a separator in front of all but the first component.
unfoldable pub join : ℕ → List Bytes → Bytes
unfolding separated
join out [] = []
join out (c ∷ cs) = c ++ separated out cs

unfoldable pub render : Bool → ℕ → Bytes → List Bytes → Bytes
unfolding join
render windows out root components =
    root
    ++ ((if windows && not (is_empty root) then out ∷ [] else []) ++ join out (reverse components))

abbrev pub separator : Bool → ℕ → Bool
separator windows = if windows then is_any_slash else is_slash

unfoldable pub clean_path : Bytes → Bool → ℕ → Bytes
unfolding absolute_root collect render
clean_path path windows out =
    let root = absolute_root windows path in
    let rest = drop (length root) path in
    let components = collect (length rest + 1) (not (is_empty root)) (separator windows) rest [] in
    if is_empty path
    then codes "."
    else if leb (length root + 1) (length path)
    then (if is_empty components && is_empty root
        then codes "."
        else render windows out root components)
    else render windows out root []

unfoldable pub clean_path_native : Bytes → Bytes
unfolding clean_path
clean_path_native path = clean_path path false slash
