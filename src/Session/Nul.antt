-- ===== src/Session/Nul.antt =====
-- What a NUL byte in a parameter does: `cleanPath` reads it as part of a name, and the system call
-- stops in front of it.
use fineftp_server.Base.{
  ◌≡◌, ◌≢◌, refl, sym, ◌∙◌, Bool, true, false, List, [], ◌∷◌, ◌++◌, append_assoc, append-nil, ap,
  arith, if◌then◌else◌, Bytes, codes, All, All-append,
}
use fineftp_server.Users.{FtpUser}
use fineftp_server.CleanPath.{
  slash, is_slash, add_component, clean_path_native, separated, join, clean_path,
}
use fineftp_server.CleanPath.Split.{NoSep, split, resolve}
use fineftp_server.CleanPath.Unix.{IsEntry, is_absolute, entries, path_of}
use fineftp_server.CleanPath.Normal.{folder, clean_path_below}
use fineftp_server.Os.{c_str}
use fineftp_server.Session.{starts_with_slash, to_absolute_ftp_path, to_local_path}
use fineftp_server.CleanPath.Content.{join-bytes, entries-bytes}
use fineftp_server.Session.Paths.{NoNul, dots-NoNul}

-- Two dots, a NUL byte, and more.
abbrev pub hidden_parent : Bytes → Bytes
hidden_parent more = b'.' ∷ b'.' ∷ 0 ∷ more

hidden_parent-IsEntry : (more : Bytes) → NoSep is_slash more → IsEntry (hidden_parent more)
unfolding codes
hidden_parent-IsEntry more h = ((λ e. cc, λ e. cc, λ e. cc), (refl, (refl, (refl, h))))

c_str_stops : (s more : Bytes) → NoNul s → c_str (s ++ 0 ∷ more) ≡ s
unfolding c_str
c_str_stops [] more h = refl
c_str_stops (c ∷ s) more h = ground (arith, c_str_stops s more h.1)

pub folder_of_nothing : folder [] ≡ []
unfolding entries is_absolute split resolve add_component
folder_of_nothing = refl

-- The text in front of a last component.
lead : List Bytes → Bytes
lead [] = []
lead (c ∷ cs) = join slash (c ∷ cs) ++ slash ∷ []

separated-concat :
    (cs : List Bytes) (w : Bytes) → separated slash (cs ++ w ∷ []) ≡ separated slash cs ++ slash ∷ w
unfolding separated
separated-concat [] w = rw append-nil
separated-concat (c ∷ cs) w =
    rw (separated-concat cs w) (ap (λ (t : Bytes). slash ∷ t) (sym (append_assoc c _ _)))

join-concat : (cs : List Bytes) (w : Bytes) → join slash (cs ++ w ∷ []) ≡ lead cs ++ w
unfolding join lead
join-concat [] w = unfold separated in append-nil w
join-concat (c ∷ cs) w = rw (separated-concat cs w, append_assoc, append_assoc)

leading : Bool → List Bytes → Bytes
leading absolute cs = (if absolute then slash ∷ [] else []) ++ lead cs

path_of-concat :
    (absolute : Bool) (cs : List Bytes) (w : Bytes)
    → path_of absolute (cs ++ w ∷ []) ≡ leading absolute cs ++ w
unfolding path_of leading
path_of-concat true cs w = ap (λ (t : Bytes). slash ∷ t) (join-concat cs w)
path_of-concat false [] w = join-concat [] w
path_of-concat false (c ∷ cs) w = join-concat (c ∷ cs) w

slash-ne-zero : slash ≢ 0
slash-ne-zero = omega arith

lead-NoNul : (cs : List Bytes) → All NoNul cs → NoNul (lead cs)
unfolding lead
lead-NoNul [] h = tt
lead-NoNul (c ∷ cs) h =
    All-append (λ b. b ≢ 0) (join slash (c ∷ cs)) (slash ∷ [])
      (join-bytes (λ b. b ≢ 0) (c ∷ cs) slash-ne-zero h) (slash-ne-zero, tt)

leading-NoNul : (absolute : Bool) (cs : List Bytes) → All NoNul cs → NoNul (leading absolute cs)
unfolding leading
leading-NoNul true cs h = (slash-ne-zero, lead-NoNul cs h)
leading-NoNul false cs h = lead-NoNul cs h

hidden_cleaned :
    (more : Bytes)
    → to_absolute_ftp_path (slash ∷ []) (hidden_parent more)
      ≡ clean_path ([] ++ slash ∷ path_of true (hidden_parent more ∷ [])) false slash
unfolding to_absolute_ftp_path starts_with_slash path_of join separated
hidden_cleaned more = rw append-nil

hidden-to_absolute :
    (more : Bytes)
    → NoSep is_slash more
    → to_absolute_ftp_path (slash ∷ []) (hidden_parent more)
      ≡ path_of true (hidden_parent more ∷ [])
unfolding is_absolute
hidden-to_absolute more h =
    hidden_cleaned more
    ∙ clean_path_below [] (hidden_parent more ∷ []) (hidden_parent-IsEntry more h, tt)
    ∙ rw folder_of_nothing

hidden-to_local_path :
    (user : FtpUser) (more : Bytes)
    → NoSep is_slash more
    → to_local_path user (slash ∷ []) (hidden_parent more)
      ≡ path_of
          (is_absolute (user.local_root_path ++ slash ∷ []))
          (folder user.local_root_path ++ hidden_parent more ∷ [])
unfolding to_local_path clean_path_native
hidden-to_local_path user more h = rw (hidden-to_absolute more h) (
    clean_path_below user.local_root_path (hidden_parent more ∷ [])
      (hidden_parent-IsEntry more h, tt))

folder-NoNul : (root : Bytes) → NoNul root → All NoNul (folder root)
folder-NoNul root r =
    entries-bytes (λ c. c ≢ 0) _ dots-NoNul
      (All-append (λ c. c ≢ 0) root (slash ∷ []) r (slash-ne-zero, tt))

-- A C string that ends in two dots, where the model's path hides them in front of a NUL byte.
dots_stop : (s more : Bytes) → NoNul s → c_str (s ++ hidden_parent more) ≡ s ++ codes ".."
unfolding codes
dots_stop s more h = rw (← append_assoc s (b'.' ∷ b'.' ∷ []) (0 ∷ more)) (
    c_str_stops (s ++ b'.' ∷ b'.' ∷ []) more
      (All-append (λ c. c ≢ 0) s _ h (unfold codes in dots-NoNul)))

-- In the root directory, the parameter that is `..`, NUL and anything without a slash makes the
-- server ask the operating system for the parent of the user's root folder, whose path holds no
-- NUL byte itself.
pub c_str-hidden_parent :
    (user : FtpUser) (more : Bytes)
    → NoNul user.local_root_path
    → NoSep is_slash more
    → c_str (to_local_path user (slash ∷ []) (hidden_parent more))
      ≡ path_of
          (is_absolute (user.local_root_path ++ slash ∷ []))
          (folder user.local_root_path ++ codes ".." ∷ [])
c_str-hidden_parent user more r h =
    rw (hidden-to_local_path user more h, path_of-concat, path_of-concat)
      (dots_stop _ more (leading-NoNul _ _ (folder-NoNul user.local_root_path r)))
