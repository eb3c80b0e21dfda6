-- ===== src/CleanPath/Rules.antt =====
-- Rules that say which components of a path cancel out, and the stack of `cleanPath` against them.
use mathlib.Core.List.{reverse, reverse-cons, tail}
use fineftp_server.Base.{
  ◌≡◌, refl, sym, ap, ◌∙◌, inl, inr, ◌⊎◌, Bool, true, false, List, [], ◌∷◌, ◌++◌, append_assoc,
  append-nil, arith, Bytes, codes, bytes_eq, bytes_eq_iff, All, All-append, All-reverse,
  if◌then◌else◌,
}
use fineftp_server.CleanPath.{add_component, parent}
use fineftp_server.CleanPath.Split.{resolve}
use fineftp_server.CleanPath.Resolve.{IsPlain, add_component_plain}

-- The components of a path, and what is left when they cancel out in some order.
pub data Reduces (absolute : Bool) : List Bytes → List Bytes → Type 0 where
  same : {ws : List Bytes} → Reduces absolute ws ws
  -- Nothing between two separators.
  empty :
      (front back : List Bytes) {cs : List Bytes}
      → Reduces absolute (front ++ back) cs
      → Reduces absolute (front ++ [] ∷ back) cs
  here :
      (front back : List Bytes) {cs : List Bytes}
      → Reduces absolute (front ++ back) cs
      → Reduces absolute (front ++ codes "." ∷ back) cs
  -- A folder, and the way out of it.
  up :
      (front : List Bytes) (c : Bytes) (back : List Bytes) {cs : List Bytes}
      → IsPlain c
      → Reduces absolute (front ++ back) cs
      → Reduces absolute (front ++ c ∷ codes ".." ∷ back) cs
  -- There is no way out of the root.
  top :
      (back : List Bytes) {cs : List Bytes}
      → absolute ≡ true
      → Reduces absolute back cs
      → Reduces absolute (codes ".." ∷ back) cs

abbrev pub AreUps : List Bytes → Type 0
AreUps = All (λ c. c ≡ codes "..")

-- Nothing cancels out: a relative path may lead out of folders first, and then all are plain.
pub record IsReduced (absolute : Bool) (cs : List Bytes) : Type 0 where
  pub ups : List Bytes
  pub plains : List Bytes
  pub parts : cs ≡ ups ++ plains
  pub out : AreUps ups
  pub plain : All IsPlain plains
  pub rooted : absolute ≡ true → ups ≡ []

-- The stack of the loop, whose back is at the head.
pub data IsStack (absolute : Bool) : List Bytes → Type 0 where
  bottom : IsStack absolute []
  lifts : {cs : List Bytes} → absolute ≡ false → AreUps cs → IsStack absolute (codes ".." ∷ cs)
  pushes :
      {c : Bytes} {cs : List Bytes} → IsPlain c → IsStack absolute cs → IsStack absolute (c ∷ cs)

IsStack-IsReduced :
    (absolute : Bool) {cs : List Bytes} → IsStack absolute cs → IsReduced absolute (reverse cs)
IsStack-IsReduced absolute bottom = record {
  ups = [];
  plains = [];
  parts = refl;
  out = tt;
  plain = tt;
  rooted = λ e. refl;
}
IsStack-IsReduced absolute (lifts {cs} e h) = record {
  ups = reverse (codes ".." ∷ cs);
  plains = [];
  parts = sym (append-nil (reverse (codes ".." ∷ cs)));
  out = All-reverse _ (codes ".." ∷ cs) (refl, h);
  plain = tt;
  rooted = λ f. cc (e, f);
}
IsStack-IsReduced absolute (pushes {c} {cs} p h) =
    let r = IsStack-IsReduced absolute h in
    record {
      ups = r.ups;
      plains = r.plains ++ c ∷ [];
      parts =
          reverse-cons c cs
          ∙ ap (λ ds. ds ++ c ∷ []) r.parts
          ∙ append_assoc r.ups r.plains (c ∷ []);
      out = r.out;
      plain = All-append IsPlain r.plains (c ∷ []) r.plain (p, tt);
      rooted = r.rooted;
    }

-- What is on top of the stack stands in front of what comes next.
reverse-front : (c : Bytes) (cs ws : List Bytes) → reverse (c ∷ cs) ++ ws ≡ reverse cs ++ c ∷ ws
reverse-front c cs ws = rw (reverse-cons c cs) (append_assoc (reverse cs) (c ∷ []) ws)

word-cases : (w : Bytes) → (w ≡ []) ⊎ (w ≡ codes ".") ⊎ (w ≡ codes "..") ⊎ IsPlain w
word-cases w =
    ground (arith, bytes_eq_iff w [], bytes_eq_iff w (codes "."), bytes_eq_iff w (codes ".."))

add_component-empty : (absolute : Bool) (st : List Bytes) → add_component absolute st [] ≡ st
unfolding add_component
add_component-empty absolute st = refl

add_component-here :
    (absolute : Bool) (st : List Bytes) → add_component absolute st (codes ".") ≡ st
unfolding add_component codes bytes_eq
add_component-here absolute st = refl

add_component-up :
    (absolute : Bool) (st : List Bytes)
    → add_component absolute st (codes "..") ≡ (if absolute then tail st else parent st)
unfolding add_component codes bytes_eq
add_component-up absolute st = refl

parent-plain : (c : Bytes) (cs : List Bytes) → IsPlain c → parent (c ∷ cs) ≡ cs
unfolding parent
parent-plain c cs p = ground (arith, p.2, bytes_eq_iff c (codes ".."))

parent-ups : (cs : List Bytes) → parent (codes ".." ∷ cs) ≡ codes ".." ∷ codes ".." ∷ cs
unfolding parent codes bytes_eq
parent-ups cs = refl

parent-bottom : parent [] ≡ codes ".." ∷ []
unfolding parent
parent-bottom = refl

up-IsStack :
    (absolute : Bool) {st : List Bytes}
    → IsStack absolute st
    → IsStack absolute (if absolute then tail st else parent st)
up-IsStack true bottom = bottom
up-IsStack true (lifts e h) = absurd (cc e)
up-IsStack true (pushes p h) = h
up-IsStack false bottom = rw parent-bottom (lifts refl tt)
up-IsStack false (lifts {cs} e h) = rw (parent-ups cs) (lifts refl (refl, h))
up-IsStack false (pushes {c} {cs} p h) = rw (parent-plain c cs p) h

up-Reduces :
    (absolute : Bool) {st : List Bytes} (ws : List Bytes) {cs : List Bytes}
    → IsStack absolute st
    → Reduces absolute (reverse (if absolute then tail st else parent st) ++ ws) cs
    → Reduces absolute (reverse st ++ codes ".." ∷ ws) cs
up-Reduces true ws bottom r = top ws refl r
up-Reduces true ws (lifts e h) r = absurd (cc e)
up-Reduces true ws (pushes {c} {cs} p h) r =
    rw (reverse-front c cs (codes ".." ∷ ws)) (up (reverse cs) c ws p r)
up-Reduces false ws bottom r = rw parent-bottom at r
up-Reduces false ws (lifts {cs} e h) r =
    let r' = rw (parent-ups cs) at r in rw (reverse-front (codes "..") (codes ".." ∷ cs) ws) at r'
up-Reduces false ws (pushes {c} {cs} p h) r =
    rw (reverse-front c cs (codes ".." ∷ ws))
      (up (reverse cs) c ws p (rw (parent-plain c cs p) at r))

-- One component, for what stands behind it.
module _ (absolute : Bool) {st : List Bytes} (h : IsStack absolute st) where
  word-IsStack : (w : Bytes) → IsStack absolute (add_component absolute st w)
  word-IsStack w = elim (word-cases w) [
    | inl e ↦ rw (e, add_component-empty absolute st) h
    | inr (inl e) ↦ rw (e, add_component-here absolute st) h
    | inr (inr (inl e)) ↦ rw (e, add_component-up absolute st) (up-IsStack absolute h)
    | inr (inr (inr p)) ↦ rw (add_component_plain absolute st w p) (pushes p h)
  ]

  word-Reduces :
      (w : Bytes) (ws : List Bytes) {cs : List Bytes}
      → Reduces absolute (reverse (add_component absolute st w) ++ ws) cs
      → Reduces absolute (reverse st ++ w ∷ ws) cs
  word-Reduces w ws r = elim (word-cases w) [
    | inl e ↦ rw e (empty (reverse st) ws (rw (e, add_component-empty absolute st) at r))
    | inr (inl e) ↦ rw e (here (reverse st) ws (rw (e, add_component-here absolute st) at r))
    | inr (inr (inl e)) ↦
        rw e (up-Reduces absolute ws h (rw (e, add_component-up absolute st) at r))
    | inr (inr (inr p)) ↦
        rw (sym (reverse-front w st ws)) (rw (add_component_plain absolute st w p) at r)
  ]

pub resolve-Reduces :
    (absolute : Bool) (ws st : List Bytes)
    → IsStack absolute st
    → Reduces absolute (reverse st ++ ws) (reverse (resolve absolute st ws))
      × IsReduced absolute (reverse (resolve absolute st ws))
unfolding resolve
resolve-Reduces absolute [] st h = (rw append-nil same, IsStack-IsReduced absolute h)
resolve-Reduces absolute (w ∷ ws) st h =
    let (r, n) =
      resolve-Reduces absolute ws (add_component absolute st w) (word-IsStack absolute h w) in
    (word-Reduces absolute h w ws r, n)
