-- ===== src/CleanPath/Root.antt =====
-- The root that `cleanPath` takes off a path, told by the shape of the path.
use mathlib.Core.Path.{subst}
use fineftp_server.Base.{
  ℕ, ◌≡◌, ◌≢◌, refl, sym, ap, ◌∙◌, inl, inr, Bool, true, false, not, ◌&&◌, [], ◌∷◌, ◌++◌, arith,
  Bytes, ==_iff, ◌==◌, Bool-cases,
}
use fineftp_server.CleanPath.{
  slash, is_any_slash, is_letter, break_at, has_local_drive, has_network_drive, network_root,
  windows_root, absolute_root,
}
use fineftp_server.CleanPath.Split.{NoSep}
use fineftp_server.CleanPath.Resolve.{absolute_root-drive}

-- Nothing, or a text that starts with a slash of either kind.
pub data IsBehindHost : Bytes → Type 0 where
  nothing : IsBehindHost []
  path : (c : ℕ) (s : Bytes) → is_any_slash c ≡ true → IsBehindHost (c ∷ s)

-- For a Unix path and for a Windows path: the path, and its root.
pub data IsRoot : Bool → Bytes → Bytes → Type 0 where
  at_slash : (s : Bytes) → IsRoot false (slash ∷ s) (slash ∷ [])
  no_slash : {p : Bytes} → ((s : Bytes) → p ≢ slash ∷ s) → IsRoot false p []
  drive :
      (letter : ℕ) (s : Bytes)
      → is_letter letter ≡ true
      → IsRoot true (letter ∷ b':' ∷ s) (letter ∷ b':' ∷ [])
  host :
      (a b : ℕ) (name rest : Bytes)
      → is_any_slash a ≡ true
      → is_any_slash b ≡ true
      → name ≢ []
      → NoSep is_any_slash name
      → IsBehindHost rest
      → IsRoot true (a ∷ b ∷ name ++ rest) (a ∷ b ∷ name)
  no_drive :
      {p : Bytes}
      → ((letter : ℕ) (s : Bytes) → is_letter letter ≡ true → p ≢ letter ∷ b':' ∷ s)
      → ((a b c : ℕ) (s : Bytes)
          → is_any_slash a ≡ true
          → is_any_slash b ≡ true
          → is_any_slash c ≡ false
          → p ≢ a ∷ b ∷ c ∷ s)
      → IsRoot true p []

unix-IsRoot : (p : Bytes) → IsRoot false p (absolute_root false p)
unfolding absolute_root
unix-IsRoot [] = no_slash (λ s e. cc)
unix-IsRoot (c ∷ s) = elim (Bool-cases (c == slash)) [
  | inl e ↦ rw (e, (==_iff c slash).0 e) (at_slash s)
  | inr e ↦ rw e (no_slash (λ t f. ground (arith, f, e)))
]

-- What `break_at` takes off, and what it leaves with the separator in front.
break_at-parts :
    (s : Bytes)
    → (rest : Bytes) × (s ≡ (break_at is_any_slash s).0 ++ rest)
      × NoSep is_any_slash (break_at is_any_slash s).0
      × IsBehindHost rest
unfolding break_at
break_at-parts [] = ([], refl, tt, nothing)
break_at-parts (c ∷ s) = elim (Bool-cases (is_any_slash c)) [
  | inl e ↦ rw e (c ∷ s, refl, tt, path c s e)
  | inr e ↦
      let (rest, whole, sep, behind) = break_at-parts s in
      rw e (rest, ap (λ t. c ∷ t) whole, (e, sep), behind)
]

break_at-ne_nil :
    (c : ℕ) (s : Bytes) → is_any_slash c ≡ false → (break_at is_any_slash (c ∷ s)).0 ≢ []
unfolding break_at
break_at-ne_nil c s e f = ground (arith, e, f)

has_local_drive_lem :
    (a b : ℕ) (s : Bytes) → has_local_drive (a ∷ b ∷ s) ≡ (is_letter a && b == b':')
unfolding has_local_drive
has_local_drive_lem a b s = refl

absolute_root-none :
    (p : Bytes)
    → has_local_drive p ≡ false
    → has_network_drive p ≡ false
    → absolute_root true p ≡ []
unfolding absolute_root windows_root
absolute_root-none p e f = rw (e, f) refl

absolute_root-host :
    (a b : ℕ) (s : Bytes)
    → has_local_drive (a ∷ b ∷ s) ≡ false
    → has_network_drive (a ∷ b ∷ s) ≡ true
    → absolute_root true (a ∷ b ∷ s) ≡ a ∷ b ∷ (break_at is_any_slash s).0
unfolding absolute_root windows_root network_root
absolute_root-host a b s e f = rw (e, f) refl

host-IsRoot :
    (a b c : ℕ) (s : Bytes)
    → (is_any_slash a && is_any_slash b && not (is_any_slash c)) ≡ true
    → IsRoot true (a ∷ b ∷ c ∷ s) (a ∷ b ∷ (break_at is_any_slash (c ∷ s)).0)
host-IsRoot a b c s e =
    let name = (break_at is_any_slash (c ∷ s)).0 in
    let (rest, whole, sep, behind) = break_at-parts (c ∷ s) in
    subst (λ t. IsRoot true (a ∷ b ∷ t) (a ∷ b ∷ name)) (sym whole)
      (host a b name rest (ground (arith, e)) (ground (arith, e))
        (break_at-ne_nil c s (ground (arith, e))) sep behind)

windows_rest :
    (a b : ℕ) (s : Bytes)
    → (is_letter a && b == b':') ≡ false
    → IsRoot true (a ∷ b ∷ s) (absolute_root true (a ∷ b ∷ s))
windows_rest a b [] e =
    rw
      (absolute_root-none (a ∷ b ∷ []) (has_local_drive_lem a b [] ∙ e)
        (unfold has_network_drive in refl))
      (no_drive (λ l t f g. ground (arith, e, f, g)) (λ a' b' c t f g h k. cc))
windows_rest a b (c ∷ s) e =
    let no_local = has_local_drive_lem a b (c ∷ s) ∙ e in
    elim (Bool-cases (is_any_slash a && is_any_slash b && not (is_any_slash c))) [
      | inl n ↦
          rw (absolute_root-host a b (c ∷ s) no_local (unfold has_network_drive in n))
            (host-IsRoot a b c s n)
      | inr n ↦ rw (absolute_root-none (a ∷ b ∷ c ∷ s) no_local (unfold has_network_drive in n)) (
          no_drive (λ l t f g. ground (arith, e, f, g))
            (λ a' b' c' t f g h k. ground (arith, n, f, g, h, k)))
    ]

windows-IsRoot : (p : Bytes) → IsRoot true p (absolute_root true p)
windows-IsRoot [] =
    rw (absolute_root-none [] (unfold has_local_drive in refl) (unfold has_network_drive in refl))
      (no_drive (λ l s e f. cc) (λ a b c s e f g h. cc))
windows-IsRoot (a ∷ []) =
    rw
      (absolute_root-none (a ∷ []) (unfold has_local_drive in refl)
        (unfold has_network_drive in refl))
      (no_drive (λ l s e f. cc) (λ a' b c s e f g h. cc))
windows-IsRoot (a ∷ b ∷ s) = elim (Bool-cases (is_letter a && b == b':')) [
  | inl e ↦
      let letter : is_letter a ≡ true = ground (arith, e) in
      let colon : b ≡ b':' = ground (arith, e) in
      rw (colon, absolute_root-drive a s letter) (drive a s letter)
  | inr e ↦ windows_rest a b s e
]

pub absolute_root-IsRoot : (windows : Bool) (p : Bytes) → IsRoot windows p (absolute_root windows p)
absolute_root-IsRoot true p = windows-IsRoot p
absolute_root-IsRoot false p = unix-IsRoot p
