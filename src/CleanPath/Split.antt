-- ===== src/CleanPath/Split.antt =====
-- The loop of `cleanPath` against splitting the whole path first.
use fineftp_server.Base.{
  ℕ, zero, suc, ◌<◌, ◌≡◌, refl, ◌∙◌, Bool, true, false, Option, none, some, List, [], ◌∷◌, ◌++◌,
  append-nil, arith, Bytes, All, length, if◌then◌else◌,
}
use fineftp_server.CleanPath.{break_at, add_component, collect, separated, join}

abbrev cons_head : ℕ → List Bytes → List Bytes
cons_head c [] = (c ∷ []) ∷ []
cons_head c (w ∷ ws) = (c ∷ w) ∷ ws

-- The texts between the separators.
unfoldable pub split : (ℕ → Bool) → Bytes → List Bytes
split sep [] = [] ∷ []
split sep (c ∷ s) = if sep c then [] ∷ split sep s else cons_head c (split sep s)

abbrev pub NoSep : (ℕ → Bool) → Bytes → Type 0
NoSep sep = All (λ c. sep c ≡ false)

-- The components one after the other.
unfoldable pub resolve : Bool → List Bytes → List Bytes → List Bytes
resolve absolute components [] = components
resolve absolute components (w ∷ ws) = resolve absolute (add_component absolute components w) ws

module _ (sep : ℕ → Bool) where
  -- `break_at` takes off the first text of the split.
  abbrev rest_split : Option Bytes → List Bytes
  rest_split none = []
  rest_split (some s) = split sep s

  split-break_at : (s : Bytes) → split sep s ≡ (break_at sep s).0 ∷ rest_split (break_at sep s).1
  unfolding split break_at
  split-break_at [] = refl
  split-break_at (c ∷ s) = ground (arith, split-break_at s)

  break_at-length : (s : Bytes) {r : Bytes} → (break_at sep s).1 ≡ some r → length r < length s
  unfolding break_at
  break_at-length [] e = cc
  break_at-length (c ∷ s) {r} e = ground (arith, break_at-length s {r = r})

  pub split_cons : (s : Bytes) → (w : Bytes) × (ws : List Bytes) × (split sep s ≡ w ∷ ws)
  split_cons s = (_, _, split-break_at s)

  pub split-NoSep : (s : Bytes) → All (NoSep sep) (split sep s)
  unfolding split
  split-NoSep [] = (tt, tt)
  split-NoSep (c ∷ s) = ground (arith, split-NoSep s, split_cons s)

  pub split-append :
      (s t : Bytes) (c : ℕ) → sep c ≡ true → split sep (s ++ c ∷ t) ≡ split sep s ++ split sep t
  unfolding split
  split-append [] t c h = rw h
  split-append (a ∷ s) t c h = ground (arith, split-append s t c h, split_cons s)

  pub split-NoSep' : (w : Bytes) → NoSep sep w → split sep w ≡ w ∷ []
  unfolding split
  split-NoSep' [] h = refl
  split-NoSep' (c ∷ w) h = ground (arith, split-NoSep' w h.1)

  -- Splitting what `join` wrote gives the components back.
  split-separated :
      (out : ℕ) (w : Bytes) (cs : List Bytes)
      → sep out ≡ true
      → NoSep sep w
      → All (NoSep sep) cs
      → split sep (w ++ separated out cs) ≡ w ∷ cs
  unfolding separated
  split-separated out w [] h n k = rw append-nil (split-NoSep' w n)
  split-separated out w (c ∷ cs) h n k =
      split-append w (c ++ separated out cs) out h
      ∙ cc (split-NoSep' w n, split-separated out c cs h k.0 k.1)

  pub split-join :
      (out : ℕ) (w : Bytes) (cs : List Bytes)
      → sep out ≡ true
      → All (NoSep sep) (w ∷ cs)
      → split sep (join out (w ∷ cs)) ≡ w ∷ cs
  unfolding join
  split-join out w cs h (n, k) = split-separated out w cs h n k

  -- A round that ends the loop, or hands the rest to the rounds that follow.
  collect_round :
      (fuel : ℕ) (absolute : Bool) (rest : Bytes) (components : List Bytes) (more : Option Bytes)
      → (break_at sep rest).1 ≡ more
      → ((s : Bytes) (cs : List Bytes)
          → more ≡ some s
          → collect fuel absolute sep s cs ≡ resolve absolute cs (split sep s))
      → collect (suc fuel) absolute sep rest components
        ≡ resolve absolute components (split sep rest)
  unfolding collect resolve
  collect_round fuel absolute rest components none e later = rw (split-break_at rest, e, collect)
  collect_round fuel absolute rest components (some []) e later =
      rw (split-break_at rest, e, collect) (unfold split add_component in refl)
  collect_round fuel absolute rest components (some (c ∷ s)) e later =
      rw (split-break_at rest, e, collect) (later (c ∷ s) _ refl)

  -- With fuel above the length of the rest the loop has added every component.
  pub collect-resolve :
      (fuel : ℕ) (absolute : Bool) (rest : Bytes) (components : List Bytes)
      → length rest < fuel
      → collect fuel absolute sep rest components ≡ resolve absolute components (split sep rest)
  collect-resolve zero absolute rest components h = absurd (omega arith)
  collect-resolve (suc fuel) absolute rest components h =
      collect_round fuel absolute rest components _ refl
        λ s cs e. collect-resolve fuel absolute s cs (omega (arith, break_at-length rest {r = s} e))
