-- ===== src/FileStatus/Order.antt =====
-- filesystem.cpp: the order in which `dirContent` keeps its entries, and `std::map::emplace`.
use fineftp_server.Base.{
  ◌≡◌, refl, true, false, Option, none, some, List, [], ◌∷◌, arith, Bytes, All, All-map, bytes_eq,
  bytes_eq_iff, Bool-cases, inl, inr, if◌then◌else◌,
}
use fineftp_server.Users.{find}
use fineftp_server.FileStatus.{bytes_lt, emplace}

pub bytes_lt_irrefl : (s : Bytes) → bytes_lt s s ≡ false
unfolding bytes_lt
bytes_lt_irrefl [] = refl
bytes_lt_irrefl (a ∷ s) = ground (arith, bytes_lt_irrefl s)

pub bytes_lt_trans :
    (s t u : Bytes) → bytes_lt s t ≡ true → bytes_lt t u ≡ true → bytes_lt s u ≡ true
unfolding bytes_lt
bytes_lt_trans [] [] u p q = cc
bytes_lt_trans [] (b ∷ t) [] p q = cc
bytes_lt_trans [] (b ∷ t) (c ∷ u) p q = refl
bytes_lt_trans (a ∷ s) [] u p q = cc
bytes_lt_trans (a ∷ s) (b ∷ t) [] p q = cc
bytes_lt_trans (a ∷ s) (b ∷ t) (c ∷ u) p q = ground (arith, bytes_lt_trans s t u)

-- Two strings of which neither is before the other are the same.
pub bytes_lt_total : (s t : Bytes) → bytes_lt s t ≡ false → bytes_lt t s ≡ false → s ≡ t
unfolding bytes_lt
bytes_lt_total [] [] p q = refl
bytes_lt_total [] (b ∷ t) p q = cc
bytes_lt_total (a ∷ s) [] p q = cc
bytes_lt_total (a ∷ s) (b ∷ t) p q = ground (arith, bytes_lt_total s t)

module _ {ℓ} {V : Type ℓ} where
  -- Every key is behind `k`.
  abbrev pub Above : Bytes → List (Bytes × V) → Type 0
  Above k = All (λ e. bytes_lt k e.0 ≡ true)

  -- The keys are in strictly ascending order.
  abbrev pub IsSorted : List (Bytes × V) → Type 0
  IsSorted [] = Unit
  IsSorted ((k, v) ∷ m) = Above k m × IsSorted m

  emplace-Above :
      (j k : Bytes) (v : V) (m : List (Bytes × V))
      → bytes_lt j k ≡ true
      → Above j m
      → Above j (emplace k v m)
  unfolding emplace
  emplace-Above j k v [] e h = (e, tt)
  emplace-Above j k v ((i, w) ∷ m) e h = ground (arith, emplace-Above j k v m e h.1)

  pub emplace-IsSorted :
      (k : Bytes) (v : V) (m : List (Bytes × V)) → IsSorted m → IsSorted (emplace k v m)
  unfolding emplace
  emplace-IsSorted k v [] h = (tt, tt)
  emplace-IsSorted k v ((j, w) ∷ m) h = elim (Bool-cases (bytes_lt k j)) [
    | inl e ↦
        let above = All-map _ _ m (λ x p. bytes_lt_trans k j x.0 e p) h.0 in rw e ((e, above), h)
    | inr e ↦ rw e (elim (Bool-cases (bytes_lt j k)) [
      | inl f ↦ rw f (emplace-Above j k v m f h.0, emplace-IsSorted k v m h.1)
      | inr f ↦ rw f h
    ])
  ]

  -- A key before all the others is not there.
  find-Above : (k : Bytes) (m : List (Bytes × V)) → Above k m → find k m ≡ none
  unfolding find
  find-Above k [] h = refl
  find-Above k ((j, w) ∷ m) h =
      ground (arith, find-Above k m h.1, bytes_eq_iff j k, bytes_lt_irrefl k, h.0)

  -- An entry that was there, or the one that was added.
  abbrev pub or_else : Option V → Option V → Option V
  or_else none o = o
  or_else (some v) o = some v

  pub find-emplace :
      (j k : Bytes) (v : V) (m : List (Bytes × V))
      → IsSorted m
      → find j (emplace k v m) ≡ or_else (find j m) (if bytes_eq k j then some v else none)
  unfolding emplace find
  find-emplace j k v [] h = refl
  find-emplace j k v ((i, w) ∷ m) h = elim (Bool-cases (bytes_lt k i)) [
    | inl e ↦
        let gone = find-Above k m (All-map _ _ m (λ x p. bytes_lt_trans k i x.0 e p) h.0) in
        ground (arith, e, gone, bytes_eq_iff k j, bytes_eq_iff i j, bytes_lt_irrefl k)
    | inr e ↦
        ground (
          arith,
          e,
          find-emplace j k v m h.1,
          bytes_eq_iff k j,
          bytes_eq_iff i j,
          bytes_lt_total k i,
        )
  ]
