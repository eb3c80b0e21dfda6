-- ===== src/Windows/Calls.antt =====
-- What a list of calls takes and gives back.
use fineftp_server.Base.{ℕ, ◌+◌, ◌≡◌, Bool, false, List, [], ◌∷◌, ◌==◌, if◌then◌else◌}
use fineftp_server.Windows.{Resource, handle, view, Call, takes, gives_back}

abbrev pub resource_eq : Resource → Resource → Bool
resource_eq (handle m) (handle n) = m == n
resource_eq (view m) (view n) = m == n
resource_eq (handle m) (view n) = false
resource_eq (view m) (handle n) = false

-- How often a resource was taken, and given back.
abbrev pub taken : Resource → List Call → ℕ
taken r [] = 0
taken r (takes q ∷ calls) = (if resource_eq q r then 1 else 0) + taken r calls
taken r (gives_back q ∷ calls) = taken r calls

abbrev pub given_back : Resource → List Call → ℕ
given_back r [] = 0
given_back r (takes q ∷ calls) = given_back r calls
given_back r (gives_back q ∷ calls) = (if resource_eq q r then 1 else 0) + given_back r calls

-- Everything that was taken was given back.
abbrev pub IsBalanced : List Call → Type 0
IsBalanced calls = (r : Resource) → taken r calls ≡ given_back r calls
