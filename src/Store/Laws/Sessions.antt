-- ===== src/Store/Laws/Sessions.antt =====
-- Synchronising the session ids with the ones that the backend holds.
use sqlwarden.Common.{
  [], ◌∷◌, none, some, Dict, lookup, List, ℕ, String, ◌≡◌, includes, IsDistinct, Option, or_else,
  if◌then◌else◌, map, arith, Bool-cases, nat_eq, insert, erase, false, ◌==◌, lookup-insert, refl,
  lookup-erase, inl, nat_beq_iff, subst, inr,
}
use sqlwarden.Store.State.{IdeState}
use sqlwarden.Store.Sessions.{sync_sessions, drop_sessions, put_sessions}

lookup-drop_sessions :
    (scope : List ℕ) (m : Dict ℕ String) (c : ℕ)
    → lookup c (drop_sessions scope m) ≡ (if includes scope c then none else lookup c m)
unfolding drop_sessions
lookup-drop_sessions [] m c = refl
lookup-drop_sessions (d ∷ ds) m c =
    ground (arith, lookup-drop_sessions ds (erase d m) c, lookup-erase d c m, nat_beq_iff d c)

lookup-put_absent :
    (backend m : Dict ℕ String) (c : ℕ)
    → lookup c backend ≡ none
    → lookup c (put_sessions backend m) ≡ lookup c m
unfolding put_sessions lookup
lookup-put_absent [] m c h = refl
lookup-put_absent ((d, v) ∷ rest) m c h =
    ground (arith, lookup-put_absent rest (insert d v m) c, lookup-insert d c v m)

-- The keys of an object are distinct.
abbrev pub IsObject : Dict ℕ String → Type 0
IsObject m = IsDistinct (map (λ p. p.0) m)

pub absent_of_key :
    (m : Dict ℕ String) (c : ℕ) → includes (map (λ p. p.0) m) c ≡ false → lookup c m ≡ none
unfolding lookup
absent_of_key [] c h = refl
absent_of_key ((d, v) ∷ rest) c h = ground (arith, absent_of_key rest c)

lookup-put_sessions :
    (backend m : Dict ℕ String) (c : ℕ)
    → IsObject backend
    → lookup c (put_sessions backend m) ≡ or_else (lookup c backend) (lookup c m)
unfolding put_sessions lookup
lookup-put_sessions [] m c h = refl
lookup-put_sessions ((d, v) ∷ rest) m c (k, h) = elim (Bool-cases (d == c)) [
  | inl e ↦
      let same : d ≡ c = (nat_beq_iff d c).0 e in
      ground (
        arith,
        lookup-put_absent rest (insert d v m) c
            (subst (λ i. lookup i rest ≡ none) same (absent_of_key rest d k)),
        lookup-insert d c v m,
      )
  | inr e ↦ ground (arith, lookup-put_sessions rest (insert d v m) c h, lookup-insert d c v m)
]

-- `syncSessions` with a scope: a session of the backend is taken whatever its scope, a session of the
-- scope that the backend lacks is dropped, and all others stay; without a scope the backend's are all.
pub sync_sessions-lookup :
    (s : IdeState) (backend : Dict ℕ String) (scope : Option (List ℕ)) (c : ℕ)
    → IsObject backend
    → lookup c (sync_sessions s backend scope).sessions
      ≡ or_else (lookup c backend) (elim scope [
        | none ↦ none
        | some ids ↦ if includes ids c then none else lookup c s.sessions
      ])
unfolding sync_sessions
sync_sessions-lookup s backend none c h = ground arith
sync_sessions-lookup s backend (some ids) c h =
    rw
      (
        lookup-put_sessions backend (drop_sessions ids s.sessions) c h,
        lookup-drop_sessions ids s.sessions c,
      )
      refl
