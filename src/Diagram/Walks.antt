-- ===== src/Diagram/Walks.antt =====
-- The search of the diagram against walks in the graph of the relationships.
pub mod Loop
pub mod Rounds
pub mod Component
use mathlib.Core.List.{Memᴰ}
use sqlwarden.Diagram.{ref_key}
use sqlwarden.Api.{ObjectRef, Relationship}
use sqlwarden.Common.{ℕ, suc, List, String, ◌≡◌, Option, none, some, ◌≤◌, ◌+◌}

-- The walks of some length from a seed to a key, along relationships in either direction.
pub data Walk (encode : String → String) (edges : List Relationship) (seeds : List ObjectRef)
    : ℕ → String → Type 0 where
  start : (s : ObjectRef) → Memᴰ s seeds → Walk encode edges seeds 0 (ref_key encode s)
  along :
      {n : ℕ} {k : String} (e : Relationship)
      → Walk encode edges seeds n k
      → Memᴰ e edges
      → ref_key encode e.source ≡ k
      → Walk encode edges seeds (n + 1) (ref_key encode e.references)
  back :
      {n : ℕ} {k : String} (e : Relationship)
      → Walk encode edges seeds n k
      → Memᴰ e edges
      → ref_key encode e.references ≡ k
      → Walk encode edges seeds (n + 1) (ref_key encode e.source)

-- A number of hops within the bound, where no bound is `Infinity`.
abbrev pub IsWithin : Option ℕ → ℕ → Type 0
IsWithin none n = Unit
IsWithin (some m) n = n ≤ m
