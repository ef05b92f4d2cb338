-- ===== src/Diagram/Visits.antt =====
-- The inner loop of the search: what it adds to the result and to the queue.
use sqlwarden.Api.{ObjectRef}
use sqlwarden.Diagram.{ref_key, find_ref, find_seeds, visit, Found}
use sqlwarden.Common.{
  ℕ, Bool, true, false, List, [], ◌∷◌, String, ◌==◌, string_eq, lookup, insert, Dict, arith, ◌≡◌,
  refl, lookup-insert, Bool-cases, inl, inr, All, length, leb, is_some, ◌+◌, ◌≤◌, any, ◌⊎◌, if_both,
  length-append, lookup-insert_self, any-append, All-append, subst, sym,
}

abbrev pub has : Dict String ObjectRef → String → Bool
has result k = is_some (lookup k result)

module _ {ℓ} {V : Type ℓ} where
  pub length-insert_new :
      (k : String) (v : V) (m : Dict String V)
      → is_some (lookup k m) ≡ false
      → length (insert k v m) ≡ length m + 1
  unfolding lookup insert
  length-insert_new k v [] h = omega arith
  length-insert_new k v ((j, w) ∷ m) h = ground (arith, length-insert_new k v m)

module _ {ℓ κ} {V : Type ℓ} (P : String × V → Type κ) where
  pub All-insert :
      (k : String) (v : V) (m : Dict String V) → P (k, v) → All P m → All P (insert k v m)
  unfolding insert
  All-insert k v [] p h = (p, tt)
  All-insert k v ((j, w) ∷ m) p (q, h) = elim (Bool-cases (j == k)) [
    | inl t ↦ rw t (p, h)
    | inr t ↦ rw t (q, All-insert k v m p h)
  ]

module _ (encode : String → String) where
  -- Whether a table with the key waits in the queue.
  abbrev pub waits : List (ObjectRef × ℕ) → String → Bool
  waits queue k = any (λ item. ref_key encode item.0 == k) queue

  -- What one search step keeps: it adds as many tables as it queues, keeps those that were found, and
  -- queues every table that it adds.
  pub record Grows (old new : Found) : Type 0 where
    pub level : length new.0 + length old.1 ≡ length old.0 + length new.1
    pub more : length old.0 ≤ length new.0
    pub kept : (k : String) → has old.0 k ≡ true → has new.0 k ≡ true
    pub waiting : (k : String) → waits old.1 k ≡ true → waits new.1 k ≡ true
    pub added : (k : String) → has new.0 k ≡ true → has old.0 k ≡ false → waits new.1 k ≡ true

  pub Grows-refl : (f : Found) → Grows f f
  Grows-refl f = record {
    level = refl;
    more = omega arith;
    kept = λ k h. h;
    waiting = λ k h. h;
    added = λ k h n. cc;
  }

  pub Grows-trans : (a b c : Found) → Grows a b → Grows b c → Grows a c
  Grows-trans a b c f g = record {
    level = omega (arith, f.level, g.level);
    more = omega (arith, f.more, g.more);
    kept = λ k h. g.kept k (f.kept k h);
    waiting = λ k h. g.waiting k (f.waiting k h);
    added = λ k h n. elim (Bool-cases (has b.0 k)) [
      | inl t ↦ g.waiting k (f.added k t n)
      | inr t ↦ g.added k h t
    ];
  }

  pub Grows-find_ref :
      (depth : ℕ) (ref : ObjectRef) (f : Found) → Grows f (find_ref encode depth ref f)
  unfolding find_ref
  Grows-find_ref depth ref (result, queue) = elim (Bool-cases (has result (ref_key encode ref))) [
    | inl t ↦ rw t (Grows-refl (result, queue))
    | inr t ↦ rw t (record {
      level = omega (
        arith,
        length-insert_new (ref_key encode ref) ref result t,
        length-append queue ((ref, depth) ∷ []),
      );
      more = omega (arith, length-insert_new (ref_key encode ref) ref result t);
      kept = λ k h. ground (arith, lookup-insert (ref_key encode ref) k ref result);
      waiting = λ k h.
          ground (arith, any-append (λ item. ref_key encode item.0 == k) queue ((ref, depth) ∷ []));
      added = λ k h n. ground (
        arith,
        lookup-insert (ref_key encode ref) k ref result,
        any-append (λ item. ref_key encode item.0 == k) queue ((ref, depth) ∷ []),
      );
    })
  ]

  pub has-find_ref :
      (depth : ℕ) (ref : ObjectRef) (f : Found)
      → has (find_ref encode depth ref f).0 (ref_key encode ref) ≡ true
  unfolding find_ref
  has-find_ref depth ref (result, queue) =
      ground (arith, lookup-insert_self (ref_key encode ref) ref result)

  module _ {μ ν} (P : String × ObjectRef → Type μ) (Q : ObjectRef × ℕ → Type ν) where
    -- What holds of all entries and of all that waits.
    abbrev pub Holds : Found → Type (μ ⊔ ν)
    Holds f = All P f.0 × All Q f.1

    pub Holds-find_ref :
        (depth : ℕ) (ref : ObjectRef) (f : Found)
        → P (ref_key encode ref, ref)
        → Q (ref, depth)
        → Holds f
        → Holds (find_ref encode depth ref f)
    unfolding find_ref
    Holds-find_ref depth ref (result, queue) p q (h, k) =
        if_both Holds _ (h, k) (All-insert P _ _ result p h, All-append Q queue _ k (q, tt))

    pub Holds-visit :
        (max_tables depth : ℕ) (nbs : List ObjectRef) (f : Found)
        → All (λ nb. P (ref_key encode nb, nb) × Q (nb, depth)) nbs
        → Holds f
        → Holds (visit encode max_tables depth nbs f)
    unfolding visit
    Holds-visit max_tables depth [] f p h = h
    Holds-visit max_tables depth (nb ∷ nbs) f ((p, q), r) h =
        if_both Holds _ h (Holds-visit max_tables depth nbs _ r (Holds-find_ref depth nb f p q h))

    pub Holds-find_seeds :
        (seeds : List ObjectRef) (f : Found)
        → All (λ s. P (ref_key encode s, s) × Q (s, 0)) seeds
        → Holds f
        → Holds (find_seeds encode seeds f)
    unfolding find_seeds
    Holds-find_seeds [] f p h = h
    Holds-find_seeds (s ∷ seeds) f ((p, q), r) h =
        Holds-find_seeds seeds _ r (Holds-find_ref 0 s f p q h)

  pub Grows-find_seeds : (seeds : List ObjectRef) (f : Found) → Grows f (find_seeds encode seeds f)
  unfolding find_seeds
  Grows-find_seeds [] f = Grows-refl f
  Grows-find_seeds (s ∷ seeds) f =
      Grows-trans f _ _ (Grows-find_ref 0 s f) (Grows-find_seeds seeds _)

  pub Grows-visit :
      (max_tables depth : ℕ) (nbs : List ObjectRef) (f : Found)
      → Grows f (visit encode max_tables depth nbs f)
  unfolding visit
  Grows-visit max_tables depth [] f = Grows-refl f
  Grows-visit max_tables depth (nb ∷ nbs) f =
      if_both (Grows f) _ (Grows-refl f)
        (Grows-trans f _ _ (Grows-find_ref depth nb f) (Grows-visit max_tables depth nbs _))

  visit-below :
      (max_tables depth : ℕ) (nb : ObjectRef) (nbs : List ObjectRef) (f : Found)
      → leb max_tables (length f.0) ≡ false
      → visit encode max_tables depth (nb ∷ nbs) f
        ≡ visit encode max_tables depth nbs (find_ref encode depth nb f)
  unfolding visit
  visit-below max_tables depth nb nbs f t = rw t refl

  length-find_ref :
      (depth : ℕ) (ref : ObjectRef) (f : Found)
      → length (find_ref encode depth ref f).0 ≤ length f.0 + 1
  unfolding find_ref
  length-find_ref depth ref (result, queue) =
      ground (arith, length-insert_new (ref_key encode ref) ref result)

  pub length-find_seeds :
      (seeds : List ObjectRef) (f : Found)
      → length (find_seeds encode seeds f).0 ≤ length f.0 + length seeds
  unfolding find_seeds
  length-find_seeds [] f = omega arith
  length-find_seeds (s ∷ seeds) f =
      omega (arith, length-find_ref 0 s f, length-find_seeds seeds (find_ref encode 0 s f))

  -- Unless the bound is reached, every neighbor is found.
  pub visit-All :
      (max_tables depth : ℕ) (nbs : List ObjectRef) (f : Found)
      → (max_tables ≤ length (visit encode max_tables depth nbs f).0)
        ⊎ All (λ nb. has (visit encode max_tables depth nbs f).0 (ref_key encode nb) ≡ true) nbs
  unfolding visit
  visit-All max_tables depth [] f = inr tt
  visit-All max_tables depth (nb ∷ nbs) f = elim (Bool-cases (leb max_tables (length f.0))) [
    | inl t ↦ rw t (inl (ground arith))
    | inr t ↦
        subst
          (λ g. (max_tables ≤ length g.0) ⊎ All (λ n. has g.0 (ref_key encode n) ≡ true) (nb ∷ nbs))
          (sym (visit-below max_tables depth nb nbs f t))
          (elim (visit-All max_tables depth nbs (find_ref encode depth nb f)) [
            | inl more ↦ inl more
            | inr all ↦
                inr ((Grows-visit max_tables depth nbs _).kept _ (has-find_ref depth nb f), all)
          ])
  ]

  pub length-visit :
      (max_tables depth : ℕ) (nbs : List ObjectRef) (f : Found)
      → length f.0 ≤ max_tables
      → length (visit encode max_tables depth nbs f).0 ≤ max_tables
  unfolding visit
  length-visit max_tables depth [] f h = h
  length-visit max_tables depth (nb ∷ nbs) f h = elim (Bool-cases (leb max_tables (length f.0))) [
    | inl t ↦ rw t h
    | inr t ↦
        rw t (length-visit max_tables depth nbs _ (ground (arith, length-find_ref depth nb f)))
  ]

  pub has-find_seeds :
      (seeds : List ObjectRef) (f : Found)
      → All (λ s. has (find_seeds encode seeds f).0 (ref_key encode s) ≡ true) seeds
  unfolding find_seeds
  has-find_seeds [] f = tt
  has-find_seeds (s ∷ seeds) f =
      ((Grows-find_seeds seeds _).kept _ (has-find_ref 0 s f), has-find_seeds seeds _)
