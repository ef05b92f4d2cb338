-- ===== src/Completion/Stale.antt =====
-- Which answers to requests come too late.
use sqlwarden.Completion.Source.{
  SourceState, SourceEvent, begun, given_up, ended, run_source, is_stale, step_source, end_remote,
  begin_remote, abort_remote,
}
use sqlwarden.Common.{
  ◌∷◌, [], ◌||◌, ◌==◌, ℕ, List, ◌≡◌, Bool, includes, if_both, ◌≤◌, true, false, option_beq, ◌==◌,
  ◌||◌, suc, arith, [], some, ◌∙◌, Bool-cases, ap, nat_eq, refl, inl, inr,
}

-- Whether a request begins.
abbrev pub has_begun : List SourceEvent → Bool
has_begun [] = false
has_begun (begun c ∷ events) = true
has_begun (given_up c ∷ events) = has_begun events
has_begun (ended c ∷ events) = has_begun events

-- Whether the context of the request is aborted.
abbrev pub gave_up : ℕ → List SourceEvent → Bool
gave_up controller [] = false
gave_up controller (begun c ∷ events) = gave_up controller events
gave_up controller (given_up c ∷ events) = c == controller || gave_up controller events
gave_up controller (ended c ∷ events) = gave_up controller events

end_remote-keeps :
    (s : SourceState) (c : ℕ)
    → ((end_remote s c).remote_generation ≡ s.remote_generation)
      × ((end_remote s c).aborted ≡ s.aborted)
unfolding end_remote
end_remote-keeps s c =
    if_both {A = SourceState}
      (λ t. (t.remote_generation ≡ s.remote_generation) × (t.aborted ≡ s.aborted))
      (option_beq s.active_remote_controller (some c)) (refl, refl) (refl, refl)

run_source-grows :
    (s : SourceState) (events : List SourceEvent)
    → s.remote_generation ≤ (run_source s events).remote_generation
unfolding run_source step_source begin_remote abort_remote
run_source-grows s [] = omega arith
run_source-grows s (begun c ∷ events) = omega (arith, run_source-grows (begin_remote s c) events)
run_source-grows s (given_up c ∷ events) = run_source-grows (abort_remote s c) events
run_source-grows s (ended c ∷ events) =
    omega (arith, run_source-grows (end_remote s c) events, (end_remote-keeps s c).0)

run_source-begun :
    (s : SourceState) (events : List SourceEvent)
    → has_begun events ≡ true
    → suc s.remote_generation ≤ (run_source s events).remote_generation
unfolding run_source step_source begin_remote abort_remote
run_source-begun s [] h = cc
run_source-begun s (begun c ∷ events) h = run_source-grows (begin_remote s c) events
run_source-begun s (given_up c ∷ events) h = run_source-begun (abort_remote s c) events h
run_source-begun s (ended c ∷ events) h =
    omega (arith, run_source-begun (end_remote s c) events h, (end_remote-keeps s c).0)

-- Where no request begins, the generation stays, and only those given up are aborted.
run_source-idle :
    (s : SourceState) (events : List SourceEvent) (controller : ℕ)
    → has_begun events ≡ false
    → ((run_source s events).remote_generation ≡ s.remote_generation)
      × (includes (run_source s events).aborted controller
          ≡ (includes s.aborted controller || gave_up controller events))
unfolding run_source step_source abort_remote
run_source-idle s [] controller h = (refl, ground arith)
run_source-idle s (begun c ∷ events) controller h = cc
run_source-idle s (given_up c ∷ events) controller h =
    let (same, rest) = run_source-idle (abort_remote s c) events controller h in
    (same, ground (arith, rest))
run_source-idle s (ended c ∷ events) controller h =
    let (same, rest) = run_source-idle (end_remote s c) events controller h in
    let (generation, aborted) = end_remote-keeps s c in
    (same ∙ generation, rest ∙ ap (λ l. includes l controller || gave_up controller events) aborted)

-- The answer to a request with a new controller is thrown away exactly if the context was aborted, then
-- or on the way, or another request has begun since.
pub is_stale-superseded :
    (s : SourceState) (controller : ℕ) (events : List SourceEvent) (context_aborted : Bool)
    → includes s.aborted controller ≡ false
    → option_beq s.active_remote_controller (some controller) ≡ false
    → is_stale
        (run_source (begin_remote s controller) events)
        context_aborted
        controller
        (suc s.remote_generation)
      ≡ (context_aborted || gave_up controller events || has_begun events)
unfolding is_stale begin_remote
is_stale-superseded s controller events context_aborted fresh other =
    let started = begin_remote s controller in
    let unaborted : includes started.aborted controller ≡ false = ground (arith, fresh, other) in
    elim (Bool-cases (has_begun events)) [
      | inl later ↦ ground (arith, later, run_source-begun started events later)
      | inr alone ↦
          let (same, aborted) = run_source-idle started events controller alone in
          ground (arith, same, aborted, unaborted, alone)
    ]
