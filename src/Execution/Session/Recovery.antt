-- ===== src/Execution/Session/Recovery.antt =====
-- frontend/src/components/ide/sessionErrors.ts: which session a result comes from, and what stays.
use sqlwarden.Execution.Session.{
  finish, again, run_session, session_loop, ensure_session, use_ensure_session, obtain_session,
  connect_session, settle_connect,
}
use sqlwarden.Common.{
  Dict, suc, none, some, ℕ, String, lookup, Option, nat_eq, ◌==◌, true, ◌≡◌, ◌⊎◌, get_or_else,
  false, lookup-erase, Bool-cases, inl, refl, inr, lookup-insert, lookup-erase_self, insert, ◌∙◌,
  sym, arith, lookup-insert_self, ap,
}
use sqlwarden.Store.State.{IdeState, ConnectionStatus, has_session}
use sqlwarden.Store.Sessions.{set_session, clear_session, set_connection_status}
use sqlwarden.Execution.Failure.{Attempt, done, threw, Failure, is_session_gone, Attempt-cases}

module _ {ℓ} {T : Type ℓ} (connect : ℕ → Attempt String) (run : ℕ → String → Attempt T)
    (c : ℕ) where
  -- What is true of a round that ends with a store `s'`, whatever the outcome.
  pub record IsQuiet (s s' : IdeState) : Type 0 where
    pub status :
        (lookup c s'.connection_status ≡ none)
        ⊎ (lookup c s'.connection_status ≡ lookup c s.connection_status)
    pub sessions : (d : ℕ) → (c == d) ≡ false → lookup d s'.sessions ≡ lookup d s.sessions
    pub statuses :
        (d : ℕ) → (c == d) ≡ false → lookup d s'.connection_status ≡ lookup d s.connection_status

  -- The session in use is the cached one, and the store as it was; or it was just made, and the store
  -- keeps it.
  IsKept : ℕ → Option String → IdeState → Attempt String × IdeState → Type 0
  IsKept attempt cached s (threw e, s') = Unit
  IsKept attempt cached s (done id, s') =
      ((cached ≡ some id) × (s' ≡ s))
      ⊎ ((connect attempt ≡ done id) × (lookup c s'.sessions ≡ some id))

  connected-IsQuiet :
      (s : IdeState) (id : String)
      → let q =
          set_connection_status
            (set_session (set_connection_status s c (some ConnectionStatus.connecting)) c id)
            c
            none in
        IsQuiet s q × (lookup c q.sessions ≡ some id)
  unfolding set_connection_status set_session
  connected-IsQuiet s id = (
    record {
      status = inl (lookup-erase_self c (insert c ConnectionStatus.connecting s.connection_status));
      sessions = λ d n. ground (arith, lookup-insert c d id s.sessions);
      statuses = λ d n. ground (
        arith,
        lookup-erase c d (insert c ConnectionStatus.connecting s.connection_status),
        lookup-insert c d ConnectionStatus.connecting s.connection_status,
      );
    },
    lookup-insert_self c id s.sessions,
  )

  refused-IsQuiet :
      (s : IdeState)
      → IsQuiet s (
          set_connection_status
            (set_connection_status s c (some ConnectionStatus.connecting))
            c
            none)
  unfolding set_connection_status
  refused-IsQuiet s = record {
    status = inl (lookup-erase_self c (insert c ConnectionStatus.connecting s.connection_status));
    sessions = λ d n. refl;
    statuses = λ d n. ground (
      arith,
      lookup-erase c d (insert c ConnectionStatus.connecting s.connection_status),
      lookup-insert c d ConnectionStatus.connecting s.connection_status,
    );
  }

  settle_connect-IsQuiet :
      (attempt : ℕ) (cached : Option String) (s : IdeState) (a : Attempt String)
      → connect attempt ≡ a
      → let q = settle_connect c (set_connection_status s c (some ConnectionStatus.connecting)) a in
        IsQuiet s q.1 × IsKept attempt cached s q
  unfolding settle_connect IsKept
  settle_connect-IsQuiet attempt cached s (done id) e =
      let (quiet, kept) = connected-IsQuiet s id in (quiet, inr (e, kept))
  settle_connect-IsQuiet attempt cached s (threw f) e = (refused-IsQuiet s, tt)

  has_session-some :
      (cached : Option String) → has_session cached ≡ true → some (get_or_else cached "") ≡ cached
  unfolding has_session
  has_session-some none h = cc
  has_session-some (some id) h = refl

  obtain_session-IsQuiet :
      (attempt : ℕ) (cached : Option String) (s : IdeState)
      → IsQuiet s (obtain_session connect c attempt cached s).1
        × IsKept attempt cached s (obtain_session connect c attempt cached s)
  unfolding obtain_session IsKept connect_session
  obtain_session-IsQuiet attempt cached s = elim (Bool-cases (has_session cached)) [
    | inl k ↦
        rw (k, obtain_session)
          (
            record { status = inr refl; sessions = λ d n. refl; statuses = λ d n. refl },
            inl (sym (has_session-some cached k), refl),
          )
    | inr k ↦
        rw (k, obtain_session) (settle_connect-IsQuiet attempt cached s (connect attempt) refl)
  ]

  IsQuiet-trans : (s s' s'' : IdeState) → IsQuiet s s' → IsQuiet s' s'' → IsQuiet s s''
  IsQuiet-trans s s' s'' q q' = record {
    status = elim q'.status [
      | inl z ↦ inl z
      | inr z ↦ elim q.status [ inl y ↦ inl (z ∙ y) | inr y ↦ inr (z ∙ y) ]
    ];
    sessions = λ d n. q'.sessions d n ∙ q.sessions d n;
    statuses = λ d n. q'.statuses d n ∙ q.statuses d n;
  }

  clear_session-IsQuiet : (s : IdeState) → IsQuiet s (clear_session s c)
  unfolding clear_session
  clear_session-IsQuiet s = record {
    status = inr refl;
    sessions = λ d n. ground (arith, lookup-erase c d s.sessions);
    statuses = λ d n. refl;
  }

  -- A result that comes back was computed with the cached session, and the store is as it was, or with a
  -- session just made, which the store then keeps; an error that the session is gone comes from a session
  -- that was just made, or from making it.
  pub IsSettled : Option String → IdeState → Attempt T × IdeState → Type ℓ
  IsSettled cached s (done result, s') =
      IsQuiet s s'
      × (((id : String) × (cached ≡ some id) × (s' ≡ s) × (run 0 id ≡ done result))
          ⊎ ((i : ℕ) × (id : String) × (connect i ≡ done id)
              × (lookup c s'.sessions ≡ some id)
              × (run i id ≡ done result)))
  IsSettled cached s (threw e, s') =
      IsQuiet s s'
      × (is_session_gone e ≡ true
          → (connect 0 ≡ threw e)
            ⊎ (connect 1 ≡ threw e)
            ⊎ ((id : String) × (connect 1 ≡ done id) × (run 1 id ≡ threw e)))

  -- The second round: it has no session, so it connects, and it ends the loop.
  second_round :
      (s : IdeState)
      → (r : Attempt T) × (s' : IdeState) × (run_session connect run c 1
            (obtain_session connect c 1 none s)
          ≡ finish r s')
        × IsSettled none s (r, s')
  unfolding run_session obtain_session connect_session settle_connect IsSettled has_session
  second_round s = elim (Attempt-cases (connect 1)) [
    | inr (e, f) ↦ (
      threw e,
      set_connection_status (set_connection_status s c (some ConnectionStatus.connecting)) c none,
      rw (run_session, f) refl,
      (refused-IsQuiet s, λ g. inr (inl f)),
    )
    | inl (id, f) ↦
        let (quiet, kept) = connected-IsQuiet s id in
        let s' =
          set_connection_status
            (set_session (set_connection_status s c (some ConnectionStatus.connecting)) c id) c
            none in
        elim (Attempt-cases (run 1 id)) [
          | inl (t, k) ↦ (
            done t,
            s',
            rw (run_session, f, run_session, k) refl,
            (quiet, inr (1, id, f, kept, k)),
          )
          | inr (e, k) ↦ (
            threw e,
            s',
            rw (run_session, f, run_session, k) refl,
            (quiet, λ g. inr (inr (id, f, k))),
          )
        ]
  ]

  -- The result of the first round, from the session that it has.
  first_result :
      (cached : Option String) (s s' : IdeState) (id : String) (t : T)
      → IsKept 0 cached s (done id, s')
      → run 0 id ≡ done t
      → ((i : String) × (cached ≡ some i) × (s' ≡ s) × (run 0 i ≡ done t))
        ⊎ ((i : ℕ) × (u : String) × (connect i ≡ done u)
            × (lookup c s'.sessions ≡ some u)
            × (run i u ≡ done t))
  unfolding IsKept
  first_result cached s s' id t (inl (e, same)) k = inl (id, e, same, k)
  first_result cached s s' id t (inr (e, kept)) k = inr (0, id, e, kept, k)

  -- The first round ends the loop, or clears the session that was gone.
  first_round :
      (cached : Option String) (s : IdeState) (q : Attempt String × IdeState)
      → IsQuiet s q.1
      → IsKept 0 cached s q
      → ((e : Failure) → q.0 ≡ threw e → connect 0 ≡ threw e)
      → ((r : Attempt T) × (s' : IdeState) × (run_session connect run c 0 q ≡ finish r s')
          × IsSettled cached s (r, s'))
        ⊎ ((s' : IdeState) × (run_session connect run c 0 q ≡ again s') × IsQuiet s s')
  unfolding run_session IsSettled
  first_round cached s (threw e, s') quiet kept from =
      inl (threw e, s', refl, (quiet, λ g. inl (from e refl)))
  first_round cached s (done id, s') quiet kept from = elim (Attempt-cases (run 0 id)) [
    | inl (t, k) ↦
        inl (done t, s', rw (run_session, k) refl, (quiet, first_result cached s s' id t kept k))
    | inr (e, k) ↦ elim (Bool-cases (is_session_gone e)) [
      | inl g ↦ inr (
        clear_session s' c,
        rw (run_session, k, g) refl,
        IsQuiet-trans s s' (clear_session s' c) quiet (clear_session-IsQuiet s'),
      )
      | inr g ↦ inl (threw e, s', rw (run_session, k, g) refl, (quiet, λ g'. cc))
    ]
  ]

  IsSettled-trans :
      (cached : Option String) (s s' : IdeState) (out : Attempt T × IdeState)
      → IsQuiet s s'
      → IsSettled none s' out
      → IsSettled cached s out
  unfolding IsSettled
  IsSettled-trans cached s s' (done t, s'') q (q', inl (id, e, _, _)) = cc
  IsSettled-trans cached s s' (done t, s'') q (q', inr made) =
      (IsQuiet-trans s s' s'' q q', inr made)
  IsSettled-trans cached s s' (threw e, s'') q (q', rest) = (IsQuiet-trans s s' s'' q q', rest)

  settle_connect-threw :
      (s : IdeState) (a : Attempt String) (e : Failure)
      → (settle_connect c s a).0 ≡ threw e
      → a ≡ threw e
  unfolding settle_connect
  settle_connect-threw s (done id) e h = cc
  settle_connect-threw s (threw e') e h = h

  obtain_session-threw :
      (s : IdeState) (cached : Option String) (e : Failure)
      → (obtain_session connect c 0 cached s).0 ≡ threw e
      → connect 0 ≡ threw e
  unfolding obtain_session connect_session
  obtain_session-threw s cached e h = elim (Bool-cases (has_session cached)) [
    | inl k ↦
        let same : obtain_session connect c 0 cached s ≡ (done (get_or_else cached ""), s) =
          rw (k, obtain_session) refl in
        let h' : done (get_or_else cached "") ≡ threw e = sym (ap (λ p. p.0) same) ∙ h in cc
    | inr k ↦
        let same : obtain_session connect c 0 cached s ≡ connect_session connect c 0 s =
          rw (k, obtain_session) refl in
        settle_connect-threw (set_connection_status s c (some ConnectionStatus.connecting))
          (connect 0) e (sym (ap (λ p. p.0) same) ∙ h)
  ]

  loop_end :
      (fuel attempt : ℕ) (cached : Option String) (s s' : IdeState) (r : Attempt T)
      → run_session connect run c attempt (obtain_session connect c attempt cached s) ≡ finish r s'
      → session_loop connect run c (suc fuel) attempt cached s ≡ some (r, s')
  unfolding session_loop
  loop_end fuel attempt cached s s' r e = rw (session_loop, e) refl

  loop_again :
      (fuel attempt : ℕ) (cached : Option String) (s s' : IdeState)
      → run_session connect run c attempt (obtain_session connect c attempt cached s) ≡ again s'
      → session_loop connect run c (suc fuel) attempt cached s
        ≡ session_loop connect run c fuel (suc attempt) none s'
  unfolding session_loop
  loop_again fuel attempt cached s s' e = rw (session_loop, e) refl

  -- `useEnsureSession`, where nothing else changes the store while it awaits, ends after two rounds at
  -- most. A result that it gives was computed with the session that its component was rendered with, and
  -- the store is as it was, or with a session just made, which the store then keeps. An error that says
  -- the session is gone comes from a second attempt with a session just made, or from connecting. The
  -- status of the connection ends as none or as it was, and the sessions and statuses of the other
  -- connections stay.
  pub use_ensure_session-IsSettled :
      (rendered : Dict ℕ String) (s : IdeState)
      → (out : Attempt T × IdeState) × (use_ensure_session connect run c rendered s ≡ some out)
        × IsSettled (lookup c rendered) s out
  unfolding use_ensure_session ensure_session
  use_ensure_session-IsSettled rendered s =
      let cached = lookup c rendered in
      let q = obtain_session connect c 0 cached s in
      let (quiet, kept) = obtain_session-IsQuiet 0 cached s in
      elim (first_round cached s q quiet kept (obtain_session-threw s cached)) [
        | inl (r, s', e, h) ↦ ((r, s'), loop_end 1 0 cached s s' r e, h)
        | inr (s', e, h) ↦
            let (r, s'', f, k) = second_round s' in
            (
              (r, s''),
              loop_again 1 0 cached s s' e ∙ loop_end 0 1 none s' s'' r f,
              IsSettled-trans cached s s' (r, s'') h k,
            )
      ]
