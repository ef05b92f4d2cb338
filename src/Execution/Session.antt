-- ===== src/Execution/Session.antt =====
-- frontend/src/components/ide/sessionErrors.ts: `ensureSession`, wired to the store as
-- `useEnsureSession` does.
-- `connect` and `run` stand for the two requests; each takes the number of the attempt. Nothing else
-- changes the store while they are awaited.
pub mod Recovery
use sqlwarden.Common.{
  Dict, zero, suc, none, some, ℕ, String, lookup, if◌then◌else◌, Option, nat_eq, ◌==◌, true, ◌≡◌,
  ◌⊎◌, ◌&&◌, get_or_else, false, lookup-erase, Bool-cases, inl, refl, inr, lookup-insert,
  lookup-erase_self, insert, ◌∙◌, sym, arith, lookup-insert_self, ap,
}
use sqlwarden.Store.State.{IdeState, ConnectionStatus, has_session}
use sqlwarden.Store.Sessions.{set_session, clear_session, set_connection_status}
use sqlwarden.Execution.Failure.{Attempt, done, threw, Failure, is_session_gone, Attempt-cases}

-- What follows `connect`, with its `finally`: the status goes back to none on both ways out.
unfoldable pub settle_connect : ℕ → IdeState → Attempt String → Attempt String × IdeState
settle_connect c s (done id) = (done id, set_connection_status (set_session s c id) c none)
settle_connect c s (threw e) = (threw e, set_connection_status s c none)

unfoldable pub connect_session : (ℕ → Attempt String) → ℕ → ℕ → IdeState → Attempt String × IdeState
connect_session connect c attempt s =
    settle_connect c (set_connection_status s c (some ConnectionStatus.connecting))
      (connect attempt)

-- The session that an attempt runs with, and the store once it has it: the cached one, or a new one.
unfoldable pub obtain_session :
    (ℕ → Attempt String) → ℕ → ℕ → Option String → IdeState → Attempt String × IdeState
obtain_session connect c attempt cached s = elim (has_session cached) [
  | true ↦ (done (get_or_else cached ""), s)
  | false ↦ connect_session connect c attempt s
]

-- A round of the loop returns or throws, or goes on to the next one.
pub data Round {ℓ} (T : Type ℓ) : Type ℓ where
  finish : Attempt T → IdeState → Round T
  again : IdeState → Round T

module _ {ℓ} {T : Type ℓ} (connect : ℕ → Attempt String) (run : ℕ → String → Attempt T)
    (c : ℕ) where
  unfoldable pub run_session : ℕ → Attempt String × IdeState → Round T
  run_session attempt (threw e, s) = finish (threw e) s
  run_session attempt (done id, s) = elim (run attempt id) [
    | done result ↦ finish (done result) s
    | threw e ↦
        if attempt == 0 && is_session_gone e then again (clear_session s c) else finish (threw e) s
  ]

  -- `for (let attempt = 0; ; attempt++)`.
  unfoldable pub session_loop : ℕ → ℕ → Option String → IdeState → Option (Attempt T × IdeState)
  session_loop zero attempt cached s = none
  session_loop (suc fuel) attempt cached s =
      elim (run_session attempt (obtain_session connect c attempt cached s)) [
        | finish result s' ↦ some (result, s')
        | again s' ↦ session_loop fuel (suc attempt) none s'
      ]

  -- Two rounds are enough: only attempt 0 goes on. `cached` is what `getSession` gives.
  unfoldable pub ensure_session : Option String → IdeState → Option (Attempt T × IdeState)
  ensure_session cached s = session_loop 2 0 cached s

  -- `useEnsureSession` looks the session up in the sessions that its component was rendered with, which
  -- the store may have changed since.
  unfoldable pub use_ensure_session : Dict ℕ String → IdeState → Option (Attempt T × IdeState)
  use_ensure_session rendered s = ensure_session (lookup c rendered) s
