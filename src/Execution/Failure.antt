-- ===== src/Execution/Failure.antt =====
-- frontend/src/lib/api/errors.ts: the errors that a request throws.
use sqlwarden.Common.{
  ℕ, String, List, Option, some, Bool, true, false, ◌==◌, if◌then◌else◌, ◌&&◌, not, option_beq,
  nat_eq, string_eq, ◌≡◌, ◌⊎◌, inl, inr, refl,
}
use sqlwarden.Api.{UnsafeStatement}

-- `details` is read as a list of unsafe statements only.
pub record ApiError : Type 0 where
  pub message : String
  pub status : ℕ
  pub code : Option String
  pub details : Option (List UnsafeStatement)

-- What a `catch` sees: an ApiError, an AbortError, another Error with its message, or no Error at all.
pub data Failure : Type 0 where
  api_error : ApiError → Failure
  abort_error : (message : String) → Failure
  other_error : (message : String) → Failure
  not_an_error : Failure

pub data Attempt {ℓ} (A : Type ℓ) : Type ℓ where
  done : A → Attempt A
  threw : Failure → Attempt A

-- `isQueryAbort`.
unfoldable pub is_query_abort : Failure → Bool
is_query_abort (api_error e) = false
is_query_abort (abort_error message) = true
is_query_abort (other_error message) = false
is_query_abort not_an_error = false

-- `errorMessage`; `is_blank` tells whether `trim()` leaves nothing.
unfoldable pub error_message : (String → Bool) → Failure → String → String
error_message is_blank (api_error e) fallback = if is_blank e.message then fallback else e.message
error_message is_blank (abort_error message) fallback =
    if is_blank message then fallback else message
error_message is_blank (other_error message) fallback =
    if is_blank message then fallback else message
error_message is_blank not_an_error fallback = fallback

-- `isSessionGone` of frontend/src/components/ide/sessionErrors.ts.
unfoldable pub is_session_gone : Failure → Bool
is_session_gone (api_error e) =
    e.status == 410 && not (option_beq e.code (some "query_cursor_unavailable"))
is_session_gone (abort_error message) = false
is_session_gone (other_error message) = false
is_session_gone not_an_error = false

pub Attempt-cases {ℓ} :
    {A : Type ℓ} (a : Attempt A) → ((x : A) × (a ≡ done x)) ⊎ ((e : Failure) × (a ≡ threw e))
Attempt-cases (done x) = inl (x, refl)
Attempt-cases (threw e) = inr (e, refl)
