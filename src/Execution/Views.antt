-- ===== src/Execution/Views.antt =====
-- frontend/src/components/ide/object-detail/viewState.ts and schema-diagram/viewState.ts: what a view
-- shows while its requests run, fail or are done. A missing error is `none`.
use sqlwarden.Execution.Failure.{
  Failure, api_error, abort_error, other_error, not_an_error, error_message,
}
use sqlwarden.Common.{
  ℕ, Bool, false, not, ◌||◌, List, [], ◌∷◌, Option, none, some, String, if◌then◌else◌, ◌==◌, nat_eq,
  any,
}

pub data ObjectViewState : Type 0 where
  no_session loading unsupported forbidden : ObjectViewState
  error : String → ObjectViewState
  ready : ObjectViewState

-- `isApiError(error) && error.status === status`.
unfoldable pub has_status : Option Failure → ℕ → Bool
has_status none status = false
has_status (some (api_error e)) status = e.status == status
has_status (some (abort_error message)) status = false
has_status (some (other_error message)) status = false
has_status (some not_an_error) status = false

unfoldable pub resolve_object_view_state :
    (String → Bool) → Bool → Option Failure → Bool → ObjectViewState
resolve_object_view_state is_blank session_there failure has_data =
    if not session_there
    then ObjectViewState.no_session
    else if has_data
    then ObjectViewState.ready
    else elim failure [
      | none ↦ ObjectViewState.loading
      | some e ↦
          if has_status (some e) 501
          then ObjectViewState.unsupported
          else if has_status (some e) 403
          then ObjectViewState.forbidden
          else if has_status (some e) 410
          then ObjectViewState.no_session
          else ObjectViewState.error (error_message is_blank e "Failed to load object details.")
    ]

pub data DiagramViewState : Type 0 where
  missing_target no_session unsupported forbidden loading empty ready : DiagramViewState

-- Of a specification, only whether each kind supports diagrams is read.
pub record DiagramView : Type 0 where
  pub has_target : Bool
  pub has_connection : Bool
  pub has_session : Bool
  pub spec : Option (List Bool)
  pub spec_error : Option Failure
  pub directory_error : Option Failure
  pub relationships_error : Option Failure
  pub directory_loading : Bool
  pub relationships_loading : Bool
  pub present_count : ℕ

unfoldable pub lacks_diagrams : Option (List Bool) → Bool
lacks_diagrams none = false
lacks_diagrams (some kinds) = not (any (λ supports. supports) kinds)

unfoldable pub resolve_diagram_view_state : DiagramView → DiagramViewState
resolve_diagram_view_state v =
    if not v.has_target || not v.has_connection
    then DiagramViewState.missing_target
    else if not v.has_session
    then DiagramViewState.no_session
    else if has_status v.relationships_error 501 || lacks_diagrams v.spec
    then DiagramViewState.unsupported
    else if any (λ error. has_status error 403)
        (v.spec_error ∷ v.directory_error ∷ v.relationships_error ∷ [])
    then DiagramViewState.forbidden
    else if v.directory_loading || v.relationships_loading
    then DiagramViewState.loading
    else if v.present_count == 0
    then DiagramViewState.empty
    else DiagramViewState.ready
