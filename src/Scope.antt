-- ===== src/Scope.antt =====
-- frontend/src/lib/api/scope.ts: names of a scope, which is a path of segments.
-- `encode` stands for `encodeURIComponent`.
use sqlwarden.Api.{ScopePath}
use sqlwarden.Common.{String, [], ◌∷◌, map, ◌==◌, string_eq, if◌then◌else◌, join, ◌<>◌}

-- The last segment of the kind; the loop runs from the end.
unfoldable pub last_name : String → String → ScopePath → String
last_name kind found [] = found
last_name kind found (segment ∷ rest) =
    last_name kind (if segment.kind == kind then segment.name else found) rest

unfoldable pub scope_name : ScopePath → String → String
scope_name scope kind = last_name kind "" scope

unfoldable pub scope_label : ScopePath → String
scope_label scope = join " / " (map (λ segment. segment.name) scope)

unfoldable pub scope_key : (String → String) → ScopePath → String
scope_key encode scope =
    join "/" (map (λ segment. encode segment.kind <> "=" <> encode segment.name) scope)
