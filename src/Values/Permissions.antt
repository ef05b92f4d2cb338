-- ===== src/Values/Permissions.antt =====
-- frontend/src/lib/permissions.ts: checks on the permissions of a user and of a policy's role.
use sqlwarden.Common.{
  List, [], ◌∷◌, Option, none, some, String, if◌then◌else◌, Bool, ◌≡◌, ◌↔◌, false, any, ◌==◌,
  string_eq, All, includes, ◌&&◌, not, true, arith,
}

abbrev pub org_delete : String
org_delete = "org:delete"

abbrev pub org_transfer_ownership : String
org_transfer_ownership = "org:transfer_ownership"

abbrev pub runnable_connection_permissions : List String
runnable_connection_permissions = "conn:execute" ∷ "conn:dql" ∷ "conn:dml" ∷ "conn:ddl" ∷ []

abbrev pub protected_org_policy_permissions : List String
protected_org_policy_permissions = org_delete ∷ org_transfer_ownership ∷ []

-- `permissions?.includes(required) === true`.
unfoldable pub has_permission : Option (List String) → String → Bool
has_permission none required = false
has_permission (some permissions) required = includes permissions required

unfoldable pub has_any_permission : Option (List String) → List String → Bool
has_any_permission permissions required = any (λ item. has_permission permissions item) required

abbrev pub protected_message : String
protected_message =
    "Only users who already have organization deletion or ownership transfer permission can manage policies that grant those permissions."

unfoldable pub protected_org_policy_message :
    Option (List String) → Option (List String) → Option String
protected_org_policy_message role_permissions effective_permissions =
    if any
      (λ item.
        has_permission role_permissions item && not (has_permission effective_permissions item))
      protected_org_policy_permissions
    then some protected_message
    else none

-- The fallback of `permissionGroupName`; `to_upper` stands for `toUpperCase`.
unfoldable pub permission_group_fallback : (String → String) → String → String
permission_group_fallback to_upper prefix =
    if prefix == "org"
    then "Organization"
    else if prefix == "ws"
    then "Workspace"
    else if prefix == "wsfile"
    then "Workspace Files"
    else if prefix == "env"
    then "Environment"
    else if prefix == "conn"
    then "Connection"
    else if prefix == "policy"
    then "Policy"
    else to_upper prefix

-- A policy may be managed, which is that there is no message, exactly if the user has each of the two
-- protected permissions that the policy's role grants.
pub protected_org_policy_message-none :
    (role effective : Option (List String))
    → (protected_org_policy_message role effective ≡ none) ↔ (
        All
          (λ item. has_permission role item ≡ true → has_permission effective item ≡ true)
          protected_org_policy_permissions)
unfolding protected_org_policy_message
protected_org_policy_message-none role effective =
    (λ h. (λ k. ground arith, (λ k. ground arith, tt)), λ (a, (b, _)). ground (arith, a, b))
