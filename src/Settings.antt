-- ===== src/Settings.antt =====
-- frontend/src/lib/api/runtime-settings-form.ts: the form of an organization's runtime settings, and
-- the patch that it sends. A key of the patch is absent, `null` or a value.
pub mod Patching
use sqlwarden.Common.{
  ℕ, Bool, true, false, Option, none, some, ◌==◌, nat_eq, Eq, option_beq, if◌then◌else◌, is_some,
  get_or_else, ◌||◌, ◌≡◌, ◌↔◌, refl, arith,
}

pub data QueryHistoryMode : Type 0 where
  backend local off : QueryHistoryMode

pub data QueryFavoritesMode : Type 0 where
  backend local off : QueryFavoritesMode

abbrev bool_beq : Bool → Bool → Bool
bool_beq true b = b
bool_beq false true = false
bool_beq false false = true

pub bool_beq_iff : (a b : Bool) → (bool_beq a b ≡ true) ↔ (a ≡ b)
bool_beq_iff true true = (λ h. refl, λ h. refl)
bool_beq_iff true false = (λ h. cc, λ h. cc)
bool_beq_iff false true = (λ h. cc, λ h. cc)
bool_beq_iff false false = (λ h. refl, λ h. refl)

instance abbrev pub bool_eq : Eq Bool
bool_eq = record { test = bool_beq; test_iff = bool_beq_iff }

abbrev history_beq : QueryHistoryMode → QueryHistoryMode → Bool
history_beq QueryHistoryMode.backend QueryHistoryMode.backend = true
history_beq QueryHistoryMode.local QueryHistoryMode.local = true
history_beq QueryHistoryMode.off QueryHistoryMode.off = true
history_beq a b = false

pub history_beq_iff : (a b : QueryHistoryMode) → (history_beq a b ≡ true) ↔ (a ≡ b)
history_beq_iff a b = ground arith

instance abbrev pub history_eq : Eq QueryHistoryMode
history_eq = record { test = history_beq; test_iff = history_beq_iff }

abbrev favorites_beq : QueryFavoritesMode → QueryFavoritesMode → Bool
favorites_beq QueryFavoritesMode.backend QueryFavoritesMode.backend = true
favorites_beq QueryFavoritesMode.local QueryFavoritesMode.local = true
favorites_beq QueryFavoritesMode.off QueryFavoritesMode.off = true
favorites_beq a b = false

pub favorites_beq_iff : (a b : QueryFavoritesMode) → (favorites_beq a b ≡ true) ↔ (a ≡ b)
favorites_beq_iff a b = ground arith

instance abbrev pub favorites_eq : Eq QueryFavoritesMode
favorites_eq = record { test = favorites_beq; test_iff = favorites_beq_iff }

pub record OverrideFieldState (A : Type 0) : Type 0 where
  pub overridden : Bool
  pub value : A

pub record RuntimeSettingsFormState : Type 0 where
  pub query_max_result_rows : OverrideFieldState ℕ
  pub query_max_result_bytes : OverrideFieldState ℕ
  pub exports_sync_max_bytes : OverrideFieldState ℕ
  pub exports_background_max_bytes : OverrideFieldState ℕ
  pub schema_snapshot_freshness_seconds : OverrideFieldState ℕ
  pub file_revisions_enabled : OverrideFieldState Bool
  pub file_revisions_keep_latest : OverrideFieldState ℕ
  pub query_history_mode : OverrideFieldState QueryHistoryMode
  pub query_history_retention_count : OverrideFieldState ℕ
  pub query_favorites_mode : OverrideFieldState QueryFavoritesMode

-- frontend/src/lib/api/types.ts
pub record OrganizationRuntimeOverrideValues : Type 0 where
  pub query_max_result_rows : Option ℕ
  pub query_max_result_bytes : Option ℕ
  pub exports_sync_max_bytes : Option ℕ
  pub exports_background_max_bytes : Option ℕ
  pub schema_snapshot_freshness_seconds : Option ℕ
  pub file_revisions_enabled : Option Bool
  pub file_revisions_keep_latest : Option ℕ
  pub query_history_mode : Option QueryHistoryMode
  pub query_history_retention_count : Option ℕ
  pub query_favorites_mode : Option QueryFavoritesMode

pub record OrganizationRuntimeEffectiveValues : Type 0 where
  pub query_max_result_rows : ℕ
  pub query_max_result_bytes : ℕ
  pub exports_sync_max_bytes : ℕ
  pub exports_background_max_bytes : ℕ
  pub schema_snapshot_freshness_seconds : ℕ
  pub file_revisions_enabled : Bool
  pub file_revisions_keep_latest : ℕ
  pub query_history_mode : QueryHistoryMode
  pub query_history_retention_count : ℕ
  pub query_favorites_mode : QueryFavoritesMode

-- The form reads neither the constraints nor the marks of remaining rows.
pub record OrganizationRuntimeSettings : Type 0 where
  pub overrides : OrganizationRuntimeOverrideValues
  pub effective : OrganizationRuntimeEffectiveValues

pub data PatchField (A : Type 0) : Type 0 where
  omitted reset : PatchField A
  set : A → PatchField A

pub record OrganizationRuntimeSettingsPatch : Type 0 where
  pub query_max_result_rows : PatchField ℕ
  pub query_max_result_bytes : PatchField ℕ
  pub exports_sync_max_bytes : PatchField ℕ
  pub exports_background_max_bytes : PatchField ℕ
  pub schema_snapshot_freshness_seconds : PatchField ℕ
  pub file_revisions_enabled : PatchField Bool
  pub file_revisions_keep_latest : PatchField ℕ
  pub query_history_mode : PatchField QueryHistoryMode
  pub query_history_retention_count : PatchField ℕ
  pub query_favorites_mode : PatchField QueryFavoritesMode

unfoldable pub field_state : {A : Type 0} → Option A → A → OverrideFieldState A
field_state override effective = record {
  overridden = is_some override;
  value = get_or_else override effective;
}

unfoldable pub runtime_settings_form_state : OrganizationRuntimeSettings → RuntimeSettingsFormState
runtime_settings_form_state settings =
    let o = settings.overrides in
    let e = settings.effective in
    record {
      query_max_result_rows = field_state o.query_max_result_rows e.query_max_result_rows;
      query_max_result_bytes = field_state o.query_max_result_bytes e.query_max_result_bytes;
      exports_sync_max_bytes = field_state o.exports_sync_max_bytes e.exports_sync_max_bytes;
      exports_background_max_bytes =
          field_state o.exports_background_max_bytes e.exports_background_max_bytes;
      schema_snapshot_freshness_seconds =
          field_state o.schema_snapshot_freshness_seconds e.schema_snapshot_freshness_seconds;
      file_revisions_enabled = field_state o.file_revisions_enabled e.file_revisions_enabled;
      file_revisions_keep_latest =
          field_state o.file_revisions_keep_latest e.file_revisions_keep_latest;
      query_history_mode = field_state o.query_history_mode e.query_history_mode;
      query_history_retention_count =
          field_state o.query_history_retention_count e.query_history_retention_count;
      query_favorites_mode = field_state o.query_favorites_mode e.query_favorites_mode;
    }

-- What `buildRuntimeSettingsPatch` does for each of the ten keys.
unfoldable pub patch_field :
    {A : Type 0} ⦃e : Eq A⦄ → OverrideFieldState A → Option A → PatchField A
patch_field form original =
    if form.overridden
    then if option_beq original (some form.value) then omitted else set form.value
    else if is_some original
    then reset
    else omitted

unfoldable pub build_runtime_settings_patch :
    RuntimeSettingsFormState → OrganizationRuntimeOverrideValues → OrganizationRuntimeSettingsPatch
build_runtime_settings_patch form original = record {
  query_max_result_rows = patch_field form.query_max_result_rows original.query_max_result_rows;
  query_max_result_bytes = patch_field form.query_max_result_bytes original.query_max_result_bytes;
  exports_sync_max_bytes = patch_field form.exports_sync_max_bytes original.exports_sync_max_bytes;
  exports_background_max_bytes =
      patch_field form.exports_background_max_bytes original.exports_background_max_bytes;
  schema_snapshot_freshness_seconds =
      patch_field form.schema_snapshot_freshness_seconds original.schema_snapshot_freshness_seconds;
  file_revisions_enabled = patch_field form.file_revisions_enabled original.file_revisions_enabled;
  file_revisions_keep_latest =
      patch_field form.file_revisions_keep_latest original.file_revisions_keep_latest;
  query_history_mode = patch_field form.query_history_mode original.query_history_mode;
  query_history_retention_count =
      patch_field form.query_history_retention_count original.query_history_retention_count;
  query_favorites_mode = patch_field form.query_favorites_mode original.query_favorites_mode;
}

unfoldable pub is_key : {A : Type 0} → PatchField A → Bool
is_key omitted = false
is_key reset = true
is_key (set x) = true

-- `Object.keys(patch).length > 0`.
unfoldable pub has_keys : OrganizationRuntimeSettingsPatch → Bool
has_keys p =
    is_key p.query_max_result_rows
    || is_key p.query_max_result_bytes
    || is_key p.exports_sync_max_bytes
    || is_key p.exports_background_max_bytes
    || is_key p.schema_snapshot_freshness_seconds
    || is_key p.file_revisions_enabled
    || is_key p.file_revisions_keep_latest
    || is_key p.query_history_mode
    || is_key p.query_history_retention_count
    || is_key p.query_favorites_mode

unfoldable pub has_runtime_settings_changes :
    RuntimeSettingsFormState → OrganizationRuntimeOverrideValues → Bool
has_runtime_settings_changes form original = has_keys (build_runtime_settings_patch form original)
