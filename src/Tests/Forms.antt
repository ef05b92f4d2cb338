-- ===== src/Tests/Forms.antt =====
-- The settings form.
use sqlwarden.Settings.Patching.{
  apply_patch, wanted, apply_patch-build_runtime_settings_patch,
  has_runtime_settings_changes-wanted,
}
use sqlwarden.Settings.{
  RuntimeSettingsFormState, OrganizationRuntimeOverrideValues, OrganizationRuntimeEffectiveValues,
  QueryHistoryMode, QueryFavoritesMode, build_runtime_settings_patch, has_runtime_settings_changes,
  runtime_settings_form_state,
}
use sqlwarden.Common.{none, some, true, false, ◌≡◌, ◌↔◌}

abbrev stored : OrganizationRuntimeOverrideValues
stored = record {
  query_max_result_rows = some 500;
  query_max_result_bytes = none;
  exports_sync_max_bytes = none;
  exports_background_max_bytes = some 4096;
  schema_snapshot_freshness_seconds = none;
  file_revisions_enabled = some true;
  file_revisions_keep_latest = none;
  query_history_mode = some QueryHistoryMode.local;
  query_history_retention_count = none;
  query_favorites_mode = none;
}

abbrev effective : OrganizationRuntimeEffectiveValues
effective = record {
  query_max_result_rows = 500;
  query_max_result_bytes = 1000;
  exports_sync_max_bytes = 1000;
  exports_background_max_bytes = 4096;
  schema_snapshot_freshness_seconds = 60;
  file_revisions_enabled = true;
  file_revisions_keep_latest = 10;
  query_history_mode = QueryHistoryMode.local;
  query_history_retention_count = 100;
  query_favorites_mode = QueryFavoritesMode.backend;
}

-- The rows are inherited again, and the history is turned off.
abbrev edited : RuntimeSettingsFormState
edited =
    let loaded =
      runtime_settings_form_state (record { overrides = stored; effective = effective }) in
    record loaded {
      query_max_result_rows = record { overridden = false; value = 500 };
      query_history_mode = record { overridden = true; value = QueryHistoryMode.off };
    }

apply_patch-build_runtime_settings_patch_example :
    apply_patch (build_runtime_settings_patch edited stored) stored ≡ wanted edited
apply_patch-build_runtime_settings_patch_example =
    apply_patch-build_runtime_settings_patch edited stored

has_runtime_settings_changes-wanted_example :
    (has_runtime_settings_changes edited stored ≡ false) ↔ (wanted edited ≡ stored)
has_runtime_settings_changes-wanted_example = has_runtime_settings_changes-wanted edited stored
