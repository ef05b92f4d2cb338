-- ===== src/Settings/Patching.antt =====
-- What the patch of the settings form does to the overrides it was made from.
use sqlwarden.Settings.{
  RuntimeSettingsFormState, OrganizationRuntimeOverrideValues, OrganizationRuntimeSettings,
  OrganizationRuntimeSettingsPatch, OverrideFieldState, PatchField, omitted, reset, set,
  patch_field, build_runtime_settings_patch, has_keys, has_runtime_settings_changes, is_key,
  field_state, runtime_settings_form_state, bool_eq, history_eq, favorites_eq,
}
use sqlwarden.Common.{
  ◌≡◌, refl, ◌↔◌, Option, none, some, false, if◌then◌else◌, Eq, arith, nat_eq, ◌||◌, Bool,
}

-- The overrides that the form shows.
unfoldable pub wanted_field : {A : Type 0} → OverrideFieldState A → Option A
wanted_field form = if form.overridden then some form.value else none

unfoldable pub wanted : RuntimeSettingsFormState → OrganizationRuntimeOverrideValues
wanted f = record {
  query_max_result_rows = wanted_field f.query_max_result_rows;
  query_max_result_bytes = wanted_field f.query_max_result_bytes;
  exports_sync_max_bytes = wanted_field f.exports_sync_max_bytes;
  exports_background_max_bytes = wanted_field f.exports_background_max_bytes;
  schema_snapshot_freshness_seconds = wanted_field f.schema_snapshot_freshness_seconds;
  file_revisions_enabled = wanted_field f.file_revisions_enabled;
  file_revisions_keep_latest = wanted_field f.file_revisions_keep_latest;
  query_history_mode = wanted_field f.query_history_mode;
  query_history_retention_count = wanted_field f.query_history_retention_count;
  query_favorites_mode = wanted_field f.query_favorites_mode;
}

-- A patch as the server reads it: an absent key changes nothing, `null` inherits, a value overrides.
unfoldable pub apply_field : {A : Type 0} → PatchField A → Option A → Option A
apply_field omitted o = o
apply_field reset o = none
apply_field (set x) o = some x

unfoldable pub apply_patch :
    OrganizationRuntimeSettingsPatch
    → OrganizationRuntimeOverrideValues
    → OrganizationRuntimeOverrideValues
apply_patch p o = record {
  query_max_result_rows = apply_field p.query_max_result_rows o.query_max_result_rows;
  query_max_result_bytes = apply_field p.query_max_result_bytes o.query_max_result_bytes;
  exports_sync_max_bytes = apply_field p.exports_sync_max_bytes o.exports_sync_max_bytes;
  exports_background_max_bytes =
      apply_field p.exports_background_max_bytes o.exports_background_max_bytes;
  schema_snapshot_freshness_seconds =
      apply_field p.schema_snapshot_freshness_seconds o.schema_snapshot_freshness_seconds;
  file_revisions_enabled = apply_field p.file_revisions_enabled o.file_revisions_enabled;
  file_revisions_keep_latest =
      apply_field p.file_revisions_keep_latest o.file_revisions_keep_latest;
  query_history_mode = apply_field p.query_history_mode o.query_history_mode;
  query_history_retention_count =
      apply_field p.query_history_retention_count o.query_history_retention_count;
  query_favorites_mode = apply_field p.query_favorites_mode o.query_favorites_mode;
}

-- On one key: the patch leads to what is wanted, and is absent exactly when that is the old value.
module _ {A : Type 0} ⦃e : Eq A⦄ where
  apply_field-patch_field :
      (f : OverrideFieldState A) (o : Option A) → apply_field (patch_field f o) o ≡ wanted_field f
  unfolding apply_field patch_field wanted_field
  apply_field-patch_field f none = ground arith
  apply_field-patch_field f (some a) = ground (arith, e.test_iff a f.value)

  is_key-patch_field :
      (f : OverrideFieldState A) (o : Option A)
      → (is_key (patch_field f o) ≡ false) ↔ (wanted_field f ≡ o)
  unfolding is_key patch_field wanted_field
  is_key-patch_field f none = ground arith
  is_key-patch_field f (some a) = ground (arith, e.test_iff a f.value)

-- Applying the patch of a form to the overrides it was made from, an absent key changing nothing and
-- `null` inheriting, gives exactly the overrides that the form shows.
pub apply_patch-build_runtime_settings_patch :
    (form : RuntimeSettingsFormState) (original : OrganizationRuntimeOverrideValues)
    → apply_patch (build_runtime_settings_patch form original) original ≡ wanted form
unfolding apply_patch build_runtime_settings_patch wanted
apply_patch-build_runtime_settings_patch f o =
    rw
      (
        apply_field-patch_field f.query_max_result_rows o.query_max_result_rows,
        apply_field-patch_field f.query_max_result_bytes o.query_max_result_bytes,
        apply_field-patch_field f.exports_sync_max_bytes o.exports_sync_max_bytes,
        apply_field-patch_field f.exports_background_max_bytes o.exports_background_max_bytes,
        apply_field-patch_field f.schema_snapshot_freshness_seconds
            o.schema_snapshot_freshness_seconds,
        apply_field-patch_field f.file_revisions_enabled o.file_revisions_enabled,
        apply_field-patch_field f.file_revisions_keep_latest o.file_revisions_keep_latest,
        apply_field-patch_field f.query_history_mode o.query_history_mode,
        apply_field-patch_field f.query_history_retention_count o.query_history_retention_count,
        apply_field-patch_field f.query_favorites_mode o.query_favorites_mode,
      )
      refl

-- A field that shows what it was loaded from.
wanted_field-field_state : {A : Type 0} (o : Option A) (d : A) → wanted_field (field_state o d) ≡ o
unfolding wanted_field field_state
wanted_field-field_state none d = refl
wanted_field-field_state (some a) d = refl

-- A disjunction of ten keys, one key after the other.
no_key :
    {A : Type 0} ⦃e : Eq A⦄ (f : OverrideFieldState A) (o : Option A) (rest : Bool) {R : Type 0}
    → ((rest ≡ false) ↔ R)
    → ((rest || is_key (patch_field f o)) ≡ false) ↔ (R × (wanted_field f ≡ o))
no_key f o rest h = ground (arith, is_key-patch_field f o, h)

-- The form has no changes to send exactly if it shows the overrides that are stored.
pub has_runtime_settings_changes-wanted :
    (form : RuntimeSettingsFormState) (original : OrganizationRuntimeOverrideValues)
    → (has_runtime_settings_changes form original ≡ false) ↔ (wanted form ≡ original)
unfolding has_runtime_settings_changes has_keys build_runtime_settings_patch wanted
has_runtime_settings_changes-wanted f o =
    let k0 = is_key-patch_field f.query_max_result_rows o.query_max_result_rows in
    let k1 = no_key f.query_max_result_bytes o.query_max_result_bytes _ k0 in
    let k2 = no_key f.exports_sync_max_bytes o.exports_sync_max_bytes _ k1 in
    let k3 = no_key f.exports_background_max_bytes o.exports_background_max_bytes _ k2 in
    let k4 = no_key f.schema_snapshot_freshness_seconds o.schema_snapshot_freshness_seconds _ k3 in
    let k5 = no_key f.file_revisions_enabled o.file_revisions_enabled _ k4 in
    let k6 = no_key f.file_revisions_keep_latest o.file_revisions_keep_latest _ k5 in
    let k7 = no_key f.query_history_mode o.query_history_mode _ k6 in
    let k8 = no_key f.query_history_retention_count o.query_history_retention_count _ k7 in
    let k9 = no_key f.query_favorites_mode o.query_favorites_mode _ k8 in
    (
      λ h.
          let (((((((((e0, e1), e2), e3), e4), e5), e6), e7), e8), e9) = k9.0 h in
          rw (e0, e1, e2, e3, e4, e5, e6, e7, e8, e9) refl,
      λ h. k9.1 (ground (arith, h)),
    )

pub wanted-runtime_settings_form_state :
    (s : OrganizationRuntimeSettings) → wanted (runtime_settings_form_state s) ≡ s.overrides
unfolding wanted runtime_settings_form_state field_state wanted_field
wanted-runtime_settings_form_state s = ground arith

-- A form that was just loaded has no changes.
pub has_runtime_settings_changes-runtime_settings_form_state :
    (s : OrganizationRuntimeSettings)
    → has_runtime_settings_changes (runtime_settings_form_state s) s.overrides ≡ false
has_runtime_settings_changes-runtime_settings_form_state s =
    (has_runtime_settings_changes-wanted _ _).1 (wanted-runtime_settings_form_state s)
