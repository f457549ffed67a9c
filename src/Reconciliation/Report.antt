-- ===== src/Reconciliation/Report.antt =====
-- na_sso/reconciliation.py: `compare_snapshot` and `unavailable_report`.
use na_sso.Prelude.{String, Bool, not, ◌&&◌, none, is_some, List, [], ◌∷◌, str_eq, if◌then◌else◌}
use na_sso.Lifecycle.Values.{is_delete}
use na_sso.Models.{AccountStatus, active, disabled, ManagedUser}
use na_sso.Reconciliation.{
  ReconciliationField, display_name, email, status, memberships, public_key, InspectionCapabilities,
  RemoteIdentitySnapshot, FieldComparison, ReconciliationReport, unsupported_field, not_exposed,
  desired_identity, absent_identity, text_field, membership_field, key_field,
}

unfoldable pub desired_present : ManagedUser → Bool
desired_present user = not (is_delete user.desired_action) && not (is_some user.deleted_at)

abbrev pub status_text : AccountStatus → String
status_text disabled = "disabled"
status_text active = "active"

abbrev pub shown_name : ManagedUser → String
shown_name user = if str_eq user.display_name "" then user.username else user.display_name

abbrev pub inapplicable : ReconciliationField → Bool → FieldComparison
inapplicable field supported =
    unsupported_field field
      (if supported then "Not applicable when the desired identity is absent." else not_exposed)

-- The fingerprints are those of the account's active SSH keys.
module _ (target_id target_name : String) (user : ManagedUser) (fingerprints : List String)
    (capabilities : InspectionCapabilities) where
  abbrev pub present_fields : RemoteIdentitySnapshot → List String → List FieldComparison
  present_fields snapshot required =
      desired_identity user.username snapshot.present snapshot.username
      ∷ text_field display_name capabilities.display_name snapshot.present (shown_name user)
          snapshot.display_name
      ∷ text_field email capabilities.email snapshot.present user.email snapshot.email
      ∷ text_field status capabilities.status snapshot.present (status_text user.status)
          snapshot.status
      ∷ membership_field capabilities.memberships capabilities.memberships_exact snapshot.present
          required snapshot.memberships
      ∷ key_field capabilities.public_key snapshot.present fingerprints
          snapshot.public_key_fingerprints
      ∷ []

  abbrev pub absent_fields : RemoteIdentitySnapshot → List FieldComparison
  absent_fields snapshot =
      absent_identity snapshot.present
      ∷ inapplicable display_name capabilities.display_name
      ∷ inapplicable email capabilities.email
      ∷ inapplicable status capabilities.status
      ∷ inapplicable memberships capabilities.memberships
      ∷ inapplicable public_key capabilities.public_key
      ∷ []

  unfoldable pub compare_snapshot : RemoteIdentitySnapshot → List String → ReconciliationReport
  unfolding desired_present
  compare_snapshot snapshot required = record {
    target_id = target_id;
    target_name = target_name;
    subject = user.username;
    fields =
        (if desired_present user then present_fields snapshot required else absent_fields snapshot);
    detail = "";
  }

  unfoldable pub unavailable_report : String → List String → ReconciliationReport
  unfolding compare_snapshot
  unavailable_report detail required =
      record (compare_snapshot
        (record {
          present = none;
          username = none;
          display_name = none;
          email = none;
          status = none;
          memberships = none;
          public_key_fingerprints = none;
        })
        required) { detail = detail }
