-- ===== src/Reconciliation.antt =====
-- na_sso/reconciliation.py: what an account should be on a target against what was observed there. A set
-- is the list of its members.
pub mod Report
pub mod Sync
pub mod Runs
pub mod Approval
pub mod Preview
mod Examples
use na_sso.Prelude.{
  ℕ, String, Bool, true, false, not, ◌&&◌, ◌||◌, Option, none, some, is_some, List, [], ◌∷◌, ◌++◌,
  any, all, map, str_eq, str_append, if◌then◌else◌,
}
use Prim.Native.Nat.{Ordering}
use Prim.Native.String.{compare}
use na_sso.Lifecycle.Values.{DesiredAction, is_delete}
use na_sso.Models.{AccountStatus, active, disabled, ManagedUser}

pub data DriftState : Type 0 where
  match drift unknown unsupported : DriftState

pub data ReconciliationStatus : Type 0 where
  in_sync drifted unknown : ReconciliationStatus

pub data ReconciliationField : Type 0 where
  identity display_name email status memberships public_key : ReconciliationField

pub record InspectionCapabilities : Type 0 where
  pub display_name : Bool
  pub email : Bool
  pub status : Bool
  pub memberships : Bool
  pub public_key : Bool
  pub memberships_exact : Bool

pub record RemoteIdentitySnapshot : Type 0 where
  pub present : Option Bool
  pub username : Option String
  pub display_name : Option String
  pub email : Option String
  pub status : Option String
  pub memberships : Option (List String)
  pub public_key_fingerprints : Option (List String)

pub record FieldComparison : Type 0 where
  pub field : ReconciliationField
  pub state : DriftState
  pub desired : Option String
  pub actual : Option String
  pub detail : String

pub record ReconciliationReport : Type 0 where
  pub target_id : String
  pub target_name : String
  pub subject : String
  pub fields : List FieldComparison
  pub detail : String

abbrev pub is_drift : DriftState → Bool
is_drift drift = true
is_drift _ = false

abbrev pub is_unknown : DriftState → Bool
is_unknown DriftState.unknown = true
is_unknown _ = false

-- `ReconciliationReport.status`
unfoldable pub report_status : ReconciliationReport → ReconciliationStatus
report_status report =
    if any (λ item. is_drift item.state) report.fields
    then drifted
    else if any (λ item. is_unknown item.state) report.fields
    then ReconciliationStatus.unknown
    else in_sync

-- `mark_unsupported_operation`
unfoldable pub marked : String → FieldComparison → FieldComparison
marked limitation item =
    if is_drift item.state then record item { state = unsupported; detail = limitation } else item

abbrev joined : String → String → String
joined a b = if str_eq a "" then b else str_append a (str_append " " b)

unfoldable pub mark_unsupported_operation : ReconciliationReport → String → ReconciliationReport
unfolding marked
mark_unsupported_operation report detail =
    let limitation = str_append "Repair unsupported: " detail in
    if any (λ item. is_drift item.state) report.fields
    then record report {
      fields = map (marked limitation) report.fields;
      detail = joined report.detail limitation;
    }
    else report

-- `_display` of a text, and of a set.
unfoldable pub display_text : String → String
display_text value = if str_eq value "" then "none" else value

insert_text : String → List String → List String
insert_text a [] = a ∷ []
insert_text a (b ∷ rest) =
    let later = insert_text a rest in
    elim (compare a b) [ Ordering.gt ↦ b ∷ later | _ ↦ a ∷ b ∷ rest ]

sorted : List String → List String
sorted [] = []
sorted (a ∷ rest) = insert_text a (sorted rest)

comma_joined : List String → String
comma_joined [] = ""
comma_joined (a ∷ []) = a
comma_joined (a ∷ b ∷ rest) = str_append a (str_append ", " (comma_joined (b ∷ rest)))

unfoldable pub display_set : List String → String
unfolding sorted insert_text comma_joined
display_set value = display_text (comma_joined (sorted value))

-- Membership and equality of sets.
abbrev pub issubset : List String → List String → Bool
issubset a b = all (λ item. any (str_eq item) b) a

abbrev pub same_set : List String → List String → Bool
same_set a b = issubset a b && issubset b a

abbrev pub unsupported_field : ReconciliationField → String → FieldComparison
unsupported_field field detail = record {
  field = field;
  state = unsupported;
  desired = none;
  actual = none;
  detail = detail;
}

abbrev pub not_exposed : String
not_exposed = "Target does not expose this field."

abbrev pub unknown_field : ReconciliationField → String → String → FieldComparison
unknown_field field desired detail = record {
  field = field;
  state = DriftState.unknown;
  desired = some desired;
  actual = none;
  detail = detail;
}

abbrev pub state_of : Bool → DriftState
state_of same = if same then match else drift

abbrev pub compared : ReconciliationField → Bool → String → String → String → FieldComparison
compared field same desired actual detail = record {
  field = field;
  state = state_of same;
  desired = some desired;
  actual = some actual;
  detail = detail;
}

-- `_compare` of two texts, and of two sets.
abbrev pub compare_text : ReconciliationField → String → String → FieldComparison
compare_text field desired actual =
    compared field (str_eq desired actual) (display_text desired) (display_text actual) ""

abbrev pub compare_sets : ReconciliationField → List String → List String → FieldComparison
compare_sets field desired actual =
    compared field (same_set desired actual) (display_set desired) (display_set actual) ""

abbrev pub is_present : Option Bool → Bool
is_present (some true) = true
is_present _ = false

-- The identity of an account that should be there, and of one that should not.
abbrev pub present_identity : String → Option String → FieldComparison
present_identity username none =
    unknown_field identity (display_text username) "Remote username could not be observed."
present_identity username (some remote) = compare_text identity username remote

abbrev pub desired_identity : String → Option Bool → Option String → FieldComparison
desired_identity username none remote =
    unknown_field identity (display_text username) "Remote identity could not be read."
desired_identity username (some false) remote = compare_text identity username "absent"
desired_identity username (some true) remote = present_identity username remote

abbrev pub absent_identity : Option Bool → FieldComparison
absent_identity none = unknown_field identity "absent" "Remote identity could not be read."
absent_identity (some true) = compare_text identity "absent" "present"
absent_identity (some false) = compare_text identity "absent" "absent"

-- A field of an account that should be there, by the support and the observation.
abbrev pub observed_text : ReconciliationField → String → Option String → FieldComparison
observed_text field desired none =
    unknown_field field (display_text desired) "Remote field could not be observed."
observed_text field desired (some actual) = compare_text field desired actual

abbrev pub text_field :
    ReconciliationField → Bool → Option Bool → String → Option String → FieldComparison
text_field field supported present desired actual =
    if not supported
    then unsupported_field field not_exposed
    else observed_text field desired (if is_present present then actual else none)

abbrev pub membership_match : Bool → List String → List String → Bool
membership_match exact required actual =
    if exact then same_set actual required else issubset required actual

abbrev pub observed_memberships : Bool → List String → Option (List String) → FieldComparison
observed_memberships exact required none =
    unknown_field memberships (display_set required) "Remote memberships could not be observed."
observed_memberships exact required (some actual) =
    let same = membership_match exact required actual in
    compared memberships same (display_set required) (display_set actual)
      (if same && not exact then "Additional memberships are retained." else "")

abbrev pub membership_field :
    Bool → Bool → Option Bool → List String → Option (List String) → FieldComparison
membership_field supported exact present required actual =
    if not supported
    then unsupported_field memberships not_exposed
    else observed_memberships exact required (if is_present present then actual else none)

abbrev pub observed_keys : List String → Option (List String) → FieldComparison
observed_keys desired none =
    unknown_field public_key (display_set desired) "Remote key state could not be observed."
observed_keys desired (some actual) = compare_sets public_key desired actual

abbrev pub key_field : Bool → Option Bool → List String → Option (List String) → FieldComparison
key_field supported present desired actual =
    if not supported
    then unsupported_field public_key not_exposed
    else observed_keys desired (if is_present present then actual else none)
