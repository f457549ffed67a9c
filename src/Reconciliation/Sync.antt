-- ===== src/Reconciliation/Sync.antt =====
-- What a report that is in sync says of the target, and what a report becomes that cannot be repaired.
use na_sso.Prelude.{
  String, ◌≡◌, ◌≢◌, refl, ◌∙◌, Bool, true, false, not, Option, none, some, List, [], ◌∷◌, any, map,
  str_eq, str_append, eq_iff, ◌↔◌, arith, All, if◌then◌else◌,
}
use na_sso.Models.{ManagedUser}
use na_sso.Reconciliation.{
  ReconciliationField, display_name, email, status, InspectionCapabilities, RemoteIdentitySnapshot,
  FieldComparison, ReconciliationReport, ReconciliationStatus, in_sync, drifted, is_drift,
  is_unknown, report_status, marked, mark_unsupported_operation, desired_identity, text_field,
  membership_field, key_field, issubset, same_set,
}
use na_sso.Reconciliation.Report.{
  desired_present, status_text, shown_name, present_fields, absent_fields, compare_snapshot,
}

abbrev IsSettled : FieldComparison → Type 0
IsSettled item = (is_drift item.state ≡ false) × (is_unknown item.state ≡ false)

fields-IsSettled :
    (l : List FieldComparison)
    → any (λ item. is_drift item.state) l ≡ false
    → any (λ item. is_unknown item.state) l ≡ false
    → All IsSettled l
fields-IsSettled [] d u = tt
fields-IsSettled (item ∷ l) d u =
    ((ground arith, ground arith), fields-IsSettled l (ground arith) (ground arith))

in_sync-IsSettled :
    (report : ReconciliationReport) → report_status report ≡ in_sync → All IsSettled report.fields
unfolding report_status
in_sync-IsSettled report h = fields-IsSettled report.fields (ground arith) (ground arith)

abbrev pub Observed : Bool → String → Option String → Type 0
Observed supported desired actual = supported ≡ true → actual ≡ some desired

text_field-Observed :
    (field : ReconciliationField) (supported : Bool) (present : Option Bool) (desired : String)
    (actual : Option String)
    → IsSettled (text_field field supported present desired actual)
    → Observed supported desired actual
text_field-Observed field supported (some true) desired (some a) h =
    ground (arith, eq_iff desired a)
text_field-Observed field supported (some true) desired none h = ground arith
text_field-Observed field supported (some false) desired actual h = ground arith
text_field-Observed field supported none desired actual h = ground arith

identity-same :
    (username : String) (present : Option Bool) (remote : Option String)
    → username ≢ "absent"
    → IsSettled (desired_identity username present remote)
    → (present ≡ some true) × (remote ≡ some username)
identity-same username none remote n h = ground arith
identity-same username (some false) remote n h = ground (arith, eq_iff username "absent")
identity-same username (some true) none n h = ground arith
identity-same username (some true) (some r) n h = ground (arith, eq_iff username r)

-- All the required memberships were seen, and no others where they are to be exact.
abbrev pub HasMembers : Bool → List String → Option (List String) → Type 0
HasMembers exact required actual =
    (seen : List String) × (actual ≡ some seen)
    × (issubset required seen ≡ true)
    × (exact ≡ true → issubset seen required ≡ true)

memberships-read :
    (supported exact : Bool) (present : Option Bool) (required : List String)
    (actual : Option (List String))
    → IsSettled (membership_field supported exact present required actual)
    → supported ≡ true
    → HasMembers exact required actual
memberships-read supported true (some true) required (some a) h s =
    (a, refl, ground arith, λ e. ground arith)
memberships-read supported false (some true) required (some a) h s =
    (a, refl, ground arith, λ e. cc)
memberships-read supported exact (some true) required none h s = absurd (ground arith)
memberships-read supported exact (some false) required actual h s = absurd (ground arith)
memberships-read supported exact none required actual h s = absurd (ground arith)

keys-read :
    (supported : Bool) (present : Option Bool) (desired : List String)
    (actual : Option (List String))
    → IsSettled (key_field supported present desired actual)
    → supported ≡ true
    → (seen : List String) × (actual ≡ some seen) × (same_set desired seen ≡ true)
keys-read supported (some true) desired (some a) h s = (a, refl, ground arith)
keys-read supported (some true) desired none h s = absurd (ground arith)
keys-read supported (some false) desired actual h s = absurd (ground arith)
keys-read supported none desired actual h s = absurd (ground arith)

chosen-IsSettled :
    (test : Bool) (l m : List FieldComparison)
    → test ≡ true
    → All IsSettled (if test then l else m)
    → All IsSettled l
chosen-IsSettled true l m e h = h
chosen-IsSettled false l m e h = cc

-- The target agrees with the account in everything that it lets be read.
pub record Agrees (user : ManagedUser) (fingerprints : List String) (c : InspectionCapabilities)
    (snapshot : RemoteIdentitySnapshot) (required : List String) : Type 0 where
  pub there : snapshot.present ≡ some true
  pub same_username : snapshot.username ≡ some user.username
  pub same_name : Observed c.display_name (shown_name user) snapshot.display_name
  pub same_email : Observed c.email user.email snapshot.email
  pub same_status : Observed c.status (status_text user.status) snapshot.status
  pub members : c.memberships ≡ true → HasMembers c.memberships_exact required snapshot.memberships
  pub keys :
      c.public_key ≡ true
      → (seen : List String) × (snapshot.public_key_fingerprints ≡ some seen)
        × (same_set fingerprints seen ≡ true)

-- A report that is in sync, on an account that should be there and is not named "absent", says that
-- the target has the account under its name, and that each field which the target lets be read was
-- read and is as wanted: the shown name, the address, the status, the keys, and the memberships, of
-- which all the required ones are there and, where they are to be exact, no others.
pub compare_snapshot-Agrees :
    (target_id target_name : String) (user : ManagedUser) (fingerprints : List String)
    (c : InspectionCapabilities) (snapshot : RemoteIdentitySnapshot) (required : List String)
    → desired_present user ≡ true
    → user.username ≢ "absent"
    → report_status (compare_snapshot target_id target_name user fingerprints c snapshot required)
      ≡ in_sync
    → Agrees user fingerprints c snapshot required
unfolding compare_snapshot
compare_snapshot-Agrees target_id target_name user fingerprints c snapshot required wanted n h =
    let report = compare_snapshot target_id target_name user fingerprints c snapshot required in
    let (i, (dn, (em, (st, (me, (ke, end)))))) =
      chosen-IsSettled (desired_present user)
        (present_fields target_id target_name user fingerprints c snapshot required)
        (absent_fields target_id target_name user fingerprints c snapshot) wanted
        (in_sync-IsSettled report h) in
    let (there, name) = identity-same user.username snapshot.present snapshot.username n i in
    record {
      there = there;
      same_username = name;
      same_name =
          text_field-Observed display_name c.display_name snapshot.present (shown_name user)
            snapshot.display_name dn;
      same_email = text_field-Observed email c.email snapshot.present user.email snapshot.email em;
      same_status =
          text_field-Observed status c.status snapshot.present (status_text user.status)
            snapshot.status st;
      members =
          memberships-read c.memberships c.memberships_exact snapshot.present required
            snapshot.memberships me;
      keys =
          keys-read c.public_key snapshot.present fingerprints snapshot.public_key_fingerprints ke;
    }

module _ (present : Option Bool) (missing : present ≡ some false) where
  text_field-missing :
      (field : ReconciliationField) (supported : Bool) (desired : String) (actual : Option String)
      → is_drift (text_field field supported present desired actual).state ≡ false
  text_field-missing field supported desired actual = ground arith

  membership_field-missing :
      (supported exact : Bool) (required : List String) (actual : Option (List String))
      → is_drift (membership_field supported exact present required actual).state ≡ false
  membership_field-missing supported exact required actual = ground arith

  key_field-missing :
      (supported : Bool) (desired : List String) (actual : Option (List String))
      → is_drift (key_field supported present desired actual).state ≡ false
  key_field-missing supported desired actual = ground arith

  identity-missing :
      (username : String) (remote : Option String)
      → is_drift (desired_identity username present remote).state ≡ not (str_eq username "absent")
  identity-missing username remote = ground arith

-- Only the first of the six fields can show drift.
first_only :
    (i d e t m k : FieldComparison)
    → is_drift d.state ≡ false
    → is_drift e.state ≡ false
    → is_drift t.state ≡ false
    → is_drift m.state ≡ false
    → is_drift k.state ≡ false
    → any (λ item. is_drift item.state) (i ∷ d ∷ e ∷ t ∷ m ∷ k ∷ []) ≡ is_drift i.state
first_only i d e t m k hd he ht hm hk = rw (hd, he, ht, hm, hk) (ground arith)

any-chosen :
    (test : Bool) (l m : List FieldComparison)
    → test ≡ true
    → any (λ item. is_drift item.state) (if test then l else m)
      ≡ any (λ item. is_drift item.state) l
any-chosen true l m e = refl
any-chosen false l m e = cc

module _ (target_id target_name : String) (user : ManagedUser) (fingerprints : List String)
    (c : InspectionCapabilities) (snapshot : RemoteIdentitySnapshot) (required : List String)
    (wanted : desired_present user ≡ true) (missing : snapshot.present ≡ some false) where
  drift-missing :
      any
        (λ item. is_drift item.state)
        (compare_snapshot target_id target_name user fingerprints c snapshot required).fields
      ≡ not (str_eq user.username "absent")
  unfolding compare_snapshot
  drift-missing =
      any-chosen (desired_present user)
        (present_fields target_id target_name user fingerprints c snapshot required)
        (absent_fields target_id target_name user fingerprints c snapshot) wanted
      ∙ first_only (desired_identity user.username snapshot.present snapshot.username)
          (text_field display_name c.display_name snapshot.present (shown_name user)
            snapshot.display_name)
          (text_field email c.email snapshot.present user.email snapshot.email)
          (text_field status c.status snapshot.present (status_text user.status) snapshot.status)
          (membership_field c.memberships c.memberships_exact snapshot.present required
            snapshot.memberships)
          (key_field c.public_key snapshot.present fingerprints snapshot.public_key_fingerprints)
          (text_field-missing snapshot.present missing display_name c.display_name (shown_name user)
            snapshot.display_name)
          (text_field-missing snapshot.present missing email c.email user.email snapshot.email)
          (text_field-missing snapshot.present missing status c.status (status_text user.status)
            snapshot.status)
          (membership_field-missing snapshot.present missing c.memberships c.memberships_exact
            required snapshot.memberships)
          (key_field-missing snapshot.present missing c.public_key fingerprints
            snapshot.public_key_fingerprints)
      ∙ identity-missing snapshot.present missing user.username snapshot.username

  -- The report on an account that should be there and that the target does not have shows drift, except
  -- exactly if the account is named "absent".
  pub compare_snapshot-missing :
      (report_status (compare_snapshot target_id target_name user fingerprints c snapshot required)
        ≡ drifted)
      ↔ (user.username ≢ "absent")
  unfolding report_status
  compare_snapshot-missing =
      let e = drift-missing in
      (
        λ d same. ground (arith, eq_iff user.username "absent"),
        λ n. ground (arith, eq_iff user.username "absent"),
      )

all_unmarked :
    (limitation : String) (l : List FieldComparison)
    → (any (λ item. is_drift item.state) (map (marked limitation) l) ≡ false)
      × (any (λ item. is_unknown item.state) (map (marked limitation) l)
          ≡ any (λ item. is_unknown item.state) l)
unfolding marked
all_unmarked limitation [] = (refl, refl)
all_unmarked limitation (item ∷ l) = ground (arith, all_unmarked limitation l)

-- What a report becomes whose repair the target does not support: it shows no drift any more, and is
-- unknown exactly if some field of it was unknown, and otherwise in sync.
pub mark_unsupported_operation-status :
    (report : ReconciliationReport) (detail : String)
    → report_status (mark_unsupported_operation report detail) ≡ (
        if any (λ item. is_unknown item.state) report.fields
        then ReconciliationStatus.unknown
        else in_sync)
unfolding mark_unsupported_operation report_status
mark_unsupported_operation-status report detail =
    let limitation = str_append "Repair unsupported: " detail in
    ground (arith, all_unmarked limitation report.fields)
