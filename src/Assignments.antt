-- ===== src/Assignments.antt =====
-- na_sso/assignments.py: the targets and memberships that an account is to have, by its profile and its
-- exceptions. A dictionary is a list of keys and values, and a set is the list of its members.
pub mod Exceptions
pub mod Handlers
pub mod Lookup
pub mod Resolve
pub mod Round
pub mod Unconfigured
mod Examples
use na_sso.Prelude.{
  String, Bool, true, false, not, ◌&&◌, ◌||◌, Option, none, some, is_some, List, [], ◌∷◌, ◌++◌, any,
  filter, map, str_eq, if◌then◌else◌,
}
use na_sso.Models.{SyncState, ManagedUser}
use na_sso.Connectors.{Connector, connector_for}

-- `assignment_mode`
pub data AssignmentMode : Type 0 where
  inherit include exclude : AssignmentMode

pub record UserAssignmentException : Type 0 where
  pub target_id : String
  pub assignment_mode : AssignmentMode
  pub add_memberships : List String
  pub remove_memberships : List String
  pub updated_by : String

abbrev pub Intents : Type 0
Intents = List (String × List String)

unfoldable pub intent : String → Intents → Option (List String)
intent target [] = none
intent target ((t, memberships) ∷ rest) =
    if str_eq t target then some memberships else intent target rest

unfoldable pub put_intent : String → List String → Intents → Intents
put_intent target memberships [] = (target, memberships) ∷ []
put_intent target memberships ((t, old) ∷ rest) =
    let later = put_intent target memberships rest in
    if str_eq t target then (t, memberships) ∷ rest else (t, old) ∷ later

unfoldable pub drop_intent : String → Intents → Intents
drop_intent target [] = []
drop_intent target ((t, memberships) ∷ rest) =
    let later = drop_intent target rest in
    if str_eq t target then later else (t, memberships) ∷ later

abbrev pub contains : List String → String → Bool
contains items item = any (str_eq item) items

-- The set with the added members and without the removed ones.
unfoldable pub changed_memberships : List String → List String → List String → List String
changed_memberships memberships added removed =
    filter (λ item. not (contains removed item))
      (memberships ++ filter (λ item. not (contains memberships item)) added)

module _ (connectors : List Connector) where
  abbrev pub default_intent : String → Option Connector → Intents → Intents
  default_intent target none intents = intents
  default_intent target (some c) intents = put_intent target c.default_memberships intents

  -- The exception on a target that is in the intents.
  abbrev pub adjust : UserAssignmentException → Option (List String) → Intents → Intents
  adjust e none intents = intents
  adjust e (some memberships) intents =
      put_intent e.target_id
        (changed_memberships memberships e.add_memberships e.remove_memberships) intents

  abbrev pub included : UserAssignmentException → Intents → Intents
  included e intents =
      if is_some (intent e.target_id intents)
      then intents
      else default_intent e.target_id (connector_for connectors e.target_id) intents

  abbrev pub apply_mode : AssignmentMode → UserAssignmentException → Intents → Intents
  apply_mode exclude e intents = drop_intent e.target_id intents
  apply_mode include e intents =
      adjust e (intent e.target_id (included e intents)) (included e intents)
  apply_mode inherit e intents = adjust e (intent e.target_id intents) intents

  unfoldable pub apply_exception : UserAssignmentException → Intents → Intents
  apply_exception e intents = apply_mode e.assignment_mode e intents

  unfoldable pub apply_exceptions : List UserAssignmentException → Intents → Intents
  unfolding apply_exception
  apply_exceptions [] intents = intents
  apply_exceptions (e ∷ rest) intents = apply_exceptions rest (apply_exception e intents)

  -- Without a profile, the assigned rows of configured targets.
  abbrev pub row_intents : SyncState → Option Connector → Intents → Intents
  row_intents row none later = later
  row_intents row (some c) later =
      if row.assigned && not row.retired then (row.target, c.default_memberships) ∷ later else later

  unfoldable pub assigned_intents : List SyncState → Intents
  assigned_intents [] = []
  assigned_intents (row ∷ rest) =
      row_intents row (connector_for connectors row.target) (assigned_intents rest)

  abbrev pub base_intents : Option Intents → List SyncState → Intents
  base_intents none rows = assigned_intents rows
  base_intents (some profile) rows = profile

  -- The profile is the target map of the account's profile, if it has one.
  unfoldable pub resolve_assignment_intents :
      Option Intents → List UserAssignmentException → List SyncState → Intents
  unfolding apply_exceptions assigned_intents
  resolve_assignment_intents profile exceptions rows =
      apply_exceptions exceptions (base_intents profile rows)
