-- ===== src/Assignments/Exceptions.antt =====
-- na_sso/assignments.py: `record_selected_target_exceptions`.
use na_sso.Prelude.{
  String, Bool, true, false, not, ◌&&◌, Option, none, some, is_some, List, [], ◌∷◌, ◌++◌, map,
  str_eq, if◌then◌else◌,
}
use na_sso.Assignments.{
  AssignmentMode, inherit, include, exclude, UserAssignmentException, Intents, intent, contains,
}

-- The exception of a target, and writes to it.
unfoldable pub find_exception :
    String → List UserAssignmentException → Option UserAssignmentException
find_exception target [] = none
find_exception target (e ∷ rest) =
    if str_eq e.target_id target then some e else find_exception target rest

unfoldable pub put_exception :
    UserAssignmentException → List UserAssignmentException → List UserAssignmentException
put_exception e [] = e ∷ []
put_exception e (old ∷ rest) =
    let later = put_exception e rest in
    if str_eq old.target_id e.target_id then e ∷ rest else old ∷ later

unfoldable pub delete_exception :
    String → List UserAssignmentException → List UserAssignmentException
delete_exception target [] = []
delete_exception target (e ∷ rest) =
    let later = delete_exception target rest in
    if str_eq e.target_id target then later else e ∷ later

abbrev pub desired_mode : Bool → Bool → AssignmentMode
desired_mode is_selected is_base =
    if is_selected && not is_base
    then include
    else if not is_selected && is_base
    then exclude
    else inherit

abbrev pub is_inherit : AssignmentMode → Bool
is_inherit inherit = true
is_inherit _ = false

abbrev pub is_empty : List String → Bool
is_empty [] = true
is_empty (item ∷ rest) = false

abbrev pub new_exception : String → String → AssignmentMode → UserAssignmentException
new_exception actor target mode = record {
  target_id = target;
  assignment_mode = mode;
  add_memberships = [];
  remove_memberships = [];
  updated_by = actor;
}

-- The exception that a target is left with.
abbrev pub settle :
    String
    → String
    → AssignmentMode
    → Option UserAssignmentException
    → Option UserAssignmentException
settle actor target mode none =
    if is_inherit mode then none else some (new_exception actor target mode)
settle actor target mode (some e) =
    if is_inherit mode && is_empty e.add_memberships && is_empty e.remove_memberships
    then none
    else some (record e { assignment_mode = mode; updated_by = actor })

abbrev pub write :
    String
    → Option UserAssignmentException
    → List UserAssignmentException
    → List UserAssignmentException
write target none exceptions = delete_exception target exceptions
write target (some e) exceptions = put_exception e exceptions

abbrev pub mode_for : List String → Intents → String → AssignmentMode
mode_for selected base target =
    desired_mode (contains selected target) (is_some (intent target base))

-- The loop over the targets. `existing` is read before it.
unfoldable pub settle_all :
    String
    → List String
    → Intents
    → List UserAssignmentException
    → List String
    → List UserAssignmentException
    → List UserAssignmentException
settle_all actor selected base existing [] exceptions = exceptions
settle_all actor selected base existing (target ∷ rest) exceptions =
    settle_all actor selected base existing rest (
      write target
        (settle actor target (mode_for selected base target) (find_exception target existing))
        exceptions)

-- A set has each member once.
unfoldable pub distinct : List String → List String
distinct [] = []
distinct (a ∷ rest) = let later = distinct rest in if contains later a then later else a ∷ later

-- The order in which the loop takes the targets is that of this list.
abbrev pub touched : List String → Intents → List UserAssignmentException → List String
touched selected base exceptions =
    distinct (map (λ i. i.0) base ++ (selected ++ map (λ e. e.target_id) exceptions))

abbrev pub record_in :
    String
    → List String
    → Option Intents
    → List UserAssignmentException
    → List UserAssignmentException
record_in actor selected none exceptions = exceptions
record_in actor selected (some base) exceptions =
    settle_all actor selected base exceptions (touched selected base exceptions) exceptions

unfoldable pub record_selected_target_exceptions :
    String
    → List String
    → Option Intents
    → List UserAssignmentException
    → List UserAssignmentException
unfolding settle_all distinct
record_selected_target_exceptions actor selected profile exceptions =
    record_in actor selected profile exceptions
