-- ===== src/Assignments/Round.antt =====
-- The exceptions that are recorded for a choice of targets resolve to that choice.
use na_sso.Prelude.{
  String, ◌≡◌, refl, sym, ap, subst, ◌∙◌, inl, inr, Bool, true, false, ◌&&◌, ◌||◌, Option, none,
  some, is_some, List, [], ◌∷◌, ◌++◌, map, str_eq, eq_iff, arith, Bool-cases, if◌then◌else◌,
}
use na_sso.Models.{SyncState}
use na_sso.Connectors.{Connector}
use na_sso.Assignments.{
  AssignmentMode, inherit, include, exclude, UserAssignmentException, Intents, intent, contains,
  resolve_assignment_intents,
}
use na_sso.Assignments.Exceptions.{
  find_exception, desired_mode, settle, write, mode_for, settle_all, distinct, touched,
  record_selected_target_exceptions, is_inherit, is_empty,
}
use na_sso.Assignments.Lookup.{IsUnique, IsFor, find_exception-write, write-IsUnique}
use na_sso.Assignments.Resolve.{has, effect, configured, has-apply_exceptions}

if-same : (b : Bool) (x y : Option UserAssignmentException) → y ≡ x → (if b then x else y) ≡ x
if-same true x y h = refl
if-same false x y h = h

-- What the loop leaves for a target.
abbrev left :
    String
    → List String
    → Intents
    → List UserAssignmentException
    → String
    → Option UserAssignmentException
left actor selected base existing t =
    settle actor t (mode_for selected base t) (find_exception t existing)

find_exception-IsFor :
    (t : String) (l : List UserAssignmentException) → IsFor t (find_exception t l)
unfolding find_exception
find_exception-IsFor t [] = tt
find_exception-IsFor t (e ∷ rest) = elim (Bool-cases (str_eq e.target_id t)) [
  | inl same ↦ rw same ((eq_iff e.target_id t).0 same)
  | inr other ↦ rw other (find_exception-IsFor t rest)
]

settle-IsFor :
    (actor t : String) (mode : AssignmentMode) (o : Option UserAssignmentException)
    → IsFor t o
    → IsFor t (settle actor t mode o)
settle-IsFor actor t inherit none h = tt
settle-IsFor actor t include none h = refl
settle-IsFor actor t exclude none h = refl
settle-IsFor actor t mode (some e) h =
    elim (Bool-cases
      (is_inherit mode && is_empty e.add_memberships && is_empty e.remove_memberships)) [
        | inl dropped ↦ rw dropped tt
        | inr kept ↦ rw kept h
      ]

module _ (actor : String) (selected : List String) (base : Intents)
    (existing : List UserAssignmentException) where
  settle_all-IsUnique :
      (targets : List String) (l : List UserAssignmentException)
      → IsUnique l
      → IsUnique (settle_all actor selected base existing targets l)
  unfolding settle_all
  settle_all-IsUnique [] l u = u
  settle_all-IsUnique (target ∷ rest) l u =
      settle_all-IsUnique rest _
        (write-IsUnique target (left actor selected base existing target) l u)

  left-IsFor : (t : String) → IsFor t (left actor selected base existing t)
  left-IsFor t =
      settle-IsFor actor t (mode_for selected base t) (find_exception t existing)
        (find_exception-IsFor t existing)

  find_exception-settle_all :
      (t : String) (targets : List String) (l : List UserAssignmentException)
      → find_exception t (settle_all actor selected base existing targets l)
        ≡ (if contains targets t then left actor selected base existing t else find_exception t l)
  unfolding settle_all
  find_exception-settle_all t [] l = refl
  find_exception-settle_all t (target ∷ rest) l =
      let o = left actor selected base existing target in
      let ih = find_exception-settle_all t rest (write target o l) in
      let written = find_exception-write t target o l (left-IsFor target) in
      elim (Bool-cases (str_eq t target)) [
        | inl same ↦
            let back : str_eq target t ≡ true =
              (eq_iff target t).1 (sym ((eq_iff t target).0 same)) in
            let moved : o ≡ left actor selected base existing t =
              ap (left actor selected base existing) (sym ((eq_iff t target).0 same)) in
            let here : find_exception t (write target o l) ≡ left actor selected base existing t =
              written ∙ rw back moved in
            rw same (ih ∙ if-same (contains rest t) _ _ here)
        | inr other ↦
            let away : str_eq target t ≡ false = ground (arith, eq_iff t target, eq_iff target t) in
            rw other (
              ih
              ∙ ap (λ q. if contains rest t then left actor selected base existing t else q)
                  (written ∙ rw away refl))
      ]

-- The targets of the loop.
contains-append :
    (a b : List String) (t : String) → contains (a ++ b) t ≡ (contains a t || contains b t)
contains-append [] b t = refl
contains-append (x ∷ a) b t = ground (arith, contains-append a b t)

contains-distinct : (l : List String) (t : String) → contains (distinct l) t ≡ contains l t
unfolding distinct
contains-distinct [] t = refl
contains-distinct (a ∷ l) t = elim (Bool-cases (contains (distinct l) a)) [
  | inl again ↦ rw again (
      contains-distinct l t ∙ elim (Bool-cases (str_eq t a)) [
        | inl same ↦
            let held : contains l t ≡ true =
              sym (contains-distinct l t)
              ∙ subst (λ u. contains (distinct l) u ≡ true) (sym ((eq_iff t a).0 same)) again in
            rw (same, held) refl
        | inr other ↦ rw other refl
      ])
  | inr first ↦ rw first (ap (λ b. str_eq t a || b) (contains-distinct l t))
]

pub contains-has : (t : String) (base : Intents) → contains (map (λ i. i.0) base) t ≡ has t base
unfolding intent
contains-has t [] = refl
contains-has t ((u, m) ∷ base) = ground (arith, eq_iff t u, eq_iff u t, contains-has t base)

contains-find_exception :
    (t : String) (l : List UserAssignmentException)
    → contains (map (λ e. e.target_id) l) t ≡ is_some (find_exception t l)
unfolding find_exception
contains-find_exception t [] = refl
contains-find_exception t (e ∷ l) =
    ground (arith, eq_iff t e.target_id, eq_iff e.target_id t, contains-find_exception t l)

effect-settle :
    (actor t : String) (is_selected is_base configured : Bool) (o : Option UserAssignmentException)
    → (is_selected ≡ true → (is_base || configured) ≡ true)
    → effect configured is_base (settle actor t (desired_mode is_selected is_base) o) ≡ is_selected
effect-settle actor t true true c none h = refl
effect-settle actor t true true c (some e) h = ground arith
effect-settle actor t true false c none h = h refl
effect-settle actor t true false c (some e) h = h refl
effect-settle actor t false true c none h = refl
effect-settle actor t false true c (some e) h = refl
effect-settle actor t false false c none h = refl
effect-settle actor t false false c (some e) h = ground arith

module _ (connectors : List Connector) (actor : String) (selected : List String) (base : Intents)
    (exceptions : List UserAssignmentException) (rows : List SyncState) where
  abbrev recorded : List UserAssignmentException
  recorded = settle_all actor selected base exceptions (touched selected base exceptions) exceptions

  abbrev untouched : (in_base is_selected : Bool) → Option UserAssignmentException → Bool
  untouched in_base is_selected o = in_base || (is_selected || is_some o)

  settle-untouched :
      (t : String) (in_base is_selected : Bool) (o : Option UserAssignmentException)
      → untouched in_base is_selected o ≡ false
      → o ≡ settle actor t (desired_mode is_selected in_base) o
  settle-untouched t false false none h = refl
  settle-untouched t false false (some e) h = cc
  settle-untouched t false true o h = cc
  settle-untouched t true s o h = cc

  find_exception-recorded :
      (t : String) → find_exception t recorded ≡ left actor selected base exceptions t
  find_exception-recorded t =
      let all = touched selected base exceptions in
      let names = map (λ i. i.0) base in
      let olds = map (λ e. e.target_id) exceptions in
      let ends = find_exception-settle_all actor selected base exceptions t all exceptions in
      let among : contains all t
          ≡ untouched (has t base) (contains selected t) (find_exception t exceptions) =
        contains-distinct (names ++ (selected ++ olds)) t
        ∙ contains-append names (selected ++ olds) t
        ∙ ap (λ b. contains names t || b) (contains-append selected olds t)
        ∙ ap (λ b. b || (contains selected t || contains olds t)) (contains-has t base)
        ∙ ap (λ b. has t base || (contains selected t || b))
            (contains-find_exception t exceptions) in
      elim (Bool-cases (contains all t)) [
        | inl inside ↦ ends ∙ rw inside refl
        | inr outside ↦
            ends
            ∙ rw outside (
                settle-untouched t (has t base) (contains selected t) (find_exception t exceptions)
                  (sym among ∙ outside))
      ]

  -- Where the account has a profile, the exceptions that are recorded for a choice of targets resolve to that
  -- choice, if each chosen target that is not in the profile is configured: a target is among the intents
  -- exactly if it was chosen, whatever exceptions there were before.
  pub record_selected_target_exceptions-resolve :
      IsUnique exceptions
      → ((t : String) → contains selected t ≡ true → (has t base || configured connectors t) ≡ true)
      → (t : String)
      → has t (
          resolve_assignment_intents connectors
            (some base)
            (record_selected_target_exceptions actor selected (some base) exceptions)
            rows)
        ≡ contains selected t
  unfolding resolve_assignment_intents record_selected_target_exceptions
  record_selected_target_exceptions-resolve unique reachable t =
      has-apply_exceptions connectors t recorded base (
        settle_all-IsUnique actor selected base exceptions (touched selected base exceptions)
          exceptions unique)
      ∙ ap (effect (configured connectors t) (has t base)) (find_exception-recorded t)
      ∙ effect-settle actor t (contains selected t) (has t base) (configured connectors t)
          (find_exception t exceptions) (reachable t)
