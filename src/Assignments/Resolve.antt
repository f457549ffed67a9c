-- ===== src/Assignments/Resolve.antt =====
-- Which targets the resolution keeps: for each, its own exception decides.
use na_sso.Prelude.{
  String, ◌≡◌, refl, ap, subst, ◌∙◌, inl, inr, Bool, true, false, ◌||◌, Option, none, some, is_some,
  List, [], ◌∷◌, str_eq, eq_iff, arith, Bool-cases, if◌then◌else◌,
}
use na_sso.Connectors.{Connector, connector_for}
use na_sso.Assignments.{
  AssignmentMode, inherit, include, exclude, UserAssignmentException, Intents, intent, put_intent,
  adjust, included, default_intent, changed_memberships, apply_mode, apply_exception,
  apply_exceptions,
}
use na_sso.Assignments.Exceptions.{find_exception}
use na_sso.Assignments.Lookup.{intent-put_intent, intent-drop_intent, IsUnique}

abbrev pub has : String → Intents → Bool
has t i = is_some (intent t i)

-- Whether a target stays among the intents under its exception.
abbrev pub by_mode : Bool → Bool → AssignmentMode → Bool
by_mode configured there inherit = there
by_mode configured there include = there || configured
by_mode configured there exclude = false

abbrev pub effect : Bool → Bool → Option UserAssignmentException → Bool
effect configured there none = there
effect configured there (some e) = by_mode configured there e.assignment_mode

module _ (connectors : List Connector) where
  abbrev pub configured : String → Bool
  configured t = is_some (connector_for connectors t)

  has-put_intent :
      (t u : String) (m : List String) (i : Intents)
      → has t (put_intent u m i) ≡ (str_eq u t || has t i)
  has-put_intent t u m i = ground (arith, intent-put_intent t u m i)

  has-adjust :
      (t : String) (e : UserAssignmentException) (found : Option (List String)) (i : Intents)
      → intent e.target_id i ≡ found
      → has t (adjust connectors e found i) ≡ has t i
  has-adjust t e none i h = refl
  has-adjust t e (some m) i h =
      let put =
        has-put_intent t e.target_id (changed_memberships m e.add_memberships e.remove_memberships)
          i in
      elim (Bool-cases (str_eq e.target_id t)) [
        | inl same ↦
            let there : has t i ≡ true =
              subst (λ u. has u i ≡ true) ((eq_iff e.target_id t).0 same) (ap is_some h) in
            ground (arith, put)
        | inr other ↦ ground (arith, put)
      ]

  has-default_intent :
      (t u : String) (c : Option Connector) (i : Intents)
      → has t (default_intent connectors u c i)
        ≡ (if str_eq u t then is_some c || has t i else has t i)
  has-default_intent t u none i = ground arith
  has-default_intent t u (some c) i = ground (arith, has-put_intent t u c.default_memberships i)

  has-included :
      (t : String) (e : UserAssignmentException) (i : Intents)
      → has t (included connectors e i)
        ≡ (if str_eq e.target_id t then has t i || configured e.target_id else has t i)
  has-included t e i = elim (Bool-cases (has e.target_id i)) [
    | inl there ↦ rw there (elim (Bool-cases (str_eq e.target_id t)) [
      | inl same ↦
          let there' : has t i ≡ true =
            subst (λ u. has u i ≡ true) ((eq_iff e.target_id t).0 same) there in
          ground arith
      | inr other ↦ ground arith
    ])
    | inr missing ↦
        rw missing
          (has-default_intent t e.target_id (connector_for connectors e.target_id) i ∙ ground arith)
  ]

  has-apply_mode :
      (t : String) (mode : AssignmentMode) (e : UserAssignmentException) (i : Intents)
      → has t (apply_mode connectors mode e i)
        ≡ (if str_eq e.target_id t then by_mode (configured t) (has t i) mode else has t i)
  has-apply_mode t exclude e i = ground (arith, intent-drop_intent t e.target_id i)
  has-apply_mode t inherit e i = has-adjust t e (intent e.target_id i) i refl ∙ ground arith
  has-apply_mode t include e i =
      has-adjust t e (intent e.target_id (included connectors e i)) (included connectors e i) refl
      ∙ has-included t e i
      ∙ elim (Bool-cases (str_eq e.target_id t)) [
        | inl same ↦
            ap (λ u. if str_eq e.target_id t then has t i || configured u else has t i)
              ((eq_iff e.target_id t).0 same)
        | inr other ↦ rw other refl
      ]

  -- The step for one exception.
  has-apply_exception :
      (t : String) (e : UserAssignmentException) (i : Intents)
      → has t (apply_exception connectors e i)
        ≡ (if str_eq e.target_id t then effect (configured t) (has t i) (some e) else has t i)
  unfolding apply_exception
  has-apply_exception t e i = has-apply_mode t e.assignment_mode e i

  -- All exceptions of an account: for a target, the one that it has decides.
  pub has-apply_exceptions :
      (t : String) (l : List UserAssignmentException) (i : Intents)
      → IsUnique l
      → has t (apply_exceptions connectors l i)
        ≡ effect (configured t) (has t i) (find_exception t l)
  unfolding apply_exceptions find_exception
  has-apply_exceptions t [] i u = refl
  has-apply_exceptions t (e ∷ rest) i (first, u) =
      let ih = has-apply_exceptions t rest (apply_exception connectors e i) u in
      let step = has-apply_exception t e i in
      elim (Bool-cases (str_eq e.target_id t)) [
        | inl same ↦
            let alone : find_exception t rest ≡ none =
              subst (λ v. find_exception v rest ≡ none) ((eq_iff e.target_id t).0 same) first in
            rw same (
              ih
              ∙ ap (effect (configured t) (has t (apply_exception connectors e i))) alone
              ∙ step
              ∙ rw same refl)
        | inr other ↦
            rw other (
              ih ∙ ap (λ b. effect (configured t) b (find_exception t rest)) (step ∙ rw other refl))
      ]
