-- ===== src/Assignments/Lookup.antt =====
-- What is found in the intents and among the exceptions after a write.
use na_sso.Prelude.{
  String, ◌≡◌, refl, ap, subst, ◌∙◌, inl, inr, Option, none, some, List, [], ◌∷◌, str_eq, eq_iff,
  arith, Bool-cases, if◌then◌else◌,
}
use na_sso.Assignments.{UserAssignmentException, Intents, intent, put_intent, drop_intent}
use na_sso.Assignments.Exceptions.{find_exception, put_exception, delete_exception, write}

pub intent-put_intent :
    (t u : String) (m : List String) (i : Intents)
    → intent t (put_intent u m i) ≡ (if str_eq u t then some m else intent t i)
unfolding intent put_intent
intent-put_intent t u m [] = refl
intent-put_intent t u m ((v, old) ∷ rest) =
    ground (arith, eq_iff u t, eq_iff v u, eq_iff v t, intent-put_intent t u m rest)

pub intent-drop_intent :
    (t u : String) (i : Intents)
    → intent t (drop_intent u i) ≡ (if str_eq u t then none else intent t i)
unfolding intent drop_intent
intent-drop_intent t u [] = ground arith
intent-drop_intent t u ((v, old) ∷ rest) =
    ground (arith, eq_iff u t, eq_iff v u, eq_iff v t, intent-drop_intent t u rest)

pub find_exception-put_exception :
    (t : String) (e : UserAssignmentException) (l : List UserAssignmentException)
    → find_exception t (put_exception e l)
      ≡ (if str_eq e.target_id t then some e else find_exception t l)
unfolding find_exception put_exception
find_exception-put_exception t e [] = refl
find_exception-put_exception t e (old ∷ rest) = ground (
  arith,
  eq_iff e.target_id t,
  eq_iff old.target_id t,
  eq_iff old.target_id e.target_id,
  find_exception-put_exception t e rest,
)

pub find_exception-delete_exception :
    (t u : String) (l : List UserAssignmentException)
    → find_exception t (delete_exception u l) ≡ (if str_eq u t then none else find_exception t l)
unfolding find_exception delete_exception
find_exception-delete_exception t u [] = ground arith
find_exception-delete_exception t u (old ∷ rest) = ground (
  arith,
  eq_iff u t,
  eq_iff old.target_id t,
  eq_iff old.target_id u,
  find_exception-delete_exception t u rest,
)

-- An account has one exception for a target, which is the unique key of the table.
abbrev pub IsUnique : List UserAssignmentException → Type 0
IsUnique [] = Unit {0}
IsUnique (e ∷ rest) = (find_exception e.target_id rest ≡ none) × IsUnique rest

pub put_exception-IsUnique :
    (e : UserAssignmentException) (l : List UserAssignmentException)
    → IsUnique l
    → IsUnique (put_exception e l)
unfolding put_exception find_exception
put_exception-IsUnique e [] u = (refl, tt)
put_exception-IsUnique e (old ∷ rest) (first, u) =
    elim (Bool-cases (str_eq old.target_id e.target_id)) [
      | inl same ↦ rw same (
        subst (λ t. find_exception t rest ≡ none) ((eq_iff old.target_id e.target_id).0 same) first,
        u,
      )
      | inr other ↦ rw other (
        find_exception-put_exception old.target_id e rest
            ∙ ground (arith, eq_iff old.target_id e.target_id, eq_iff e.target_id old.target_id),
        put_exception-IsUnique e rest u,
      )
    ]

pub delete_exception-IsUnique :
    (t : String) (l : List UserAssignmentException) → IsUnique l → IsUnique (delete_exception t l)
unfolding delete_exception
delete_exception-IsUnique t [] u = tt
delete_exception-IsUnique t (old ∷ rest) (first, u) = elim (Bool-cases (str_eq old.target_id t)) [
  | inl same ↦ rw same (delete_exception-IsUnique t rest u)
  | inr other ↦ rw other (
    find_exception-delete_exception old.target_id t rest ∙ ground arith,
    delete_exception-IsUnique t rest u,
  )
]

-- A write leaves the target with what was written, where that is an exception of the target.
abbrev pub IsFor : String → Option UserAssignmentException → Type 0
IsFor target none = Unit {0}
IsFor target (some e) = e.target_id ≡ target

pub find_exception-write :
    (t u : String) (o : Option UserAssignmentException) (l : List UserAssignmentException)
    → IsFor u o
    → find_exception t (write u o l) ≡ (if str_eq u t then o else find_exception t l)
find_exception-write t u none l h = find_exception-delete_exception t u l
find_exception-write t u (some e) l h =
    find_exception-put_exception t e l
    ∙ ap (λ v. if str_eq v t then some e else find_exception t l) h

pub write-IsUnique :
    (u : String) (o : Option UserAssignmentException) (l : List UserAssignmentException)
    → IsUnique l
    → IsUnique (write u o l)
write-IsUnique u none l h = delete_exception-IsUnique u l h
write-IsUnique u (some e) l h = put_exception-IsUnique e l h
