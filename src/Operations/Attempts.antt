-- ===== src/Operations/Attempts.antt =====
-- na_sso/operations.py: the numbered attempts on a target, and the payload of an operation.
use Prim.Native.Nat.{max}
use na_sso.Prelude.{
  ℕ, ◌+◌, ◌≤◌, String, ◌≡◌, refl, Bool, true, ◌&&◌, Option, none, some, List, [], ◌∷◌, ◌++◌, ◌==◌,
  arith, eq_iff, str_eq, if◌then◌else◌, All, All-append,
}
use na_sso.Lifecycle.Values.{running, succeeded, failed, SyncStateValue, pending}
use na_sso.Models.{OperationTargetAttempt, UnitOfWork}

abbrev is_attempt_on : String → String → OperationTargetAttempt → Bool
is_attempt_on id target a = str_eq a.operation_id id && str_eq a.target target

-- `func.max(attempt_number)` over the attempts of the operation on the target, 0 where there are none.
last_attempt : String → String → List OperationTargetAttempt → ℕ
last_attempt id target [] = 0
last_attempt id target (a ∷ rest) =
    let later = last_attempt id target rest in
    if is_attempt_on id target a then max a.attempt_number later else later

unfoldable pub start_target_attempt :
    String → String → Option String → UnitOfWork → OperationTargetAttempt × UnitOfWork
unfolding last_attempt
start_target_attempt id target target_type w =
    let attempt : OperationTargetAttempt = record {
      operation_id = id;
      target = target;
      target_type = target_type;
      attempt_number = last_attempt id target w.attempts + 1;
      status = running;
      result_state = pending;
      detail = "";
      completed_at = none;
    } in
    (attempt, record w { attempts = w.attempts ++ attempt ∷ [] })

-- Writes to the row object of the attempt, which its operation, target and number identify.
modify_attempt :
    OperationTargetAttempt
    → (OperationTargetAttempt → OperationTargetAttempt)
    → List OperationTargetAttempt
    → List OperationTargetAttempt
modify_attempt attempt f [] = []
modify_attempt attempt f (a ∷ rest) =
    (if is_attempt_on attempt.operation_id attempt.target a
        && (a.attempt_number == attempt.attempt_number)
      then f a
      else a)
    ∷ modify_attempt attempt f rest

unfoldable pub finish_target_attempt :
    ℕ → OperationTargetAttempt → Bool → SyncStateValue → String → UnitOfWork → UnitOfWork
unfolding modify_attempt
finish_target_attempt now attempt was_ok result_state detail w = record w {
  attempts =
      modify_attempt attempt
        (λ a. record a {
          status = (if was_ok then succeeded else failed);
          result_state = result_state;
          detail = detail;
          completed_at = some now;
        })
        w.attempts;
}

-- The unique key of the table: no two rows have the same operation, target and number.
abbrev Differs : OperationTargetAttempt → OperationTargetAttempt → Type 0
Differs a b = ¬ (
    (a.operation_id ≡ b.operation_id)
    × (a.target ≡ b.target)
    × (a.attempt_number ≡ b.attempt_number))

abbrev pub IsUnique : List OperationTargetAttempt → Type 0
IsUnique [] = Unit
IsUnique (a ∷ rest) = All (Differs a) rest × IsUnique rest

-- The number of a new attempt is above all earlier ones on its operation and target.
below_next :
    (id target : String) (n : ℕ) (l : List OperationTargetAttempt)
    → last_attempt id target l ≤ n
    → All (λ a. is_attempt_on id target a ≡ true → a.attempt_number ≤ n) l
unfolding last_attempt
below_next id target n [] h = tt
below_next id target n (a ∷ l) h = (λ e. ground arith, below_next id target n l (ground arith))

not_below :
    (id target : String) (n : ℕ) (b : OperationTargetAttempt) (l : List OperationTargetAttempt)
    → b.operation_id ≡ id
    → b.target ≡ target
    → b.attempt_number ≡ n + 1
    → All (λ a. is_attempt_on id target a ≡ true → a.attempt_number ≤ n) l
    → All (λ a. Differs a b) l
not_below id target n b [] i t m h = tt
not_below id target n b (a ∷ l) i t m (h, rest) = (
  λ same. ground (arith, eq_iff a.operation_id id, eq_iff a.target target, h),
  not_below id target n b l i t m rest,
)

IsUnique-append :
    (l : List OperationTargetAttempt) (b : OperationTargetAttempt)
    → All (λ a. Differs a b) l
    → IsUnique l
    → IsUnique (l ++ b ∷ [])
IsUnique-append [] b h u = (tt, tt)
IsUnique-append (a ∷ l) b (h, rest) (d, u) =
    (All-append (Differs a) l (b ∷ []) d (h, tt), IsUnique-append l b rest u)

-- A new attempt never breaks the unique key of operation, target and number.
pub start_target_attempt-IsUnique :
    (id target : String) (target_type : Option String) (w : UnitOfWork)
    → IsUnique w.attempts
    → IsUnique (start_target_attempt id target target_type w).1.attempts
unfolding start_target_attempt
start_target_attempt-IsUnique id target target_type w u =
    let n = last_attempt id target w.attempts in
    IsUnique-append w.attempts (start_target_attempt id target target_type w).0
      (not_below id target n (start_target_attempt id target target_type w).0 w.attempts refl refl
        refl (below_next id target n w.attempts (omega arith)))
      u
