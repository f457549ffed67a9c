-- ===== src/Operations/Rows.antt =====
-- The table of lifecycle operations, by primary key.
pub use na_sso.Outcome.{Fault, operation_conflict, value_error, Outcome, returned, raised}
use na_sso.Prelude.{
  String, ◌≡◌, refl, Option, none, some, List, [], ◌∷◌, ◌++◌, arith, eq_iff, str_eq, if◌then◌else◌,
}
use mathlib.Core.Option
use na_sso.Models.{LifecycleOperation}

-- `db.get(LifecycleOperation, id)`.
unfoldable pub find : String → List LifecycleOperation → Option LifecycleOperation
find id [] = none
find id (o ∷ rest) = if str_eq o.id id then some o else find id rest

-- Writes to the row object of that key.
unfoldable pub modify :
    String
    → (LifecycleOperation → LifecycleOperation)
    → List LifecycleOperation
    → List LifecycleOperation
modify id f [] = []
modify id f (o ∷ rest) = (if str_eq o.id id then f o else o) ∷ modify id f rest

-- A new row is found by its key when no row had it, and hides no other row.
pub find-append :
    (id : String) (l : List LifecycleOperation) (o : LifecycleOperation)
    → find o.id l ≡ none
    → find id (l ++ o ∷ []) ≡ (if str_eq o.id id then some o else find id l)
unfolding find
find-append id [] o h = refl
find-append id (x ∷ l) o h =
    ground (arith, eq_iff x.id id, eq_iff x.id o.id, eq_iff o.id id, find-append id l o)

-- A write keeps the keys, and changes the rows of its own key alone.
pub find-modify :
    (id j : String) (f : LifecycleOperation → LifecycleOperation) (l : List LifecycleOperation)
    → ((o : LifecycleOperation) → (f o).id ≡ o.id)
    → find j (modify id f l) ≡ (if str_eq id j then Option.map f (find j l) else find j l)
unfolding find modify
find-modify id j f [] h = ground arith
find-modify id j f (o ∷ l) h =
    ground (arith, eq_iff o.id id, eq_iff o.id j, eq_iff id j, find-modify id j f l h, h o)
