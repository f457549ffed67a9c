-- ===== src/Users/Selection.antt =====
-- The rows after `_set_pending`.
use na_sso.Prelude.{
  String, ◌≡◌, refl, sym, ap, ◌∙◌, inl, inr, Bool, true, false, ◌&&◌, Option, none, some, is_some,
  List, [], ◌∷◌, All, All-map, Any, Any-map, subst, arith, if◌then◌else◌, str_eq, eq_iff, eq_refl,
  Option-cases, Bool-cases,
}
use na_sso.Outcome.{Fault, value_error, Outcome, returned, raised}
use na_sso.Models.{is_root, SyncState, UnitOfWork}
use na_sso.Connectors.{Connector, connector_for}
use na_sso.Sync.Retries.{IsScheduled}
use na_sso.Users.{
  is_in, unselect, Wanted, select, new_row, select_row, select_next, select_rows, selected_rows,
  staged_secret, some_target, set_pending,
}

module _ (g : Wanted) (needs_password : Bool) (target : String) (P : SyncState → Type 0) where
  select_row-All :
      (rows : List SyncState)
      → ((row : SyncState) → row.target ≡ target → P (select g needs_password row))
      → All P rows
      → All P (select_row g needs_password target rows)
  unfolding select_row
  select_row-All [] h all_rows = (h (new_row target) refl, tt)
  select_row-All (row ∷ rest) h (p, ps) = elim (Bool-cases (str_eq row.target target)) [
    | inl e ↦ rw e (h row ((eq_iff row.target target).0 e), ps)
    | inr e ↦ rw e (p, select_row-All rest h ps)
  ]

  -- A row of another target stays.
  select_row-Any :
      (rows : List SyncState)
      → Any (λ row. P row × (str_eq row.target target ≡ false)) rows
      → Any P (select_row g needs_password target rows)
  unfolding select_row
  select_row-Any [] h = elim h [ ]
  select_row-Any (row ∷ rest) (inl (p, e)) = rw e (inl p)
  select_row-Any (row ∷ rest) (inr h) = elim (Bool-cases (str_eq row.target target)) [
    | inl e ↦ rw e (inr (Any-map (λ r k. k.0) rest h))
    | inr e ↦ rw e (inr (select_row-Any rest h))
  ]

-- Afterwards a row of a target that is not selected is not assigned, and a retry is scheduled only for a
-- failed row.
abbrev pub IsSettled : List String → SyncState → Type 0
IsSettled selected row =
    (is_in selected row.target ≡ false → row.assigned ≡ false) × IsScheduled row

unselect-IsSettled :
    (selected : List String) (rows : List SyncState)
    → All IsScheduled rows
    → All (IsSettled selected) (unselect selected rows)
unfolding unselect
unselect-IsSettled selected [] h = tt
unselect-IsSettled selected (row ∷ rest) (h, hs) =
    ((λ out. ground arith, λ t e. ground (arith, h t)), unselect-IsSettled selected rest hs)

is_in-All : (selected : List String) → All (λ t. is_in selected t ≡ true) selected
is_in-All [] = tt
is_in-All (t ∷ rest) = (
  ground (arith, eq_refl t),
  All-map _ (λ u. is_in (t ∷ rest) u ≡ true) rest (λ u h. ground arith) (is_in-All rest),
)

select-IsSettled :
    (g : Wanted) (needs_password : Bool) (selected : List String) (target : String)
    (row : SyncState)
    → is_in selected target ≡ true
    → row.target ≡ target
    → IsSettled selected (select g needs_password row)
unfolding select
select-IsSettled g needs_password selected target row chosen e = (λ out. cc, λ t h. cc)

select_rows-IsSettled :
    (g : Wanted) (available : List Connector) (selected targets : List String)
    (rows rows' : List SyncState)
    → All (λ t. is_in selected t ≡ true) targets
    → All (IsSettled selected) rows
    → select_rows g available targets rows ≡ returned rows'
    → All (IsSettled selected) rows'
unfolding select_rows
select_rows-IsSettled g available selected [] rows rows' chosen h e =
    let same : rows ≡ rows' = ground arith in subst (All (IsSettled selected)) same h
select_rows-IsSettled g available selected (target ∷ rest) rows rows' (c, cs) h e =
    elim (Option-cases (connector_for available target)) [
      | inl gone ↦
          let raises =
            sym (
              ap
                (λ o.
                  select_next o
                    (λ c. select_rows g available rest (select_row g c.needs_password target rows)))
                gone)
            ∙ e in
          ground arith
      | inr (connector, found) ↦
          select_rows-IsSettled g available selected rest
            (select_row g connector.needs_password target rows) rows' cs
            (select_row-All g connector.needs_password target (IsSettled selected) rows
              (λ row same. select-IsSettled g connector.needs_password selected target row c same)
              h)
            (sym (
                ap
                  (λ o.
                    select_next o (λ c.
                      select_rows g available rest (select_row g c.needs_password target rows)))
                  found)
              ∙ e)
    ]

-- A row of a target that is not among the selected ones stays.
pub select_rows-Any :
    (g : Wanted) (available : List Connector) (P : SyncState → Type 0) (targets : List String)
    (rows rows' : List SyncState)
    → Any (λ row. P row × (is_in targets row.target ≡ false)) rows
    → select_rows g available targets rows ≡ returned rows'
    → Any P rows'
unfolding select_rows
select_rows-Any g available P [] rows rows' h e =
    let same : rows ≡ rows' = ground arith in subst (Any P) same (Any-map (λ r k. k.0) rows h)
select_rows-Any g available P (target ∷ rest) rows rows' h e =
    elim (Option-cases (connector_for available target)) [
      | inl gone ↦
          let raises =
            sym (
              ap
                (λ o.
                  select_next o
                    (λ c. select_rows g available rest (select_row g c.needs_password target rows)))
                gone)
            ∙ e in
          ground arith
      | inr (connector, found) ↦
          select_rows-Any g available P rest (select_row g connector.needs_password target rows)
            rows'
            (select_row-Any g connector.needs_password target
              (λ row. P row × (is_in rest row.target ≡ false)) rows
              (Any-map (λ row k. ((k.0, ground arith), ground arith)) rows h))
            (sym (
                ap
                  (λ o.
                    select_next o (λ c.
                      select_rows g available rest (select_row g c.needs_password target rows)))
                  found)
              ∙ e)
    ]

selected_rows-returned :
    (o : Outcome (List SyncState)) (w w' : UnitOfWork)
    → selected_rows o w ≡ (returned tt, w')
    → (rows : List SyncState) × (o ≡ returned rows)
      × (w'.user.sync_states ≡ rows)
      × (w'.user.deleted_at ≡ w.user.deleted_at)
selected_rows-returned (returned rows) w w' e = (rows, refl, ground arith, ground arith)
selected_rows-returned (raised fault) w w' e = ground arith

unguarded :
    (test : Bool) (fault : Fault) (o : Outcome (List SyncState)) (v w w' : UnitOfWork)
    → (if test then (raised fault, v) else selected_rows o w) ≡ (returned tt, w')
    → selected_rows o w ≡ (returned tt, w')
unguarded true fault o v w w' e = ground arith
unguarded false fault o v w w' e = e

staged_secret-rows :
    (g : Wanted) (secret : Option String) (w : UnitOfWork)
    → ((staged_secret g secret w).user.sync_states ≡ w.user.sync_states)
      × ((staged_secret g secret w).user.deleted_at ≡ w.user.deleted_at)
staged_secret-rows g none w = ground arith
staged_secret-rows g (some s) w = ground arith

-- What a call that returns has made of the rows.
pub set_pending-returned :
    (available : List Connector) (change absent : Bool) (secret : Option String)
    (selected : List String) (w w' : UnitOfWork)
    → set_pending available change absent secret selected w ≡ (returned tt, w')
    → let g : Wanted = record {
      has_password = is_some secret;
      require_password_change = change;
      remote_accounts_absent = absent;
    } in
      (select_rows g available selected (unselect selected w.user.sync_states)
        ≡ returned w'.user.sync_states)
      × (w'.user.deleted_at ≡ w.user.deleted_at)
unfolding set_pending
set_pending-returned available change absent secret selected w w' e =
    let g : Wanted = record {
      has_password = is_some secret;
      require_password_change = change;
      remote_accounts_absent = absent;
    } in
    let v = staged_secret g secret w in
    let (same, kept) = staged_secret-rows g secret w in
    let e' =
      unguarded (is_root v.user && some_target selected)
        (value_error "root account cannot have target assignments")
        (select_rows g available selected (unselect selected v.user.sync_states)) v v w' e in
    let (rows, made, put, kept') =
      selected_rows-returned
        (select_rows g available selected (unselect selected v.user.sync_states)) v w' e' in
    (
      ap (λ l. select_rows g available selected (unselect selected l)) (sym same)
          ∙ made
          ∙ ap returned (sym put),
      kept' ∙ kept,
    )

-- Where a retry is scheduled only for failed rows, a call of `_set_pending` that returns leaves it so, and
-- leaves each row of a target that is not selected unassigned.
pub set_pending-IsSettled :
    (available : List Connector) (change absent : Bool) (secret : Option String)
    (selected : List String) (w w' : UnitOfWork)
    → set_pending available change absent secret selected w ≡ (returned tt, w')
    → All IsScheduled w.user.sync_states
    → All (IsSettled selected) w'.user.sync_states
set_pending-IsSettled available change absent secret selected w w' e h =
    let (made, kept) = set_pending-returned available change absent secret selected w w' e in
    select_rows-IsSettled _ available selected selected (unselect selected w.user.sync_states)
      w'.user.sync_states (is_in-All selected) (unselect-IsSettled selected w.user.sync_states h)
      made
