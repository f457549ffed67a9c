-- ===== src/Reconciliation/Preview.antt =====
-- What a preview counts is what a repair goes through.
use na_sso.Prelude.{
  ℕ, String, ◌≡◌, refl, sym, ap, ◌∙◌, inl, inr, Bool, true, false, ◌&&◌, some, List, [], ◌∷◌, ◌++◌,
  any, map, length, All, ◌==◌, str_eq, eq_iff, arith, Bool-cases, if◌then◌else◌,
}
use na_sso.Reconciliation.{is_drift, FieldComparison, ReconciliationReport, report_status}
use na_sso.Reconciliation.Approval.{ReconciliationRun}
use na_sso.Reconciliation.Runs.{
  ReconciliationFinding, RunStore, Pair, RunWorld, inspect, finding, all_findings, is_drifted,
  count, begun, assigned_pairs, refresh_reconciliation, holds_group, groups_after, repair_groups,
  scheduled_end, counted_run, inspected, refresh_found,
}

abbrev pub key : Pair → ℕ × String
key pair = (pair.user.id, pair.connector.target_id)

abbrev pub same_key : ℕ × String → ℕ × String → Bool
same_key (u, t) (v, w) = u == v && str_eq t w

-- No account stands twice for one target.
abbrev pub IsUnique : List Pair → Type 0
IsUnique [] = Unit {0}
IsUnique (pair ∷ rest) = All (λ q. same_key (key pair) (key q) ≡ false) rest × IsUnique rest

abbrev Outside : List (ℕ × String) → List Pair → Type 0
Outside known = All (λ q. holds_group (key q) known ≡ false)

holds_self : (k : ℕ × String) (known : List (ℕ × String)) → holds_group k (k ∷ known) ≡ true
holds_self (u, t) known = ground (arith, eq_iff t t)

Outside-cons :
    (k : ℕ × String) (known : List (ℕ × String)) (pairs : List Pair)
    → All (λ q. same_key k (key q) ≡ false) pairs
    → Outside known pairs
    → Outside (k ∷ known) pairs
Outside-cons k known [] d o = tt
Outside-cons k known (q ∷ pairs) (d, ds) (o, os) = (ground arith, Outside-cons k known pairs ds os)

drifted-any :
    (report : ReconciliationReport)
    → is_drifted (report_status report) ≡ any (λ item. is_drift item.state) report.fields
unfolding report_status
drifted-any report = ground arith

module _ (pair : Pair) (report : ReconciliationReport) where
  -- Findings on a known group add none.
  groups_after-known :
      (known : List (ℕ × String)) (items : List FieldComparison) (rest : List ReconciliationFinding)
      → holds_group (key pair) known ≡ true
      → groups_after known (map (finding pair report) items ++ rest) ≡ groups_after known rest
  unfolding groups_after
  groups_after-known known [] rest h = refl
  groups_after-known known (item ∷ items) rest h =
      ground (arith, groups_after-known known items rest h)

  groups_after-new :
      (known : List (ℕ × String)) (items : List FieldComparison) (rest : List ReconciliationFinding)
      → holds_group (key pair) known ≡ false
      → groups_after known (map (finding pair report) items ++ rest) ≡ (
          if any (λ item. is_drift item.state) items
          then key pair ∷ groups_after (key pair ∷ known) rest
          else groups_after known rest)
  unfolding groups_after
  groups_after-new known [] rest h = refl
  groups_after-new known (item ∷ items) rest h = ground (
    arith,
    groups_after-new known items rest h,
    groups_after-known (key pair ∷ known) items rest (holds_self (key pair) known),
  )

Outside-nil : (pairs : List Pair) → Outside [] pairs
Outside-nil [] = tt
Outside-nil (pair ∷ rest) = (refl, Outside-nil rest)

module _ (x : RunWorld) where
  -- Each report with drift makes one group.
  length-groups_after :
      (known : List (ℕ × String)) (pairs : List Pair)
      → IsUnique pairs
      → Outside known pairs
      → length (groups_after known (all_findings x pairs))
        ≡ count x (λ report. is_drifted (report_status report)) pairs
  unfolding groups_after all_findings count
  length-groups_after known [] u o = refl
  length-groups_after known (pair ∷ rest) (d, u) (o, os) =
      let report = inspect x pair in
      let split = groups_after-new pair report known report.fields (all_findings x rest) o in
      elim (Bool-cases (any (λ item. is_drift item.state) report.fields)) [
        | inl drifts ↦
            let ih =
              length-groups_after (key pair ∷ known) rest u
                (Outside-cons (key pair) known rest d os) in
            ground (arith, split, drifted-any report)
        | inr none_drifts ↦
            let ih = length-groups_after known rest u os in
            ground (arith, split, drifted-any report)
      ]

  scheduled_end-drifted :
      (unread : ℕ) (run : ReconciliationRun)
      → (scheduled_end x unread run).drifted_targets ≡ run.drifted_targets
  scheduled_end-drifted unread run = ground arith

  -- After a run was refreshed whose accounts were within the limit, and where no account stands twice for one
  -- target, the drifted targets that it counts are as many as the groups that a repair will go through.
  pub refresh_reconciliation-drifted_targets :
      (run : ReconciliationRun) (pairs : List Pair) (s : RunStore)
      → s.run ≡ some run
      → assigned_pairs x (begun run) ≡ some pairs
      → IsUnique pairs
      → (after : ReconciliationRun) × ((refresh_reconciliation x s).run ≡ some after)
        × (after.drifted_targets ≡ length (repair_groups (refresh_reconciliation x s).findings))
  unfolding refresh_reconciliation repair_groups
  refresh_reconciliation-drifted_targets run pairs s found within u =
      let read = counted_run x pairs (begun run) in
      let shown : refresh_reconciliation x s ≡ inspected x (some pairs) (begun run) s =
        ap (λ r. refresh_found x r s) found ∙ ap (λ o. inspected x o (begun run) s) within in
      (
        scheduled_end x read.unknown_targets read,
        ap (λ t. t.run) shown,
        scheduled_end-drifted read.unknown_targets read
            ∙ sym (length-groups_after [] pairs u (Outside-nil pairs))
            ∙ sym (ap (λ t. length (repair_groups t.findings)) shown),
      )
