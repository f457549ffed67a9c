-- ===== src/Sync/Handoff.antt =====
-- na_sso/sync.py: `credential_handoff`, which stages the password of a verified sign-in.
use na_sso.Prelude.{
  String, Bool, true, false, not, ◌&&◌, ◌||◌, Option, none, some, List, [], ◌∷◌, any, if◌then◌else◌,
}
use na_sso.Lifecycle.Values.{SyncStateValue, pending, chpw, awaiting_credentials, expired_disabled}
use na_sso.Models.{is_root, is_temporary, SyncState, UnitOfWork}
use na_sso.Outcome.{Outcome, returned, raised}
use na_sso.Sync.Conclude.{World}
use na_sso.Sync.{sync_user}

abbrev waits_for_password : SyncStateValue → Bool
waits_for_password awaiting_credentials = true
waits_for_password expired_disabled = true
waits_for_password chpw = true
waits_for_password _ = false

abbrev pub is_waiting_row : SyncState → Bool
is_waiting_row row = row.assigned && not row.retired && waits_for_password row.state

stage_rows : List SyncState → List SyncState
stage_rows [] = []
stage_rows (row ∷ rest) =
    (if is_waiting_row row
      then record row {
        state = pending;
        detail = "credential supplied after verified authentication";
      }
      else row)
    ∷ stage_rows rest

abbrev staged : String → UnitOfWork → UnitOfWork
staged secret w = record w {
  user = record w.user {
    pending_secret = some secret;
    sync_states = stage_rows w.user.sync_states;
  };
}

-- The staging is committed before the run, which commits only where it returns an operation.
abbrev committed :
    UnitOfWork → Outcome (Option String) × UnitOfWork → Outcome (Unit {0}) × UnitOfWork
committed w (returned (some id), w') = (returned tt, w')
committed w (returned none, w') = (returned tt, w)
committed w (raised fault, w') = (raised fault, w)

-- The secret is what Fernet makes of the password.
unfoldable pub credential_handoff : World → String → UnitOfWork → Outcome (Unit {0}) × UnitOfWork
unfolding stage_rows
credential_handoff x secret w =
    if is_root w.user
      || is_temporary w.user.password_decision_kind
      || not (any is_waiting_row w.user.sync_states)
    then (returned tt, w)
    else (let w' = staged secret w in committed w' (sync_user x none none "verified-login" none w'))
