-- ===== src/Lib.antt =====
-- na-sso: a small identity manager that carries accounts to target systems.
--
-- The program keeps accounts, and for each account one row per target with the state of the account
-- there. A handler changes the wanted state, opens a lifecycle operation and starts the worker, which
-- goes through the targets, calls each one's connector, writes the result into the row and at the end
-- closes the operation. Roles and their permissions guard the handlers.
--
-- Files and code:
--   Permissions         na_sso/permissions.py: the roles and what each one may do
--   Lifecycle/Values    na_sso/lifecycle.py: the enumerations and their stored texts
--   Lifecycle/Transition  na_sso/lifecycle.py: `decide_transition`
--   Lifecycle/States    na_sso/lifecycle.py: how the state of a target is read, shown and ended
--   Models              na_sso/models.py: the rows
--   Operations          na_sso/operations.py: requests, resumption, start and end of an operation;
--                       Operations/Attempts has the numbered attempts
--   Connectors          na_sso/connectors/base.py: the operation that a target gets, and its support
--   Sync                na_sso/sync.py: `_sync_user`. Sync/Rows is one target of the loop, Sync/Scope
--                       the choice of the rows, Sync/Conclude the end of a run; Sync/Loop and Sync/Run
--                       have the induction over the loop and the shape of a whole run;
--                       Sync/Handoff is the password of a verified sign-in
--   Mfa                 na_sso/mfa.py: Mfa/Totp has the codes by the clock, Mfa/Rows the rows of an account
--                       and the replies, Mfa/Handlers the sign-in with a factor, Mfa/Factors the handlers
--                       that enrol and revoke; Mfa/Digits, Steps, Once, Counters, Logins and Backing have
--                       the proofs
--   Auth                na_sso/auth.py: the password sign-in, the session and the guard of the handlers
--   Api                 na_sso/api_contract.py: Api/Rate the rate limit, Api/Idempotency the repeated requests;
--                       Api/Window and Api/Replay have the proofs
--   Users               na_sso/users.py: `_set_pending` and the deletion handler, and in Users/Restore
--                       the restore handler; Users/Selection, Users/Stuck and Users/Withheld have the
--                       proofs
--   Passwords           na_sso/security.py: `validate_password`; Passwords/Action is the decision on a password
--                       and its change in na_sso/auth.py, Passwords/Expiry `expire_due` of na_sso/sync.py.
--                       Passwords/Decision has the rule for the branches of the form; Valid, Grounds,
--                       Propagation and Gate have the proofs
--   Notifications       na_sso/notifications.py: Notifications/Queue puts events into the queue,
--                       Notifications/Delivery attempts what is due, Notifications/Handlers switches
--                       destinations and retries; Enqueue has a rule for the queueing, and Ends, Schedule,
--                       Requests and Dedupe have the proofs
--   Reconciliation      na_sso/reconciliation.py: a field of an account against its observation, and
--                       Reconciliation/Report the whole report; Reconciliation/Runs refreshes a run and
--                       Reconciliation/Approval approves one, both na_sso/reconcile.py; Sync and Preview have
--                       the proofs
--   Assignments         na_sso/assignments.py: the intents of an account; Assignments/Exceptions records a
--                       choice of targets, Assignments/Handlers saves exceptions and applies profiles; Lookup,
--                       Resolve, Round and Unconfigured have the proofs
--   ServiceAccounts     na_sso/service_accounts.py: the rows; ServiceAccounts/Credentials issues, authenticates
--                       and revokes, ServiceAccounts/Revocation has the proof
--   Outcome             exceptions as values
--   Prelude             Boolean tests, integers, lists and texts; Samples is test data
--
-- The SQLAlchemy session of a handler is a `UnitOfWork`: one account, its rows, and the tables that the
-- handler writes. A row object is the row of its primary key, so a write to an object that several
-- names share is a write by key. An exception is `raised`; what a run that raises or ends early has
-- written is not committed, and its result state is of no account. Times are seconds. A column that may be
-- NULL is an Option, and no key is the empty text.
--
-- Parameters: the remote calls of the connectors (`remote`), the resolved memberships, the decryption
-- of Fernet, HMAC, SHA-256, bcrypt, `str.isdigit` and `str.upper`, WebAuthn, the clock,
-- `json.dumps`, the order of a query, HTTP and mail, the decimal text of a number in an audit row, the
-- settings and the keys that uuid4 makes. The results that `remote` gives are any results, so a theorem
-- about a run holds whatever the targets do.
-- The loop over the targets is recursion on the list of rows; it needs no fuel. The digits of a one-time
-- code are printed with the number as fuel, which is enough: each round divides it by ten. The rows of an account
-- stand for different targets, which is the unique key of their table. A signed cookie is its contents
-- once its signature and age are checked; a text that is compared by characters is the list of its code
-- points.
--
-- Not modelled: what another request writes while a run awaits a remote call, HTTP and SSH, templates,
-- the configuration schema and the database, and the parts of the program that are not named above.
pub mod Api
pub mod Assignments
pub mod Auth
pub mod Connectors
pub mod Lifecycle
pub mod Mfa
pub mod Models
pub mod Notifications
pub mod Operations
pub mod Outcome
pub mod Passwords
pub mod Permissions
pub mod Prelude
pub mod Reconciliation
mod Samples
pub mod ServiceAccounts
pub mod Sync
pub mod Users
