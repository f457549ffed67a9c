-- ===== src/Api.antt =====
-- na_sso/api_contract.py: the rate limit, the guard and the idempotent requests of the interface.
pub mod Rate
pub mod Window
pub mod Idempotency
pub mod Replay
mod Examples
