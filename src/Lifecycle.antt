-- ===== src/Lifecycle.antt =====
-- na_sso/lifecycle.py: the persisted values, the conflict rules and the presentation of states.
pub mod Values
pub mod Transition
pub mod States
