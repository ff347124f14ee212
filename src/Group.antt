-- ===== src/Group.antt =====
-- Group state that is local to an installation: rust/src/local_group_state.rs, and the rosters of
-- rust/src/api/group_e2ee.rs that it is made of.
pub mod Errors
pub mod Roster
pub mod State
pub mod Retry
