-- ===== src/Rmm.antt =====
-- tetd_cca/rmm/runtime/rmi/rtt.c: the host calls on the translation tables of a realm.
pub mod Interface
pub mod Outcome
pub mod Validate
pub mod Structure
pub mod Unprotected
pub mod Data
pub mod Ripas
pub mod Block
pub mod Discipline
pub mod Quiet
pub mod Entry
pub mod Refcount
pub mod Scrub
mod Tests
pub mod Handler
pub mod Total
pub mod Exit
