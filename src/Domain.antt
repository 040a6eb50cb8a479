-- ===== src/Domain.antt =====
-- crates/brain-domain: the types that every other crate speaks.
pub mod Harness
pub mod Memory
pub mod Slug
pub mod Event
mod Tests
