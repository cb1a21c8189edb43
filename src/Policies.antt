-- ===== src/Policies.antt =====
-- src/modules/policies: conditions, statements and policies of the access control.
pub mod Condition
pub mod Statement
pub mod Policy
pub mod Samples
mod Tests
