-- ===== src/Util.antt =====
-- src/util/: the test of whose a transaction is, and the choice of the outputs that a ring is filled up with.
pub mod GammaPicker
pub mod OwnershipTest
pub mod RandomOutputs
