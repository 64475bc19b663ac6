-- ===== src/Ebr.antt =====
-- Epoch-based reclamation, smrs/circ/src/smr/ebr_impl.
pub mod Epoch
pub mod Bag
pub mod Queue
pub mod Race
pub mod Global
pub mod Local
pub mod Intrusive
