-- ===== src/Bonsai.antt =====
-- src/ds_impl/nr/bonsai_tree.rs: a weight-balanced search tree that operations copy and swap in.
pub mod Order
pub mod Entries
pub mod Node
pub mod State
pub mod Balance
pub mod Update
pub mod Map
