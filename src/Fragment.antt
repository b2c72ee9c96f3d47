-- ===== src/Fragment.antt =====
-- src/fragment.rs: the fragment prefix (Codec), the trimming of a padded IP packet (Trim), the
-- two-fragment splitter (Split) and the two reassemblers (Traditional, Segmented).
pub mod Codec
pub mod Trim
pub mod Split
pub mod Traditional
pub mod Segmented
