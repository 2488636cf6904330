-- ===== src/Data.antt =====
-- my_cyber/data: the buffers between a channel's writers and its readers.
pub mod Cache
pub mod Channel
pub mod Fusion
