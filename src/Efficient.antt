-- ===== src/Efficient.antt =====
-- The containers under toolkit/source/efficient.
pub mod TwLinkList
pub mod Queue
pub mod Stack
pub mod InstwLinkList
pub mod AnnularCache
