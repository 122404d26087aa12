-- ===== src/Storage.antt =====
-- storage/: the bytes of a B-tree node, and the pages and the meta page of the store.
pub mod Node
pub mod Pages
pub mod Meta
pub mod Tree
pub mod Transaction
