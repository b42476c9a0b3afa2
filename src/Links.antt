-- ===== src/Links.antt =====
-- Doubly linked lists over a store: the shape that the kernel's intrusive queues share.
-- A queue links its nodes through two pointer fields, here functions from a node to its pointer
-- (`none` is NULL). The nodes in order are a list of addresses.
mod Laws
pub use Laws.*
mod Segs
pub use Segs.*
mod Defs
unfoldable pub use Defs.*
