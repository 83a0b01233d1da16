-- ===== src/Ring.antt =====
-- Doubly linked circular lists, which the kernel links into the nodes themselves: the free list of
-- kernel/fs/bhash.c, the free i-nodes of kernel/fs/vfs.c and the nodes of kernel/lib/clinkedl.c. `nxt`
-- and `prv` are the two link fields of every node, by its address.
pub mod Links
pub mod Edit
pub mod Member
