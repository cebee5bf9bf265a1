-- ===== src/Servers.antt =====
-- The servers of servers/: tasks that take a request and answer it. `Memory` is the heap that
-- they use through the kernel calls; the others are the servers.
pub mod Memory
pub mod Sema
pub mod Ts
pub mod Ex
pub mod Args
pub mod Pm
pub mod Vfs
