-- ===== src/Servers/Vfs.antt =====
-- servers/vfs.c: the server of files. `State` has its tables, `Files` the calls on descriptors,
-- `Names` the ways from a name to a node, `Loop` the tasks, the devices and the loop.
pub mod State
pub mod Files
pub mod Names
pub mod Loop
pub mod Calls
pub mod Refs
pub mod Close
pub mod Walk
pub mod Descriptors
mod Tests
pub mod Talk
pub mod Pipes
