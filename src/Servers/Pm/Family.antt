-- ===== src/Servers/Pm/Family.antt =====
-- servers/pm.c: parents and children in the three queues. `Invariant` is what holds of them, `Reach`
-- that it holds always; `Orders` and `Waking` are about an exit and the wait for it.
pub mod Kin
pub mod Invariant
pub mod Spawn
pub mod Orphans
pub mod Moved
pub mod Ends
pub mod Reach
pub mod Meeting
pub mod Orders
pub mod Waking
