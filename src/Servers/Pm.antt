-- ===== src/Servers/Pm.antt =====
-- servers/pm.c: the process manager. `State` has its queues and the searches in them, `Launch` and
-- `Exit` the requests, `Loop` the loop; `Family` is about parents and children.
pub mod State
pub mod Launch
pub mod Exit
pub mod Loop
pub mod Family
mod Tests
