-- ===== src/Kernel.antt =====
-- The microkernel, kernel/kernel.c with the register macros of kernel/hal.h: `State` holds the
-- tasks and queues, `Calls` the helpers of the kernel loop, `Loop` the loop itself. The other
-- modules are about them: `Search` about the walks over the blocked queue, `Places` and
-- `Conserve` about the queues in which a task stands, `Schedule` about the scheduler,
-- `Rendezvous` and `Separation` about blocked tasks that could exchange a message, `Priority`
-- about priorities, `Messages` about what a delivery leaves behind, and `Reach` about the states
-- that the loop reaches.
pub mod State
pub mod Calls
pub mod Loop
pub mod Search
pub mod Places
pub mod Conserve
pub mod Schedule
pub mod Rendezvous
pub mod Separation
pub mod Priority
pub mod Reach
mod Tests
pub mod Messages
