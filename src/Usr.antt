-- ===== src/Usr.antt =====
-- The user programs of usr/: the printing of numbers of their library in `Print`, and the shell.
-- `Line` is about the reading of a command line, `Words` about the words of a job, `Shell` about what
-- the shell calls, `Exec` about the process of a job, and `Jobs` about the jobs of a line.
pub mod Print
pub mod Line
pub mod Words
pub mod Shell
pub mod Text
pub mod Exec
pub mod Jobs
mod Tests
