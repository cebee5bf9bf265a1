-- ===== src/Drivers.antt =====
-- The drivers of drivers/: tasks that serve the file server. `Message` has the messages of
-- servers/vfs.h.
pub mod Message
pub mod Pipe
pub mod Ramdisk
pub mod Tty
