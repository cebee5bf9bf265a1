-- ===== src/Drivers/Message.antt =====
-- The commands of servers/vfs.h and the fields of its messages that the drivers use.
use avros.Base.{ℕ}
use avros.Kernel.State.{Pid}

pub data VfsCmd : Type 0 where
  vfs_hold vfs_repeat vfs_final vfs_rd_interrupt vfs_wr_interrupt : VfsCmd
  vfs_inode_grab vfs_inode_release vfs_link vfs_unlink vfs_mknod vfs_mkdev : VfsCmd
  vfs_get_direntry vfs_debug vfs_stat vfs_dup vfs_pipe vfs_open vfs_close vfs_creat : VfsCmd
  vfs_readc vfs_writec vfs_addtask vfs_deltask : VfsCmd

abbrev pub cmd_code : VfsCmd → ℕ
cmd_code vfs_hold = 0
cmd_code vfs_repeat = 1
cmd_code vfs_final = 2
cmd_code vfs_rd_interrupt = 3
cmd_code vfs_wr_interrupt = 4
cmd_code vfs_inode_grab = 5
cmd_code vfs_inode_release = 6
cmd_code vfs_link = 7
cmd_code vfs_unlink = 8
cmd_code vfs_mknod = 9
cmd_code vfs_mkdev = 10
cmd_code vfs_get_direntry = 11
cmd_code vfs_debug = 12
cmd_code vfs_stat = 13
cmd_code vfs_dup = 14
cmd_code vfs_pipe = 15
cmd_code vfs_open = 16
cmd_code vfs_close = 17
cmd_code vfs_creat = 18
cmd_code vfs_readc = 19
cmd_code vfs_writec = 20
cmd_code vfs_addtask = 21
cmd_code vfs_deltask = 22

-- `vfsmsg_t`: the union is three words, which have here the names of `rwc_t`. The other parts of
-- the union read them by their place: `ino` is also the first word of `iget` and of `openclose`,
-- the `fd` of `dup` and the `pid` of `adddel`. (A fourth word, the size in `stat`, is not used.)
pub record VfsMsg : Type 0 where
  pub cmd : VfsCmd
  pub client : Pid
  pub ino : ℕ
  pub bnum : ℕ
  pub data_of : ℕ

-- `link.ino` stands behind `link.dir_ino`.
abbrev pub link_ino : VfsMsg → ℕ
link_ino msg = msg.bnum

-- The `int` −1: EOF, and the number of a node that does not exist.
abbrev pub minus_one : ℕ
minus_one = 0xffff
