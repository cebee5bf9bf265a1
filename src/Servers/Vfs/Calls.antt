-- ===== src/Servers/Vfs/Calls.antt =====
-- servers/vfs.c: the calls of the clients, as the messages that they send and what they return.
-- `atoi` of the C library is a parameter.
use avros.Base.{ℕ, List, [], ◌∷◌, ◌++◌, ◌==◌, if◌then◌else◌}
use avros.Kernel.State.{Pid}
use avros.Queue.{Ptr}
use avros.Drivers.Message.{
  VfsMsg, vfs_rd_interrupt, vfs_wr_interrupt, vfs_mknod, vfs_mkdev, vfs_debug as debug_cmd,
  vfs_stat, vfs_dup, vfs_pipe, vfs_open, vfs_close, vfs_readc, vfs_writec, vfs_addtask, vfs_deltask,
}
use avros.Servers.Vfs.Names.{slash}

-- The loop of `open`, which cuts the name at its first slash: what stands before and behind it.
unfoldable pub cut_name : List ℕ → List ℕ → List ℕ × List ℕ
cut_name before [] = (before, [])
cut_name before (c ∷ name) =
    let rest = cut_name (before ++ c ∷ []) name in if c == slash then (before, name) else rest

pub data VfsCall : Type 0 where
  rd_interrupt wr_interrupt : (driver : Pid) → VfsCall
  writec : (fd c : ℕ) → VfsCall
  readc close dup : (fd : ℕ) → VfsCall
  createtask : (pid parent : Pid) → VfsCall
  deletetask : (pid : Pid) → VfsCall
  mkdev : (p args : Ptr) → VfsCall
  mknod : (dev : ℕ) (name : Ptr) → VfsCall
  pipe : VfsCall
  fstat : (name : Ptr) → VfsCall
  open_name : (name : List ℕ) → VfsCall
  debugn : (reset : ℕ) → VfsCall

-- The message of a call, over what the message held before.
module _ (atoi : List ℕ → ℕ) where
  unfoldable pub vfs_request : VfsCall → VfsMsg → VfsMsg
  unfolding cut_name
  vfs_request (rd_interrupt driver) m = record m { cmd = vfs_rd_interrupt; client = driver }
  vfs_request (wr_interrupt driver) m = record m { cmd = vfs_wr_interrupt; client = driver }
  vfs_request (writec fd c) m = record m { cmd = vfs_writec; ino = fd; data_of = c }
  vfs_request (readc fd) m = record m { cmd = vfs_readc; ino = fd }
  vfs_request (createtask pid parent) m = record m { cmd = vfs_addtask; ino = pid; bnum = parent }
  vfs_request (deletetask pid) m = record m { cmd = vfs_deltask; ino = pid }
  vfs_request (mkdev p args) m = record m { cmd = vfs_mkdev; ino = p; bnum = args }
  vfs_request (mknod dev name) m = record m { cmd = vfs_mknod; ino = dev; bnum = name }
  vfs_request pipe m = record m { cmd = vfs_pipe }
  vfs_request (fstat name) m = record m { cmd = vfs_stat; ino = name }
  vfs_request (open_name name) m =
      let (dev, ino) = cut_name [] name in
      record m { cmd = vfs_open; ino = atoi dev; bnum = atoi ino }
  vfs_request (close fd) m = record m { cmd = vfs_close; ino = fd }
  vfs_request (dup fd) m = record m { cmd = vfs_dup; ino = fd }
  vfs_request (debugn reset) m = record m { cmd = debug_cmd; ino = reset }

-- What a call returns, from the message of the answer; `pipe` and `fstat` also write the first
-- words. A call that returns nothing has 0.
unfoldable pub vfs_value : VfsCall → VfsMsg → ℕ
vfs_value (writec fd c) m = m.data_of
vfs_value (readc fd) m = m.data_of
vfs_value (createtask pid parent) m = m.ino
vfs_value (mkdev p args) m = m.ino
vfs_value (mknod dev name) m = m.ino
vfs_value pipe m = m.data_of
vfs_value (fstat name) m = m.ino
vfs_value (open_name name) m = m.ino
vfs_value (dup fd) m = m.ino
vfs_value (debugn reset) m = m.ino
vfs_value _ m = 0
