-- ===== src/Servers/Vfs/Loop.antt =====
-- servers/vfs.c: the tasks and the devices, the loop of the server, and the calls of its clients.
use avros.Base.{
  ℕ, zero, suc, ◌&&◌, not, Option, none, some, List, [], ◌∷◌, ◌++◌, ◌==◌, ◌>>=◌, if◌then◌else◌,
  update, replicate,
}
use avros.Kernel.State.{Pid}
use avros.Queue.{null}
use avros.Drivers.Message.{
  VfsMsg, VfsCmd, minus_one, cmd_code, vfs_hold, vfs_final, vfs_rd_interrupt, vfs_wr_interrupt,
  vfs_mknod, vfs_mkdev, vfs_debug, vfs_stat, vfs_dup, vfs_pipe, vfs_open, vfs_close, vfs_readc,
  vfs_writec, vfs_addtask, vfs_deltask,
}
use avros.Servers.Vfs.State.{
  Filp, VfsTask, Bus, Vfs, neg, next_byte, max_fd, no_filp, find_empty_devtab, vfs_findbypid,
  remove_task, with_msg, with_refs, answer,
}
use avros.Servers.Vfs.Files.{result, do_dup, do_open, do_close, do_rw, do_int, do_pipe}
use avros.Servers.Vfs.Names.{do_mknod, do_stat}

abbrev pub sizeof_vfs_task : ℕ
sizeof_vfs_task = 30

-- The loop that gives a child the descriptors of its parent, from the first one on.
unfoldable pub inherit_fds : List ℕ → (ℕ → Filp) → List ℕ × (ℕ → Filp)
inherit_fds [] filp = ([], filp)
inherit_fds (f ∷ fs) filp =
    let filp' = if neg f then filp else with_refs next_byte f filp in
    let (rest, filp'') = inherit_fds fs filp' in ((if neg f then minus_one else f) ∷ rest, filp'')

-- A task with no descriptor, in the root of device 1.
abbrev pub fresh_task : ℕ → Pid → VfsTask
fresh_task at pid = record {
  at = at;
  pid = pid;
  fd = replicate max_fd minus_one;
  wdev = 1;
  wino = 0;
  rdev = 1;
  rino = 0;
}

-- The tables after the calls of `memset`.
abbrev pub no_tables : {W : Type 0} → VfsMsg → W → Vfs W
no_tables msg sys = record {
  devtab = λ _. 0;
  pipedev_idx = 0;
  debugn = 0;
  filp = λ _. no_filp;
  tasks = [];
  msg = msg;
  sys = sys;
}

module _ {W : Type 0} (bus : Bus W) where
  -- The loop of `vfs_removetask`, with `rounds` descriptors left from `i` on.
  unfoldable pub close_all : ℕ → Pid → ℕ → ℕ → Vfs W → Option (Vfs W)
  unfolding do_close
  close_all fuel pid zero i k = some k
  close_all fuel pid (suc rounds) i k =
      do_close bus fuel pid (result i k) >>= close_all fuel pid rounds (suc i)

  -- The task `pt` that the message names goes with its descriptors.
  unfoldable pub remove_found : ℕ → VfsTask → Vfs W → Option (Vfs W)
  unfolding close_all
  remove_found fuel pt k = close_all fuel k.msg.ino max_fd 0 k >>= λ k1.
      some
        (record k1 { tasks = remove_task k.msg.ino k1.tasks; sys = bus.memory.give k1.sys pt.at })

  unfoldable pub vfs_removetask : ℕ → Vfs W → Option (Vfs W)
  unfolding remove_found
  vfs_removetask fuel k = elim (vfs_findbypid k.msg.ino k.tasks) [
    | none ↦ some k
    | some pt ↦ remove_found fuel pt k
  ]

  -- The child `pt`, which stands last in the queue, gets what its parent has.
  unfoldable pub inherit : VfsTask → VfsTask → List VfsTask → Vfs W → Vfs W
  unfolding inherit_fds
  inherit pt parent older k =
      let (fds, filp) = inherit_fds parent.fd k.filp in
      record k {
        tasks = older ++ record parent { at = pt.at; pid = pt.pid; fd = fds } ∷ [];
        filp = filp;
      }

  -- The new task `pt` looks for its parent.
  unfoldable pub find_parent : ℕ → VfsTask → List VfsTask → Vfs W → Option (Vfs W)
  unfolding vfs_removetask inherit
  find_parent fuel pt older k = elim (vfs_findbypid k.msg.bnum k.tasks) [
    | none ↦ vfs_removetask fuel k >>= λ k1. some (result null k1)
    | some parent ↦ some (inherit pt parent older k)
  ]

  unfoldable pub vfs_addnewtask : ℕ → Vfs W → Option (Vfs W)
  unfolding find_parent
  vfs_addnewtask fuel k =
      let (at, w) = bus.memory.take k.sys sizeof_vfs_task in
      let pt = fresh_task at k.msg.ino in
      let k1 = record k { tasks = k.tasks ++ pt ∷ []; sys = w } in
      if at == null
      then some (result null (record k { sys = w }))
      else if k.msg.bnum == 0
      then some k1
      else find_parent fuel pt k.tasks k1

  -- `do_mkdev`, with `setup_dev`: the driver and its argument are the first words of the message.
  unfoldable pub do_mkdev : Vfs W → Vfs W
  do_mkdev k = elim (find_empty_devtab k.devtab) [
    | none ↦ result minus_one k
    | some i ↦
        let (pid, w) = bus.start_driver k.msg.ino k.msg.bnum k.sys in
        result i (record k { devtab = update k.devtab i pid; sys = w })
  ]

  -- `vfs_init`, on the message that the server starts with. `pipedev` is the entry of its driver.
  unfoldable pub vfs_init : ℕ → VfsMsg → W → Vfs W
  unfolding do_mkdev
  vfs_init pipedev msg sys =
      let k = do_mkdev (no_tables (record msg { cmd = vfs_mkdev; ino = pipedev; bnum = 0 }) sys) in
      record k { pipedev_idx = k.msg.ino }

  -- VFS_DEBUG; the word is `interrupt.data`.
  abbrev pub do_debug : Vfs W → Vfs W
  do_debug k =
      let debugn = if k.msg.ino == 0 then k.debugn else 0 in
      result debugn (record k { debugn = debugn })

  -- The switch on the command: the task to be answered, and the server. `garbage` is what an
  -- unwritten local holds, and `fuel` bounds the answers of a device to one request.
  unfoldable pub serve : ℕ → ℕ → VfsCmd → Pid → Vfs W → Option (Pid × Vfs W)
  unfolding do_dup do_open do_close do_rw do_int do_pipe do_mknod do_stat vfs_addnewtask
      vfs_removetask do_mkdev
  serve fuel garbage vfs_addtask client k = vfs_addnewtask fuel k >>= λ k1. some (client, k1)
  serve fuel garbage vfs_deltask client k = vfs_removetask fuel k >>= λ k1. some (client, k1)
  serve fuel garbage vfs_mkdev client k = some (client, do_mkdev k)
  serve fuel garbage vfs_mknod client k = do_mknod bus garbage client k >>= λ k1. some (client, k1)
  serve fuel garbage vfs_dup client k = do_dup client k >>= λ k1. some (client, k1)
  serve fuel garbage vfs_pipe client k = do_pipe bus client k >>= λ k1. some (client, k1)
  serve fuel garbage vfs_stat client k = do_stat bus garbage client k >>= λ k1. some (client, k1)
  serve fuel garbage vfs_open client k = do_open bus client k >>= λ k1. some (client, k1)
  serve fuel garbage vfs_close client k = do_close bus fuel client k >>= λ k1. some (client, k1)
  serve fuel garbage vfs_rd_interrupt client k =
      do_int bus fuel k >>= λ k1. some (k1.msg.client, k1)
  serve fuel garbage vfs_wr_interrupt client k =
      do_int bus fuel k >>= λ k1. some (k1.msg.client, k1)
  serve fuel garbage vfs_readc client k =
      do_rw bus fuel client (with_msg (record k.msg { client = client }) k) >>= λ k1.
      some (client, k1)
  serve fuel garbage vfs_writec client k =
      do_rw bus fuel client (with_msg (record k.msg { client = client }) k) >>= λ k1.
      some (client, k1)
  serve fuel garbage vfs_debug client k = some (client, do_debug k)
  serve fuel garbage _ client k = some (client, k)

  -- The answer, unless the device holds the request.
  unfoldable pub vfs_reply : Pid → Vfs W → Option (Vfs W)
  vfs_reply client k =
      if not (cmd_code k.msg.cmd == cmd_code vfs_hold) && not (client == 0)
      then answer bus client (with_msg (record k.msg { cmd = vfs_final }) k)
      else some k

  -- A pass of the loop of `vfs` after `receive`, which gave it the client and the message.
  unfoldable pub vfs : ℕ → ℕ → Pid → VfsMsg → Vfs W → Option (Vfs W)
  unfolding serve vfs_reply
  vfs fuel garbage client msg k = do
    (to, k1) ← serve fuel garbage msg.cmd client (with_msg msg k)
    vfs_reply to k1
