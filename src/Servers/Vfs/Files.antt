-- ===== src/Servers/Vfs/Files.antt =====
-- servers/vfs.c: the calls on descriptors. The client is the pid by which its task is found;
-- `none` when the code reads past its tables or through a null client, or waits for ever.
use avros.Base.{
  ℕ, zero, suc, ◌+◌, ◌%◌, Bool, true, false, ◌||◌, not, Option, none, some, ◌==◌, ◌>>=◌,
  if◌then◌else◌, update, get_elem?, set,
}
use avros.Kernel.State.{Pid}
use avros.Drivers.Message.{
  VfsCmd, minus_one, vfs_final, vfs_mknod, vfs_inode_grab, vfs_inode_release,
}
use avros.Servers.Vfs.State.{
  Filp, VfsTask, Bus, Vfs, neg, next_byte, before_byte, find_empty_filp, find_empty_fd,
  vfs_findbypid, is_repeat, with_msg, dev_pid, with_refs, set_fd, exchange, answer,
}

module _ {W : Type 0} where
  -- The first word of the message, where the answer of most calls stands.
  abbrev pub result : ℕ → Vfs W → Vfs W
  result n k = with_msg (record k.msg { ino = n }) k

  -- The task of the client, which must be there.
  abbrev pub client_task : Pid → Vfs W → Option VfsTask
  client_task client k = vfs_findbypid client k.tasks

  -- `client->fd[fd] = fp; filp[fp].refcnt++`
  unfoldable pub attach : Pid → VfsTask → ℕ → ℕ → Vfs W → Vfs W
  attach client t fd fp k = record (set_fd client t (set t.fd fd fp) k) {
    filp = with_refs next_byte fp k.filp;
  }

  -- What `do_dup` does with the descriptor's open file `fp`.
  unfoldable pub dup_filp : Pid → VfsTask → ℕ → Vfs W → Vfs W
  unfolding attach
  dup_filp client t fp k = if neg fp then result minus_one k else elim (find_empty_fd t) [
    | none ↦ result minus_one k
    | some fd ↦ result fd (attach client t fd fp k)
  ]

  unfoldable pub do_dup : Pid → Vfs W → Option (Vfs W)
  unfolding dup_filp
  do_dup client k =
      if neg k.msg.ino
      then some (result minus_one k)
      else do t ← client_task client k; fp ← get_elem? t.fd k.msg.ino; some (dup_filp client t fp k)

  abbrev pub with_filp : (ℕ → Filp) → Vfs W → Vfs W
  with_filp filp k = record k { filp = filp }

  -- `--(filp[fp].refcnt)`
  abbrev pub drop_ref : ℕ → Vfs W → Vfs W
  drop_ref fp k = with_filp (with_refs before_byte fp k.filp) k

  -- `do_open` fills the open file in before it asks for the node.
  unfoldable pub fill_filp : ℕ → Vfs W → Vfs W
  fill_filp fp k = record k {
    filp = update k.filp fp (record (k.filp fp) { dev = k.msg.ino; ino = k.msg.bnum; pos = 0 });
    msg = record k.msg { cmd = vfs_inode_grab; ino = k.msg.bnum };
  }

  -- The end of `do_open`, when the device answered.
  unfoldable pub opened : Pid → VfsTask → ℕ → ℕ → Vfs W → Vfs W
  unfolding attach
  opened client t fd fp k =
      if neg k.msg.ino then result minus_one k else result fd (attach client t fd fp k)

  module _ (bus : Bus W) where
    -- The loops on VFS_REPEAT: the waiting client is told, and the device goes on. `do_close`
    -- sends also to a null client, which the others test for.
    unfoldable pub answer_waiting : Bool → Vfs W → Option (Vfs W)
    answer_waiting tested k =
        if tested
        then (if k.msg.client == 0 then some k else answer bus k.msg.client k)
        else answer bus k.msg.client k

    unfoldable pub repeat_loop : Bool → ℕ → Pid → Vfs W → Option (Vfs W)
    unfolding answer_waiting
    repeat_loop tested zero pid k = none
    repeat_loop tested (suc fuel) pid k = elim (is_repeat k.msg.cmd) [
      | false ↦ some k
      | true ↦ (do
        k1 ← answer_waiting tested (with_msg (record k.msg { cmd = vfs_final }) k)
        k2 ← exchange bus pid k1
        repeat_loop tested fuel pid k2)
    ]

    -- `sendrec` to a device, and the loop on VFS_REPEAT behind it.
    unfoldable pub transact : Bool → ℕ → Pid → Vfs W → Option (Vfs W)
    unfolding repeat_loop
    transact tested fuel pid k = exchange bus pid k >>= repeat_loop tested fuel pid

    -- `sendrec` to the device of that number, alone.
    unfoldable pub exchange_dev : ℕ → Vfs W → Option (Vfs W)
    exchange_dev dev k = dev_pid dev k >>= λ pid. exchange bus pid k

    -- The node of an open file is released.
    unfoldable pub release_node : ℕ → ℕ → Vfs W → Option (Vfs W)
    unfolding transact
    release_node fuel fp k = do
      pid ← dev_pid (k.filp fp).dev k
      transact false fuel pid
          (with_msg (record k.msg { cmd = vfs_inode_release; ino = (k.filp fp).ino }) k)

    -- The node is released if the open file has no reference left.
    unfoldable pub close_last : ℕ → ℕ → Vfs W → Option (Vfs W)
    unfolding release_node
    close_last fuel fp k = if not ((k.filp fp).refcnt == 0) then some k else release_node fuel fp k

    -- What `do_close` does after it emptied the descriptor, which held `fp`.
    unfoldable pub close_filp : ℕ → ℕ → Vfs W → Option (Vfs W)
    unfolding close_last
    close_filp fuel fp k =
        if neg fp || ((k.filp fp).refcnt == 0) then some k else close_last fuel fp (drop_ref fp k)

    unfoldable pub do_close : ℕ → Pid → Vfs W → Option (Vfs W)
    unfolding close_filp
    do_close fuel client k = if neg k.msg.ino then some k else do
      t ← client_task client k
      fp ← get_elem? t.fd k.msg.ino
      close_filp fuel fp (set_fd client t (set t.fd k.msg.ino minus_one) k)

    unfoldable pub open_filp : Pid → VfsTask → ℕ → ℕ → Vfs W → Option (Vfs W)
    unfolding fill_filp opened exchange_dev
    open_filp client t fd fp k =
        exchange_dev k.msg.ino (fill_filp fp k) >>= λ k1. some (opened client t fd fp k1)

    unfoldable pub do_open : Pid → Vfs W → Option (Vfs W)
    unfolding open_filp
    do_open client k = do
      t ← client_task client k
      elim (find_empty_fd t) [
        | none ↦ some (result minus_one k)
        | some fd ↦ elim (find_empty_filp k.filp) [
          | none ↦ some (result minus_one k)
          | some fp ↦ open_filp client t fd fp k
        ]
      ]

    -- A read or a write on the open file `fp`.
    unfoldable pub rw_filp : ℕ → ℕ → Vfs W → Option (Vfs W)
    unfolding transact
    rw_filp fuel fp k =
        if neg fp then some (with_msg (record k.msg { data_of = minus_one }) k) else do
          pid ← dev_pid (k.filp fp).dev k
          k1 ←
              transact true fuel pid
                (with_msg (record k.msg { ino = (k.filp fp).ino; bnum = (k.filp fp).pos }) k)
          some (record k1 {
            filp =
                update k1.filp fp
                  (record (k1.filp fp) { pos = ((k1.filp fp).pos + k1.msg.bnum) % 65536 });
          })

    unfoldable pub do_rw : ℕ → Pid → Vfs W → Option (Vfs W)
    unfolding rw_filp
    do_rw fuel client k =
        if neg k.msg.ino
        then some (with_msg (record k.msg { data_of = minus_one }) k)
        else do t ← client_task client k; fp ← get_elem? t.fd k.msg.ino; rw_filp fuel fp k

    -- An interrupt: the driver is the client, and is asked until it has no more to tell.
    unfoldable pub do_int : ℕ → Vfs W → Option (Vfs W)
    unfolding transact
    do_int fuel k = transact true fuel k.msg.client k

  -- `msg->pipe.result = n`
  abbrev pub pipe_result : ℕ → Vfs W → Vfs W
  pipe_result n k = with_msg (record k.msg { data_of = n }) k

  -- A free open file and a free descriptor become one end of a pipe.
  unfoldable pub pipe_attach : Pid → ℕ → ℕ → ℕ → VfsTask → Vfs W → Vfs W
  unfolding attach
  pipe_attach client ino fp fd t k =
      let filled = record (k.filp fp) { dev = k.pipedev_idx; ino = ino } in
      attach client t fd fp (with_filp (update k.filp fp filled) k)

  -- One end of a pipe: the descriptor, if an open file and a descriptor are free.
  unfoldable pub pipe_end : Pid → ℕ → Vfs W → Option (Option ℕ × Vfs W)
  unfolding pipe_attach
  pipe_end client ino k = elim (find_empty_filp k.filp) [
    | none ↦ some (none, k)
    | some fp ↦ client_task client k >>= λ t. elim (find_empty_fd t) [
      | none ↦ some (none, k)
      | some fd ↦ some (some fd, pipe_attach client ino fp fd t k)
    ]
  ]

  -- After the second end, and after the first one.
  unfoldable pub pipe_done : Option ℕ × Vfs W → Option (Vfs W)
  pipe_done (none, k) = some (pipe_result minus_one k)
  pipe_done (some o, k) = some (pipe_result 0 (with_msg (record k.msg { bnum = o }) k))

  unfoldable pub pipe_out : Pid → ℕ → Option ℕ → Vfs W → Option (Vfs W)
  unfolding pipe_end pipe_done
  pipe_out client ino none k = some (pipe_result minus_one k)
  pipe_out client ino (some i) k = pipe_end client ino (result i k) >>= pipe_done

  -- The two ends, and the result of the call.
  unfoldable pub pipe_ends : Pid → ℕ → Vfs W → Option (Vfs W)
  unfolding pipe_end pipe_out
  pipe_ends client ino k = pipe_end client ino k >>= λ r. pipe_out client ino r.0 r.1

  module _ (bus : Bus W) where
    -- A request about a node to the pipe device.
    unfoldable pub ask_pipedev : VfsCmd → ℕ → Vfs W → Option (Vfs W)
    unfolding exchange_dev
    ask_pipedev cmd ino k =
        exchange_dev bus k.pipedev_idx (with_msg (record k.msg { cmd = cmd; ino = ino }) k)

    unfoldable pub do_pipe : Pid → Vfs W → Option (Vfs W)
    unfolding ask_pipedev pipe_ends
    do_pipe client k = do
      k1 ← ask_pipedev vfs_mknod k.msg.ino k
      if neg k1.msg.ino then some (pipe_result minus_one k1) else do
        let ino = k1.msg.ino
        k2 ← ask_pipedev vfs_inode_grab ino k1
        if neg k2.msg.ino then some (pipe_result minus_one k2) else do
          k3 ← ask_pipedev vfs_inode_grab ino k2
          if neg k3.msg.ino then some (pipe_result minus_one k3) else pipe_ends client ino k3
