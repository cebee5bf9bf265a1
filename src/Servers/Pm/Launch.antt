-- ===== src/Servers/Pm/Launch.antt =====
-- servers/pm.c: new tasks and programs, and the memory of a task.
use avros.Base.{ℕ, Bool, true, false, [], ◌∷◌, ◌++◌, ◌==◌, if◌then◌else◌, update, erase}
use avros.Kernel.State.{Pid}
use avros.Queue.{Ptr, null}
use avros.Servers.Pm.State.{
  PmTask, PmMsg, PmBus, Pm, sizeof_pm_task, sizeof_mem_chunk, pm_client, pm_pidof, set_task,
  with_sys, findchunk, kfree, free_chunks,
}

module _ {W : Type 0} (bus : PmBus W) where
  -- A new `pm_task_t`, which is in no queue yet; null if there is no memory.
  unfoldable pub pm_newtask : Pid → Ptr → Pm W → Ptr × Pm W
  pm_newtask pid parent k =
      let (pt, w) = bus.memory.take k.sys sizeof_pm_task in
      let k1 = record k { sys = w } in
      let t : PmTask = record { pid = pid; chunk_q = []; word = 0; parent = parent; args = null } in
      (pt, if pt == null then k1 else set_task pt t k1)

  -- The arguments of a task are replaced.
  unfoldable pub take_args : Ptr → Ptr → Pm W → Pm W
  take_args task newargs k =
      let k1 = if (k.tasks task).args == null then k else kfree bus (k.tasks task).args k in
      set_task task (record (k1.tasks task) { args = newargs }) k1

  -- The answer is whether there was memory for the arguments.
  unfoldable pub pm_setuptask : Ptr → ℕ → ℕ → Ptr → Pm W → Bool × Pm W
  unfolding free_chunks take_args
  pm_setuptask task stacksize entry argv k =
      let (newargs, w) = bus.memory.take k.sys (bus.argstack_size argv k.sys) in
      if newargs == null
      then (false, record k { sys = w })
      else let pid = pm_pidof task k in
        let k1 = record k { sys = bus.stoptask pid (bus.cook_argstack newargs argv w) } in
        let k2 = take_args task newargs (free_chunks bus task k1) in
        (
          true,
          with_sys (λ w. bus.setuptask pid entry newargs (bus.allocatestack pid stacksize w)) k2,
        )

  unfoldable pub do_pmalloc : PmMsg → Pm W → PmMsg × Pm W
  do_pmalloc msg k =
      let (chunk, w) = bus.memory.take k.sys sizeof_mem_chunk in
      let (ptr, w') = bus.memory.take w msg.w0 in
      let c = pm_client k in
      let t = k.tasks c in
      if chunk == null
      then (record msg { w0 = null }, record k { sys = w })
      else if ptr == null
      then (record msg { w0 = null }, kfree bus chunk (record k { sys = w' }))
      else (
        record msg { w0 = ptr },
        set_task c (record t { chunk_q = chunk ∷ t.chunk_q })
            (record k { sys = w'; chunks = update k.chunks chunk ptr }),
      )

  -- With a chunk that is not found nothing is taken out, and null is given back to the heap.
  unfoldable pub do_pmfree : PmMsg → Pm W → PmMsg × Pm W
  unfolding findchunk
  do_pmfree msg k =
      let c = pm_client k in
      let chunk = findchunk c msg.w0 k in
      let t = k.tasks c in
      if chunk == null then (msg, kfree bus null k) else (
        msg,
        kfree bus chunk (
            set_task c (record t { chunk_q = erase chunk t.chunk_q })
              (if k.chunks chunk == null then k else kfree bus (k.chunks chunk) k)),
      )

  -- The end of `do_spawn` and `do_spawnexec`, from the call of `pm_setuptask` on.
  unfoldable pub launch : Ptr → Pid → ℕ → ℕ → Ptr → PmMsg → Pm W → PmMsg × Pm W
  unfolding pm_setuptask
  launch pm_task task stacksize entry argv msg k =
      let (made, k1) = pm_setuptask pm_task stacksize entry argv k in
      if made then (record msg { w0 = task }, with_sys (bus.starttask task) k1) else (msg, k1)

  -- The new task joins the others, and is made known to the file server.
  unfoldable pub spawn_new : Pid → Ptr → PmMsg → Pm W → PmMsg × Pm W
  unfolding launch
  spawn_new task pm_task msg k =
      let k1 = record k { task_q = k.task_q ++ pm_task ∷ [] } in
      let (known, w) = bus.vfs_createtask task (pm_pidof (pm_client k1) k1) k1.sys in
      let k2 = record k1 { sys = w } in
      if known == null then (msg, k2) else launch pm_task task msg.w1 msg.w0 msg.w2 msg k2

  unfoldable pub do_spawn : PmMsg → Pm W → PmMsg × Pm W
  unfolding pm_newtask spawn_new
  do_spawn msg k =
      let (task, w) = bus.createtask k.sys in
      let k0 = record k { sys = w } in
      let (pm_task, k1) = pm_newtask task (pm_client k0) k0 in
      if task == null
      then (msg, k0)
      else if pm_task == null
      then (msg, k1)
      else spawn_new task pm_task msg k1

  -- The answer is whether a reply is sent: only if the program is not known.
  unfoldable pub do_exec : PmMsg → Pm W → Bool × Pm W
  unfolding pm_setuptask
  do_exec msg k =
      let (prg, w) = bus.ex_getprg msg.w0 k.sys in
      let k1 = record k { sys = w } in
      let (made, k2) = pm_setuptask (pm_client k1) prg.1 prg.0 msg.w1 k1 in
      if prg.0 == null
      then (true, k1)
      else (false, if made then with_sys (bus.starttask (k2.tasks (pm_client k2)).pid) k2 else k2)

  -- The program is looked up when the new task is in the queue.
  unfoldable pub exec_new : Pid → Ptr → PmMsg → Pm W → PmMsg × Pm W
  unfolding launch
  exec_new task pm_task msg k =
      let k1 = record k { task_q = k.task_q ++ pm_task ∷ [] } in
      let (prg, w) = bus.ex_getprg msg.w0 k1.sys in
      let k2 = record k1 { sys = w } in
      if prg.0 == null then (msg, k2) else launch pm_task task prg.1 prg.0 msg.w1 msg k2

  unfoldable pub do_spawnexec : PmMsg → Pm W → PmMsg × Pm W
  unfolding pm_newtask exec_new
  do_spawnexec msg k =
      let (task, w) = bus.createtask k.sys in
      let k0 = record k { sys = w } in
      let (known, w1) = bus.vfs_createtask task (pm_pidof (pm_client k0) k0) w in
      let k1 = record k { sys = w1 } in
      let (pm_task, k2) = pm_newtask task (pm_client k1) k1 in
      if task == null
      then (msg, k0)
      else if known == null
      then (msg, k1)
      else if pm_task == null
      then (msg, k2)
      else exec_new task pm_task msg k2
