-- ===== src/Servers/Pm/Exit.antt =====
-- servers/pm.c: the end of a task, and the wait for it.
use avros.Base.{
  Bool, ◌&&◌, ◌||◌, not, Option, none, some, [], ◌∷◌, ◌++◌, ◌==◌, if◌then◌else◌, erase,
}
use avros.Kernel.State.{Pid, task_any}
use avros.Kernel.Calls.{q_forall}
use avros.Queue.{Ptr, null}
use avros.Servers.Pm.State.{
  PmMsg, PmBus, Pm, pm_client, pm_pidof, set_task, with_sys, pm_haschild, pm_findzombie,
  pm_findmyparent, pm_makechildorphan, first_by, kfree, pm_removechild, free_chunks,
}

module _ {W : Type 0} (bus : PmBus W) where
  -- The first half of `do_exit`: the client's memory and its tasks in the kernel and the file
  -- server go, its zombie children too, and its other children have no parent any more.
  unfoldable pub leave : Pm W → Pm W
  unfolding free_chunks pm_removechild pm_makechildorphan
  leave k =
      let c = pm_client k in
      let k1 = free_chunks bus c k in
      let pid = pm_pidof c k1 in
      let k2 =
        with_sys
          (λ w. bus.vfs_deletetask (k1.tasks c).pid (bus.deletetask pid (bus.stoptask pid w))) k1 in
      let k3 = (q_forall (pm_removechild bus) k2.zombie_q k2).1 in
      let k4 = (q_forall pm_makechildorphan k3.wait_q k3).1 in
      (q_forall pm_makechildorphan k4.task_q k4).1

  -- The client is taken out and given back to the heap.
  unfoldable pub drop_client : Pm W → Pm W
  drop_client k =
      let c = pm_client k in
      kfree bus c (record (kfree bus (k.tasks c).args k) { task_q = erase c k.task_q })

  -- Whether the task `p`, null or a parent that waits, waits for the client.
  abbrev pub waits : Ptr → Pm W → Bool
  waits p k =
      let waitfor = (k.tasks p).word in
      not (p == null) && ((waitfor == pm_pidof (pm_client k) k) || (waitfor == task_any))

  -- The parent `p` that waits for the client comes back, and gets its pid and exit code.
  unfoldable pub wake_parent : Ptr → PmMsg → Pm W → Option (Pid × PmMsg) × Pm W
  unfolding drop_client
  wake_parent p msg k =
      let c = pm_client k in
      let k1 = record k { wait_q = erase p k.wait_q; task_q = k.task_q ++ p ∷ [] } in
      let k2 = set_task c (record (k1.tasks c) { word = msg.w0 }) k1 in
      (some (pm_pidof p k2, record msg { w0 = pm_pidof c k2; w1 = msg.w0 }), drop_client k2)

  -- The client becomes a zombie with its exit code.
  unfoldable pub become_zombie : PmMsg → Pm W → Pm W
  become_zombie msg k =
      let c = pm_client k in
      record (set_task c (record (k.tasks c) { word = msg.w0 }) k) {
        task_q = erase c k.task_q;
        zombie_q = k.zombie_q ++ c ∷ [];
      }

  -- The second half of `do_exit`: the reply to the parent, if one is sent.
  unfoldable pub tell_parent : PmMsg → Pm W → Option (Pid × PmMsg) × Pm W
  unfolding drop_client wake_parent become_zombie pm_findmyparent
  tell_parent msg k =
      let p = first_by pm_findmyparent k.wait_q k in
      if (k.tasks (pm_client k)).parent == null
      then (none, drop_client k)
      else if waits p k
      then wake_parent p msg k
      else (none, become_zombie msg k)

  unfoldable pub do_exit : PmMsg → Pm W → Option (Pid × PmMsg) × Pm W
  unfolding leave tell_parent
  do_exit msg k = tell_parent msg (leave k)

  -- A zombie child is taken, and its pid and exit code are the answer.
  unfoldable pub reap : Ptr → PmMsg → Pm W → Option PmMsg × Pm W
  reap z msg k = (
    some (record msg { w0 = pm_pidof z k; w1 = (k.tasks z).word }),
    kfree bus z (record (kfree bus (k.tasks z).args k) { zombie_q = erase z k.zombie_q }),
  )

  -- The answer of `do_wait`, if there is one. A client without children gets zeros.
  unfoldable pub do_wait : PmMsg → Pm W → Option PmMsg × Pm W
  unfolding reap pm_findzombie pm_haschild
  do_wait msg k =
      let c = pm_client k in
      let k1 = set_task c (record (k.tasks c) { word = msg.w0 }) k in
      let z = first_by pm_findzombie k1.zombie_q k1 in
      if not (z == null)
      then reap z msg k1
      else if (first_by pm_haschild k1.task_q k1 == null)
          && (first_by pm_haschild k1.wait_q k1 == null)
      then (some (record msg { w0 = 0; w1 = 0 }), k1)
      else (none, record k1 { task_q = erase c k1.task_q; wait_q = k1.wait_q ++ c ∷ [] })
