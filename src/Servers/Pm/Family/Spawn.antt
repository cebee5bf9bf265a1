-- ===== src/Servers/Pm/Family/Spawn.antt =====
-- servers/pm.c: new tasks keep the invariant of the queues.
use avros.Base.{◌≡◌, inl, inr, false, [], ◌∷◌, ◌++◌, ◌==◌, if_elim, Bool-cases}
use avros.Kernel.State.{Pid}
use avros.Queue.{Ptr, null}
use avros.Servers.Pm.State.{PmTask, PmMsg, PmBus, Pm, pm_client, pm_pidof, set_task, sizeof_pm_task}
use avros.Servers.Pm.Launch.{pm_newtask, spawn_new, exec_new, do_spawn, do_spawnexec}
use avros.Servers.Pm.Family.Kin.{Kin-sys, launch-Kin}
use avros.Servers.Pm.Family.Invariant.{
  Family, Family-Kin, Family-unused, Family-join, true_ne_false, places, new_parent,
}

module _ {W : Type 0} where
  module _ (bus : PmBus W) where
    -- The address at which a spawn puts its new item.
    abbrev pub spawned : Pm W → Ptr
    spawned k = (bus.memory.take (bus.createtask k.sys).1 sizeof_pm_task).0

    -- The new item, if there is one, with its queue.
    newtask-Family :
        (pid : Pid) (k : Pm W)
        → let r = pm_newtask bus pid (pm_client k) k in
          places r.0 k ≡ 0
          → Family k
          → Family r.1
            × ((r.0 == null) ≡ false → Family (record r.1 { task_q = r.1.task_q ++ r.0 ∷ [] }))
    unfolding pm_newtask
    newtask-Family pid k unused f =
        let pt = (bus.memory.take k.sys sizeof_pm_task).0 in
        let k1 = record k { sys = (bus.memory.take k.sys sizeof_pm_task).1 } in
        let f1 = Family-Kin k k1 (Kin-sys _ k) f in
        elim (Bool-cases (pt == null)) [
          | inl e ↦ rw e (f1, λ wrong. absurd (true_ne_false wrong))
          | inr e ↦
              let t : PmTask = record {
                pid = pid;
                chunk_q = [];
                word = 0;
                parent = pm_client k;
                args = null;
              } in
              let f2 = Family-unused pt t k1 unused f1 in
              rw e (f2, λ _. Family-join pt (set_task pt t k1) e unused (new_parent pt t k1) f2)
        ]

    spawn_new-Family :
        (task : Pid) (pm_task : Ptr) (msg : PmMsg) (k : Pm W)
        → Family (record k { task_q = k.task_q ++ pm_task ∷ [] })
        → Family (spawn_new bus task pm_task msg k).1
    unfolding spawn_new
    spawn_new-Family task pm_task msg k f =
        let k1 = record k { task_q = k.task_q ++ pm_task ∷ [] } in
        let (known, w) = bus.vfs_createtask task (pm_pidof (pm_client k1) k1) k1.sys in
        let f2 = Family-Kin k1 (record k1 { sys = w }) (Kin-sys w k1) f in
        if_elim (λ (m : PmMsg × Pm W). Family m.1) (known == null) _ _ (λ _. f2)
          λ _.
            Family-Kin (record k1 { sys = w }) _
              (launch-Kin bus pm_task task msg.w1 msg.w0 msg.w2 msg (record k1 { sys = w })) f2

    pub spawn-Family :
        (msg : PmMsg) (k : Pm W)
        → places (spawned k) k ≡ 0
        → Family k
        → Family (do_spawn bus msg k).1
    unfolding do_spawn
    spawn-Family msg k unused f =
        let (task, w) = bus.createtask k.sys in
        let k0 = record k { sys = w } in
        let f0 = Family-Kin k k0 (Kin-sys w k) f in
        let r = pm_newtask bus task (pm_client k0) k0 in
        let fs = newtask-Family task k0 unused f0 in
        if_elim (λ (m : PmMsg × Pm W). Family m.1) (task == null) _ _ (λ _. f0)
          λ _.
            if_elim (λ (m : PmMsg × Pm W). Family m.1) (r.0 == null) _ _ (λ _. fs.0)
              λ e. spawn_new-Family task r.0 msg r.1 (fs.1 e)

    exec_new-Family :
        (task : Pid) (pm_task : Ptr) (msg : PmMsg) (k : Pm W)
        → Family (record k { task_q = k.task_q ++ pm_task ∷ [] })
        → Family (exec_new bus task pm_task msg k).1
    unfolding exec_new
    exec_new-Family task pm_task msg k f =
        let k1 = record k { task_q = k.task_q ++ pm_task ∷ [] } in
        let (prg, w) = bus.ex_getprg msg.w0 k1.sys in
        let k2 = record k1 { sys = w } in
        let f2 = Family-Kin k1 k2 (Kin-sys w k1) f in
        if_elim (λ (m : PmMsg × Pm W). Family m.1) (prg.0 == null) _ _ (λ _. f2)
          λ _. Family-Kin k2 _ (launch-Kin bus pm_task task prg.1 prg.0 msg.w1 msg k2) f2

    -- The first task, when the queues are empty.
    pub spawnexec-Family :
        (msg : PmMsg) (k : Pm W)
        → ((x : Ptr) → places x k ≡ 0)
        → Family k
        → Family (do_spawnexec bus msg k).1
    unfolding do_spawnexec
    spawnexec-Family msg k empty f =
        let (task, w) = bus.createtask k.sys in
        let k0 = record k { sys = w } in
        let (known, w1) = bus.vfs_createtask task (pm_pidof (pm_client k0) k0) w in
        let k1 = record k { sys = w1 } in
        let f1 = Family-Kin k k1 (Kin-sys w1 k) f in
        let r = pm_newtask bus task (pm_client k1) k1 in
        let fs = newtask-Family task k1 (empty r.0) f1 in
        if_elim (λ (m : PmMsg × Pm W). Family m.1) (task == null) _ _
          (λ _. Family-Kin k k0 (Kin-sys w k) f)
          λ _.
            if_elim (λ (m : PmMsg × Pm W). Family m.1) (known == null) _ _ (λ _. f1)
              λ _.
                if_elim (λ (m : PmMsg × Pm W). Family m.1) (r.0 == null) _ _ (λ _. fs.0)
                  λ e. exec_new-Family task r.0 msg r.1 (fs.1 e)
