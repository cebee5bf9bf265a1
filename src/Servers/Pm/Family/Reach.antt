-- ===== src/Servers/Pm/Family/Reach.antt =====
-- servers/pm.c: the states that the loop of the process manager reaches.
use avros.Base.{◌≡◌, refl, false, arith, ◌==◌, count, count-erase, ap, ◌∙◌}
use avros.Kernel.State.{Pid}
use avros.Queue.{Ptr, null}
use avros.Servers.Pm.State.{
  PmTask, PmCmd, PmMsg, PmBus, Pm, pm_spawn, pm_exec, pm_wait, pm_exit, pm_malloc, pm_free,
  pm_other, to_front, pm_client, pm_findbypid,
}
use avros.Servers.Pm.Launch.{do_spawnexec}
use avros.Servers.Pm.Loop.{no_queues, serve, pm, pm_start}
use avros.Servers.Pm.Family.Kin.{Kin-sys, exec-Kin, pmalloc-Kin, pmfree-Kin}
use avros.Servers.Pm.Family.Invariant.{Family, Family-Kin, Family-to_front, findbypid_known, places}
use avros.Servers.Pm.Family.Spawn.{spawned, spawn-Family, spawnexec-Family}
use avros.Servers.Pm.Family.Ends.{exit-Family, wait-Family}

module _ {W : Type 0} (bus : PmBus W) where
  -- The states after each pass of the loop. The requests are those of tasks in the queue of
  -- tasks, and the heap gives the item of a new task an address that is in no queue.
  pub data Reach : Pm W → Type 0 where
    started :
        (name args : Ptr) (tasks : Ptr → PmTask) (chunks : Ptr → Ptr) (sys : W)
        → Reach (pm_start bus name args tasks chunks sys)
    served :
        (client : Pid) (msg : PmMsg) (k : Pm W)
        → Reach k
        → (pm_findbypid client k == null) ≡ false
        → (msg.cmd ≡ pm_spawn → places (spawned bus k) k ≡ 0)
        → Reach (pm bus client msg k).1

  start-Family :
      (name args : Ptr) (tasks : Ptr → PmTask) (chunks : Ptr → Ptr) (sys : W)
      → Family (pm_start bus name args tasks chunks sys)
  unfolding pm_start count
  start-Family name args tasks chunks sys =
      let k = no_queues tasks chunks sys in
      let f : Family k = record {
        apart = λ x. omega arith;
        real = refl;
        parents = λ x h. absurd (omega (arith, h));
        awaited = λ x h. absurd (omega (arith, h));
      } in
      let msg : PmMsg = record { cmd = pm_other; w0 = name; w1 = args; w2 = 0 } in
      Family-Kin (do_spawnexec bus msg k).1 _ (Kin-sys _ (do_spawnexec bus msg k).1)
        (spawnexec-Family bus msg k (λ x. refl) f)

  serve-Family :
      (cmd : PmCmd) (client : Pid) (msg : PmMsg) (k : Pm W)
      → (pm_client k == null) ≡ false
      → (cmd ≡ pm_spawn → places (spawned bus k) k ≡ 0)
      → Family k
      → Family (serve bus cmd client msg k).1
  unfolding serve
  serve-Family pm_spawn client msg k real unused f = spawn-Family bus msg k (unused refl) f
  serve-Family pm_exec client msg k real unused f = Family-Kin k _ (exec-Kin bus msg k) f
  serve-Family pm_exit client msg k real unused f = exit-Family bus msg k real f
  serve-Family pm_wait client msg k real unused f = wait-Family bus msg k real f
  serve-Family pm_malloc client msg k real unused f = Family-Kin k _ (pmalloc-Kin bus msg k) f
  serve-Family pm_free client msg k real unused f = Family-Kin k _ (pmfree-Kin bus msg k) f
  serve-Family pm_other client msg k real unused f = f

  pass-Family :
      (client : Pid) (msg : PmMsg) (k : Pm W)
      → (pm_findbypid client k == null) ≡ false
      → (msg.cmd ≡ pm_spawn → places (spawned bus k) k ≡ 0)
      → Family k
      → Family (pm bus client msg k).1
  unfolding pm count
  pass-Family client msg k real unused f =
      let p = pm_findbypid client k in
      let known = findbypid_known client k real in
      let k1 = record k { task_q = to_front p k.task_q } in
      let front : pm_client k1 ≡ p = rw real refl in
      let same : (x : Ptr) → count x (to_front p k.task_q) ≡ count x k.task_q =
        λ x. rw real (omega (arith, count-erase x p k.task_q known)) in
      serve-Family msg.cmd client msg k1 (ap (λ x. x == null) front ∙ real)
        (λ e. omega (arith, unused e, same (spawned bus k))) (Family-to_front p k known f)

  -- In every state that the process manager reaches, if each request is of a task in the queue of
  -- tasks and a new item has an address that is in no queue: an item stands in one of the three queues at
  -- most, and at most once, and none is null; the parent of an item is null or an item of a task
  -- that runs or waits; and a task that ended and is not yet waited for has a parent.
  pub Reach-Family : (k : Pm W) → Reach k → Family k
  Reach-Family _ (started name args tasks chunks sys) = start-Family name args tasks chunks sys
  Reach-Family _ (served client msg k r real unused) =
      pass-Family client msg k real unused (Reach-Family k r)
