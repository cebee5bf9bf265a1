-- ===== src/Servers/Pm/Loop.antt =====
-- servers/pm.c: the loop of the process manager and the calls of its clients.
use avros.Base.{ℕ, Option, none, some, [], if◌then◌else◌}
use avros.Kernel.State.{Pid, task_any}
use avros.Queue.{Ptr}
use avros.Servers.Pm.State.{
  PmTask, PmCmd, PmMsg, PmBus, Pm, pm_spawn, pm_exec, pm_wait, pm_exit, pm_malloc, pm_free,
  pm_other, to_front, pm_findbypid, kfree,
}
use avros.Servers.Pm.Launch.{do_pmalloc, do_pmfree, do_spawn, do_exec, do_spawnexec}
use avros.Servers.Pm.Exit.{do_exit, do_wait}

-- The empty queues; the fields of items are those that unwritten memory holds.
abbrev pub no_queues : {W : Type 0} → (Ptr → PmTask) → (Ptr → Ptr) → W → Pm W
no_queues tasks chunks sys = record {
  task_q = [];
  wait_q = [];
  zombie_q = [];
  tasks = tasks;
  chunks = chunks;
  sys = sys;
}

module _ {W : Type 0} (bus : PmBus W) where
  -- The switch on the command: the task that is answered with its message, if any.
  unfoldable pub serve : PmCmd → Pid → PmMsg → Pm W → Option (Pid × PmMsg) × Pm W
  unfolding do_spawn do_exec do_exit do_wait do_pmalloc do_pmfree
  serve pm_spawn client msg k = let (m, k1) = do_spawn bus msg k in (some (client, m), k1)
  serve pm_exec client msg k =
      let (replies, k1) = do_exec bus msg k in (if replies then some (client, msg) else none, k1)
  serve pm_exit client msg k = do_exit bus msg k
  serve pm_wait client msg k =
      let (m, k1) = do_wait bus msg k in (elim m [ none ↦ none | some a ↦ some (client, a) ], k1)
  serve pm_malloc client msg k = let (m, k1) = do_pmalloc bus msg k in (some (client, m), k1)
  serve pm_free client msg k = let (m, k1) = do_pmfree bus msg k in (some (client, m), k1)
  serve pm_other client msg k = (none, k)

  -- A pass of the loop of `pm` after `receive`. A client that is not in the queue of tasks does
  -- not become PM_CLIENT.
  unfoldable pub pm : Pid → PmMsg → Pm W → Option (Pid × PmMsg) × Pm W
  unfolding serve pm_findbypid
  pm client msg k =
      serve msg.cmd client msg (record k { task_q = to_front (pm_findbypid client k) k.task_q })

  -- What `pm` sets up before its loop: the first task runs the program at the name.
  unfoldable pub pm_start : Ptr → Ptr → (Ptr → PmTask) → (Ptr → Ptr) → W → Pm W
  unfolding do_spawnexec
  pm_start name args tasks chunks sys =
      let msg : PmMsg = record { cmd = pm_other; w0 = name; w1 = args; w2 = 0 } in
      kfree bus args (do_spawnexec bus msg (no_queues tasks chunks sys)).1

-- The calls of the clients, as the messages that they send, over what a message held before.
pub data PmCall : Type 0 where
  spawntask : (entry stacksize argv : ℕ) → PmCall
  execv : (name argv : Ptr) → PmCall
  mexit : (code : ℕ) → PmCall
  wait_any : PmCall
  waitpid : (p : Pid) → PmCall
  pmmalloc : (size : ℕ) → PmCall
  pmfree : (ptr : Ptr) → PmCall

unfoldable pub pm_request : PmCall → PmMsg → PmMsg
pm_request (spawntask entry stacksize argv) m = record {
  cmd = pm_spawn;
  w0 = entry;
  w1 = stacksize;
  w2 = argv;
}
pm_request (execv name argv) m = record m { cmd = pm_exec; w0 = name; w1 = argv }
pm_request (mexit code) m = record m { cmd = pm_exit; w0 = code }
pm_request wait_any m = record m { cmd = pm_wait; w0 = task_any }
pm_request (waitpid p) m = record m { cmd = pm_wait; w0 = p }
pm_request (pmmalloc size) m = record m { cmd = pm_malloc; w0 = size }
pm_request (pmfree ptr) m = record m { cmd = pm_free; w0 = ptr }
