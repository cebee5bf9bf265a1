-- ===== src/Servers/Pm/State.antt =====
-- servers/pm.c: the tasks of the process manager, in three queues, and the callbacks on them. The
-- queues are lists of item addresses; the fields of the items stand by address, at null too, since
-- a read through a null pointer does not fault.
use avros.Base.{
  ℕ, Bool, false, ◌&&◌, ◌||◌, Option, none, some, List, [], ◌∷◌, ◌==◌, if◌then◌else◌, update, erase,
  find_first,
}
use avros.Kernel.State.{Pid, task_any}
use avros.Kernel.Calls.{q_forall}
use avros.Queue.{Ptr, null}
use avros.Servers.Memory.{Memory}

abbrev pub sizeof_pm_task : ℕ
sizeof_pm_task = 16

abbrev pub sizeof_mem_chunk : ℕ
sizeof_mem_chunk = 6

-- `pm_task_t`; `word` is the union of `waitfor` and `exitcode`.
pub record PmTask : Type 0 where
  pub pid : Pid
  pub chunk_q : List Ptr
  pub word : ℕ
  pub parent : Ptr
  pub args : Ptr

pub data PmCmd : Type 0 where
  pm_spawn pm_exec pm_wait pm_exit pm_malloc pm_free pm_other : PmCmd

-- `pmmsg_t`: the union is three words, of which the parts of the union use the first ones.
pub record PmMsg : Type 0 where
  pub cmd : PmCmd
  pub w0 : ℕ
  pub w1 : ℕ
  pub w2 : ℕ

-- What the manager calls, on the rest of the system: the kernel, the file server, the registry of
-- programs, and the copy of the argument vector at an address (`Args`). `setuptask` also sets
-- `mexit` as the end of the task.
pub record PmBus (W : Type 0) : Type 0 where
  pub memory : Memory W
  pub createtask : W → Pid × W
  pub stoptask : Pid → W → W
  pub starttask : Pid → W → W
  pub deletetask : Pid → W → W
  pub allocatestack : Pid → ℕ → W → W
  pub setuptask : Pid → ℕ → Ptr → W → W
  pub vfs_createtask : Pid → Pid → W → Pid × W
  pub vfs_deletetask : Pid → W → W
  pub ex_getprg : Ptr → W → (ℕ × ℕ) × W
  pub argstack_size : Ptr → W → ℕ
  pub cook_argstack : Ptr → Ptr → W → W

pub record Pm (W : Type 0) : Type 0 where
  pub task_q : List Ptr
  pub wait_q : List Ptr
  pub zombie_q : List Ptr
  pub tasks : Ptr → PmTask
  pub chunks : Ptr → Ptr
  pub sys : W

abbrev pub q_first : List Ptr → Ptr
q_first [] = null
q_first (x ∷ _) = x

-- `Q_FRONT(&q, Q_REMV(&q, item))` on a pointer that may be null.
abbrev pub to_front : Ptr → List Ptr → List Ptr
to_front item q = if item == null then q else item ∷ erase item q

-- An item, or null.
abbrev pub ptr_of : Option Ptr → Ptr
ptr_of none = null
ptr_of (some p) = p

module _ {W : Type 0} where
  -- PM_CLIENT
  abbrev pub pm_client : Pm W → Ptr
  pm_client k = q_first k.task_q

  -- PM_PIDOF
  abbrev pub pm_pidof : Ptr → Pm W → Pid
  pm_pidof p k = if p == null then null else (k.tasks p).pid

  abbrev pub set_task : Ptr → PmTask → Pm W → Pm W
  set_task p t k = record k { tasks = update k.tasks p t }

  abbrev pub with_sys : (W → W) → Pm W → Pm W
  with_sys f k = record k { sys = f k.sys }

  unfoldable pub pm_findbypid : Pid → Pm W → Ptr
  unfolding find_first
  pm_findbypid pid k = ptr_of (find_first (λ p. (k.tasks p).pid == pid) k.task_q)

  -- The callbacks that only test, as the tests: `pm_haschild`, `pm_findzombie`, `pm_findmyparent`.
  abbrev pub is_child : Pm W → Ptr → Bool
  is_child k p = (k.tasks p).parent == pm_client k

  unfoldable pub pm_haschild : Ptr → Pm W → Bool × Pm W
  pm_haschild p k = (is_child k p, k)

  abbrev pub is_awaited : Pm W → Ptr → Bool
  is_awaited k p =
      let waitfor = (k.tasks (pm_client k)).word in
      is_child k p && ((waitfor == pm_pidof p k) || (waitfor == task_any))

  unfoldable pub pm_findzombie : Ptr → Pm W → Bool × Pm W
  pm_findzombie p k = (is_awaited k p, k)

  unfoldable pub pm_findmyparent : Ptr → Pm W → Bool × Pm W
  pm_findmyparent p k = ((k.tasks (pm_client k)).parent == p, k)

  -- A child of the client has no parent any more.
  unfoldable pub pm_makechildorphan : Ptr → Pm W → Bool × Pm W
  pm_makechildorphan p k =
      (false, if is_child k p then set_task p (record (k.tasks p) { parent = null }) k else k)

  -- The first item of a queue on which a callback that only tests answers.
  abbrev pub first_by : (Ptr → Pm W → Bool × Pm W) → List Ptr → Pm W → Ptr
  first_by callback q k = ptr_of (q_forall callback q k).0

  -- `findchunk`
  unfoldable pub findchunk : Ptr → Ptr → Pm W → Ptr
  unfolding find_first
  findchunk task ptr k =
      if (task == null) || (ptr == null)
      then null
      else ptr_of (find_first (λ c. k.chunks c == ptr) (k.tasks task).chunk_q)

  module _ (bus : PmBus W) where
    abbrev pub kfree : Ptr → Pm W → Pm W
    kfree p k = record k { sys = bus.memory.give k.sys p }

    -- A zombie child of the client goes.
    unfoldable pub pm_removechild : Ptr → Pm W → Bool × Pm W
    pm_removechild p k = (
      false,
      if is_child k p
          then kfree p (record (kfree (k.tasks p).args k) { zombie_q = erase p k.zombie_q })
          else k,
    )

    -- A chunk of the task goes.
    unfoldable pub pm_delchunks : Ptr → Ptr → Pm W → Bool × Pm W
    pm_delchunks task chunk k =
        let k1 = if k.chunks chunk == null then k else kfree (k.chunks chunk) k in
        let t = k1.tasks task in
        (false, kfree chunk (set_task task (record t { chunk_q = erase chunk t.chunk_q }) k1))

    -- `q_forall(&(task->chunk_q), pm_delchunks)`
    unfoldable pub free_chunks : Ptr → Pm W → Pm W
    unfolding pm_delchunks
    free_chunks task k = (q_forall (pm_delchunks task) (k.tasks task).chunk_q k).1
