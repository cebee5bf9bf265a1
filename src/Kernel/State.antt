-- ===== src/Kernel/State.antt =====
-- The kernel's data: kernel/kernel.h, the globals and `task_t` of kernel/kernel.c, and the
-- registers of kernel/hal.h that carry a kernel call. A queue is the list of its items.
use avros.Base.{ℕ, ◌/◌, ◌%◌, ◌^◌, Bool, true, false, List, [], ◌∷◌, ◌++◌, update, erase}

-- The address of a task's `task_t`.
abbrev pub Pid : Type 0
Pid = ℕ

abbrev pub task_prio_rt : ℕ
task_prio_rt = 0

abbrev pub task_prio_high : ℕ
task_prio_high = 1

abbrev pub task_prio_dflt : ℕ
task_prio_dflt = 2

abbrev pub task_prio_idle : ℕ
task_prio_idle = 4

abbrev pub task_prio_queue_max : ℕ
task_prio_queue_max = 5

abbrev pub task_any : Pid
task_any = 0xffff

abbrev pub preempt_on_event : ℕ
preempt_on_event = 0x8000

-- `sizeof` of `task_t` and of `cpu_context_t`, packed, and of a function pointer.
abbrev pub sizeof_task : ℕ
sizeof_task = 11

abbrev pub sizeof_context : ℕ
sizeof_context = 35

abbrev pub sizeof_fn : ℕ
sizeof_fn = 2

abbrev pub u16 : ℕ → ℕ
u16 n = n % 2 ^ 16

abbrev pub low : ℕ → ℕ
low n = n % 256

abbrev pub high : ℕ → ℕ
high n = n / 256 % 256

-- The call codes that `r16` holds; `other` is a value that the kernel does not test for.
pub data KCall : Type 0 where
  yield getpid kirqen kirqdis createtask allocatestack setuptask starttask stoptask deletetask :
      KCall
  exittask kmalloc kfree send sendrec receive waitevent : KCall
  other : ℕ → KCall

abbrev pub is_send : KCall → Bool
is_send send = true
is_send _ = false

abbrev pub is_sendrec : KCall → Bool
is_sendrec sendrec = true
is_sendrec _ = false

abbrev pub is_receive : KCall → Bool
is_receive receive = true
is_receive _ = false

abbrev pub is_waitevent : KCall → Bool
is_waitevent waitevent = true
is_waitevent _ = false

-- The registers of `cpu_context_t` that the kernel reads: `r16` and the pairs behind
-- `GETP0` to `GETP3`, and the return address.
pub record Context : Type 0 where
  pub code : KCall
  pub p0 : ℕ
  pub p1 : ℕ
  pub p2 : ℕ
  pub p3 : ℕ
  pub ret : ℕ

-- `SETP0`: the two halves of the value.
abbrev pub set_p0 : ℕ → Context → Context
set_p0 v c = record c { p0 = u16 v }

-- `task_t`. The context stands in memory at `sp + 1`; here it is a field.
pub record Task : Type 0 where
  pub sp : ℕ
  pub sb : ℕ
  pub prio : ℕ
  pub irqdis : Bool
  pub page : ℕ
  pub ctxt : Context

-- What is not in the sources: the allocator of avr-libc, whose bookkeeping is an `H`, what
-- memory that nobody has written holds where a context will stand, above a given `sp`, and the
-- address at which the linker puts `exittask`.
pub record Platform (H : Type 0) : Type 0 where
  pub malloc : H → ℕ → ℕ × H
  pub free : H → ℕ → H
  pub leftover : H → ℕ → Context
  pub exittask_at : ℕ

-- The globals, the memory of the tasks and that of the allocator.
pub record Kernel (H : Type 0) : Type 0 where
  pub tasks : Pid → Task
  pub ready : ℕ → List Pid
  pub current : List Pid
  pub blocked : List Pid
  pub eventcode : ℕ
  pub mem : ℕ → ℕ
  pub heap : H

module _ {H : Type 0} where
  abbrev pub set_task : Pid → Task → Kernel H → Kernel H
  set_task t v k = record k { tasks = update k.tasks t v }

  abbrev pub set_context : Pid → Context → Kernel H → Kernel H
  set_context t c k = set_task t (record (k.tasks t) { ctxt = c }) k

  abbrev pub prio_of : Kernel H → Pid → ℕ
  prio_of k t = (k.tasks t).prio

  abbrev pub context_of : Kernel H → Pid → Context
  context_of k t = (k.tasks t).ctxt

  -- Q_END(&queue[p], t)
  abbrev pub ready_end : ℕ → Pid → Kernel H → Kernel H
  ready_end p t k = record k { ready = update k.ready p (k.ready p ++ t ∷ []) }

  -- Q_FRONT(&queue[p], t)
  abbrev pub ready_front : ℕ → Pid → Kernel H → Kernel H
  ready_front p t k = record k { ready = update k.ready p (t ∷ k.ready p) }

  -- Q_REMV(&current_q, t)
  abbrev pub remv_current : Pid → Kernel H → Kernel H
  remv_current t k = record k { current = erase t k.current }

  -- Q_REMV(&blocked_q, t)
  abbrev pub remv_blocked : Pid → Kernel H → Kernel H
  remv_blocked t k = record k { blocked = erase t k.blocked }

  -- Q_FRONT(&blocked_q, Q_REMV(&current_q, t))
  abbrev pub block_front : Pid → Kernel H → Kernel H
  block_front t k = record k { current = erase t k.current; blocked = t ∷ k.blocked }

  -- Q_END(&queue[t->prio], Q_REMV(&blocked_q, t))
  abbrev pub wake : Pid → Kernel H → Kernel H
  wake t k = ready_end (prio_of k t) t (remv_blocked t k)
