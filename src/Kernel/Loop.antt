-- ===== src/Kernel/Loop.antt =====
-- The main loop of `kernel` in kernel/kernel.c from the re-entry point: the interrupt branch and
-- the kernel calls; and the wrappers at the end of that file, which load the registers.
use Prim.Native.Nat.{bit_and}
use avros.Base.{
  ℕ, ◌%◌, ◌≡◌, ◌≢◌, ◌∷◌, true, false, Option, none, some, List, [], ◌==◌, if◌then◌else◌, update,
  erase, ◌++◌,
}
use avros.Kernel.State.{
  Pid, KCall, yield, getpid, kirqen, kirqdis, createtask, allocatestack, setuptask, starttask,
  stoptask, deletetask, exittask, kmalloc, kfree, send, sendrec, receive, waitevent, other,
  is_sendrec, Context, set_p0, Platform, Kernel, set_task, set_context, prio_of, context_of,
  ready_end, ready_front, remv_current, remv_blocked, block_front, wake, preempt_on_event,
  task_prio_idle,
}
use avros.Kernel.Calls.{
  q_forall, init_task_queues, dispatchevent, sendmsg, receivemsg, newtask, do_allocatestack,
  do_setuptask, inittask,
}

-- The user-side wrappers: the arguments go to the parameter registers as the C calling
-- convention has them, and the call's code to `r16`.
pub data Call : Type 0 where
  c_yield c_getpid c_kirqen c_kirqdis c_exittask : Call
  c_waitevent : (event : ℕ) → Call
  c_kmalloc : (size : ℕ) → Call
  c_kfree : (ptr : ℕ) → Call
  c_send : (dest : Pid) (msg : ℕ) → Call
  c_sendrec : (tsk : Pid) (msg len : ℕ) → Call
  c_receive : (src : Pid) (msg len : ℕ) → Call
  c_createtask : (prio page : ℕ) → Call
  c_allocatestack : (pid : Pid) (size : ℕ) → Call
  c_setuptask : (pid : Pid) (ptsk args exitfn : ℕ) → Call
  c_starttask c_stoptask c_deletetask : (pid : Pid) → Call

unfoldable pub load_call : Call → Context → Context
load_call c_yield r = record r { code = yield }
load_call c_getpid r = record r { code = getpid }
load_call c_kirqen r = record r { code = kirqen }
load_call c_kirqdis r = record r { code = kirqdis }
load_call c_exittask r = record r { code = exittask }
load_call (c_waitevent e) r = record r { code = waitevent; p0 = e }
load_call (c_kmalloc n) r = record r { code = kmalloc; p0 = n }
load_call (c_kfree p) r = record r { code = kfree; p0 = p }
load_call (c_send d m) r = record r { code = send; p0 = d; p1 = m }
load_call (c_sendrec d m n) r = record r { code = sendrec; p0 = d; p1 = m; p2 = n }
load_call (c_receive s m n) r = record r { code = receive; p0 = s; p1 = m; p2 = n }
load_call (c_createtask q g) r = record r { code = createtask; p0 = q; p1 = g }
load_call (c_allocatestack t n) r = record r { code = allocatestack; p0 = t; p1 = n }
load_call (c_setuptask t f a e) r = record r { code = setuptask; p0 = t; p1 = f; p2 = a; p3 = e }
load_call (c_starttask t) r = record r { code = starttask; p0 = t }
load_call (c_stoptask t) r = record r { code = stoptask; p0 = t }
load_call (c_deletetask t) r = record r { code = deletetask; p0 = t }

module _ {H : Type 0} where
  -- An event was raised while `old` ran: the first task that waits for it comes next.
  unfoldable pub event_done : Pid → Option Pid × Kernel H → Kernel H
  event_done old (none, k) = record k { eventcode = 0 }
  event_done old (some w, k) =
      let k2 =
        if bit_and (context_of k w).p0 preempt_on_event == 0
        then ready_front (prio_of k old) old (remv_current old k)
        else ready_end (prio_of k old) old (remv_current old k) in
      let k3 = record k2 { blocked = erase w k2.blocked; current = w ∷ k2.current } in
      record (set_context w (set_p0 k3.eventcode (context_of k3 w)) k3) { eventcode = 0 }

  unfoldable pub handle_event : Pid → Kernel H → Kernel H
  unfolding event_done
  handle_event old k = event_done old (q_forall dispatchevent k.blocked k)

  -- KCALL_SEND: the receiver is woken, or the sender blocks.
  unfoldable pub send_done : Pid → Option Pid × Kernel H → Kernel H
  send_done cur (none, k) = block_front cur k
  send_done cur (some w, k) = wake w k

  unfoldable pub call_send : Pid → Kernel H → Kernel H
  unfolding send_done
  call_send cur k = send_done cur (q_forall (sendmsg cur) k.blocked k)

  -- KCALL_SENDREC: as a send, and the sender goes on to receive.
  unfoldable pub sendrec_done : Pid → Option Pid × Kernel H → Kernel H
  sendrec_done cur (none, k) = block_front cur k
  sendrec_done cur (some w, k) =
      block_front cur (wake w (set_context cur (record (context_of k cur) { code = receive }) k))

  unfoldable pub call_sendrec : Pid → Kernel H → Kernel H
  unfolding sendrec_done
  call_sendrec cur k = sendrec_done cur (q_forall (sendmsg cur) k.blocked k)

  -- KCALL_RECEIVE: a sender that also receives stays blocked, and now waits for the reply.
  unfoldable pub receive_done : Pid → Option Pid × Kernel H → Kernel H
  receive_done cur (none, k) = block_front cur k
  receive_done cur (some w, k) =
      if is_sendrec (context_of k w).code
      then set_context w (record (context_of k w) { code = receive }) k
      else wake w k

  unfoldable pub call_receive : Pid → Kernel H → Kernel H
  unfolding receive_done
  call_receive cur k = receive_done cur (q_forall (receivemsg cur) k.blocked k)

  module _ (platform : Platform H) where
    unfoldable pub call_createtask : Pid → Kernel H → Kernel H
    call_createtask cur k =
        let (t, k1) = newtask platform k in
        let ctxt = context_of k cur in
        let k2 = if t == 0 then k1 else record k1 {
          blocked = t ∷ k1.blocked;
          tasks =
              update k1.tasks t
                (record (k1.tasks t) { prio = ctxt.p0 % 256; page = ctxt.p1 % 256; sb = 0 });
        } in
        set_context cur (set_p0 t (context_of k2 cur)) k2

    -- The switch on the call code of the current task.
    unfoldable pub dispatch : KCall → Pid → Kernel H → Kernel H
    dispatch createtask cur k = call_createtask cur k
    dispatch allocatestack cur k =
        let c = context_of k cur in
        let (sb, k1) = do_allocatestack platform c.p0 c.p1 k in
        set_context cur (set_p0 sb (context_of k1 cur)) k1
    dispatch setuptask cur k =
        let c = context_of k cur in do_setuptask platform c.p0 c.p1 c.p2 c.p3 k
    dispatch starttask cur k = let t = (context_of k cur).p0 in if t == 0 then k else wake t k
    dispatch stoptask cur k =
        let t = (context_of k cur).p0 in
        let sb = (k.tasks t).sb in
        if sb == 0 then k else record k {
          heap = platform.free k.heap sb;
          tasks = update k.tasks t (record (k.tasks t) { sb = 0 });
        }
    dispatch deletetask cur k =
        let t = (context_of k cur).p0 in
        record (if t == 0 then k else remv_blocked t k) { heap = platform.free k.heap t }
    dispatch exittask cur k = record (remv_current cur k) {
      heap = platform.free (platform.free k.heap (k.tasks cur).sb) cur;
    }
    dispatch kirqen cur k = set_task cur (record (k.tasks cur) { irqdis = false }) k
    dispatch kirqdis cur k = set_task cur (record (k.tasks cur) { irqdis = true }) k
    dispatch waitevent cur k = record k {
      current = erase cur k.current;
      blocked = k.blocked ++ cur ∷ [];
    }
    dispatch kmalloc cur k =
        let c = context_of k cur in
        let (p, heap) = platform.malloc k.heap c.p0 in
        set_context cur (set_p0 p c) (record k { heap = heap })
    dispatch kfree cur k = record k { heap = platform.free k.heap (context_of k cur).p0 }
    dispatch getpid cur k = set_context cur (set_p0 cur (context_of k cur)) k
    dispatch send cur k = call_send cur k
    dispatch sendrec cur k = call_sendrec cur k
    dispatch receive cur k = call_receive cur k
    dispatch yield cur k = ready_end (prio_of k cur) cur (remv_current cur k)
    dispatch (other n) cur k = k

    -- From the re-entry point to the end of the loop's body, by the queue of the running task;
    -- `none` if CURRENT is null, which the code does not test.
    unfoldable pub resume : List Pid → Kernel H → Option (Kernel H)
    unfolding dispatch handle_event
    resume [] k = none
    resume (old ∷ _) k =
        some
          (if k.eventcode == 0 then dispatch (context_of k old).code old k else handle_event old k)

    unfoldable pub reenter : Kernel H → Option (Kernel H)
    unfolding resume
    reenter k = resume k.current k

    -- What `kernel` does before its loop: the idle task, then the first task.
    unfoldable pub kernel_init : ℕ → ℕ → ℕ → ℕ → ℕ → Kernel H → Kernel H
    unfolding init_task_queues inittask
    kernel_init idle_task ptp args stack prio k =
        let (_, k1) = inittask platform idle_task 0 0x80 task_prio_idle (init_task_queues k) in
        let (_, k2) = inittask platform ptp args stack prio k1 in record k2 { eventcode = 0 }

-- The task that runs between two passes of the loop: it may change its registers and the memory
-- of the tasks, and it enters the kernel by a call, which clears `eventcode`, or through an
-- interrupt handler, which sets it and needs interrupts on.
pub data Runs {H : Type 0} (cur : Pid) (k : Kernel H) : Kernel H → Type 0 where
  calls :
      (r : Context) (call : Call) (mem : ℕ → ℕ)
      → Runs cur k (record (set_context cur (load_call call r) k) { mem = mem; eventcode = 0 })
  interrupted :
      (r : Context) (event : ℕ) (mem : ℕ → ℕ)
      → (k.tasks cur).irqdis ≡ false
      → event ≢ 0
      → Runs cur k (record (set_context cur r k) { mem = mem; eventcode = event })
