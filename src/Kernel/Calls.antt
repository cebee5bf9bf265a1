-- ===== src/Kernel/Calls.antt =====
-- The helpers of the kernel loop in kernel/kernel.c: new tasks and their stacks, delivery of
-- messages, the scheduler, and `q_forall` over a queue as the kernel uses it.
use Prim.Native.Nat.{bit_and}
use avros.Base.{
  ℕ, zero, suc, ◌+◌, ◌-◌, Bool, true, false, not, ◌&&◌, ◌||◌, Option, none, some, List, [], ◌∷◌,
  ◌==◌, ltb, if◌then◌else◌, update, erase,
}
use avros.Kernel.State.{
  Pid, is_send, is_sendrec, is_receive, is_waitevent, set_p0, Platform, Kernel, set_task,
  set_context, context_of, ready_end, u16, low, high, task_any, sizeof_task, sizeof_context,
  sizeof_fn, task_prio_queue_max,
}

-- `q_forall`: the callback is tried on each item until it answers with the item. The list is
-- read ahead of the callback, as the loop reads `next`.
unfoldable pub q_forall {ℓ} : {S : Type ℓ} → (ℕ → S → Bool × S) → List ℕ → S → Option ℕ × S
q_forall callback [] s = (none, s)
q_forall callback (x ∷ xs) s =
    let (hit, s') = callback x s in
    let rest = q_forall callback xs s' in if hit then (some x, s') else rest

-- `memcpy` between buffers that do not overlap.
unfoldable pub memcpy : ℕ → ℕ → ℕ → (ℕ → ℕ) → ℕ → ℕ
memcpy to from len mem a =
    if (not (ltb a to)) && ltb a (to + len) then mem (from + (a - to)) else mem a

module _ {H : Type 0} where
  -- `init_task_queues`
  unfoldable pub init_task_queues : Kernel H → Kernel H
  init_task_queues k = record k { ready = λ _. []; current = []; blocked = [] }

  -- `dispatchevent`, without its unused queue: does the task wait for one of the events?
  unfoldable pub dispatchevent : Pid → Kernel H → Bool × Kernel H
  dispatchevent t k =
      if not (is_waitevent (context_of k t).code)
      then (false, k)
      else if bit_and (context_of k t).p0 k.eventcode == 0
      then (false, k)
      else (true, k)

  -- The rendez-vous criteria of `delivermsg`.
  unfoldable pub meets : Pid → Pid → Kernel H → Bool
  meets rcvr sndr k =
      let r = context_of k rcvr in
      let s = context_of k sndr in
      (is_send s.code || is_sendrec s.code)
      && (is_receive r.code && ((s.p0 == rcvr) && ((r.p0 == sndr) || (r.p0 == task_any))))

  -- The copy of the message, and the sender's pid for the receiver.
  unfoldable pub deliver : Pid → Pid → Kernel H → Kernel H
  deliver rcvr sndr k =
      let r = context_of k rcvr in
      let s = context_of k sndr in
      set_context rcvr (set_p0 sndr r) (record k { mem = memcpy r.p1 s.p1 r.p2 k.mem })

  unfoldable pub delivermsg : Pid → Pid → Kernel H → Bool × Kernel H
  unfolding meets deliver
  delivermsg rcvr sndr k = if meets rcvr sndr k then (true, deliver rcvr sndr k) else (false, k)

  -- The callbacks of the blocked queue; `current` is CURRENT.
  unfoldable pub sendmsg : Pid → Pid → Kernel H → Bool × Kernel H
  sendmsg current t k = delivermsg t current k

  unfoldable pub receivemsg : Pid → Pid → Kernel H → Bool × Kernel H
  receivemsg current t k = delivermsg current t k

  -- The loop of `scheduler`, with the rounds that are left and the priority that is tried.
  unfoldable pub scheduler_loop : ℕ → ℕ → Kernel H → Kernel H
  scheduler_loop zero prio k = k
  scheduler_loop (suc rounds) prio k = elim (k.ready prio) [
    | [] ↦ scheduler_loop rounds (suc prio) k
    | t ∷ _ ↦ record k {
      ready = update k.ready prio (erase t (k.ready prio));
      current = t ∷ k.current;
    }
  ]

  -- The early return of `scheduler`: CURRENT goes on if there is one.
  unfoldable pub schedule_unless : List Pid → Kernel H → Kernel H
  unfolding scheduler_loop
  schedule_unless [] k = scheduler_loop task_prio_queue_max 0 k
  schedule_unless (_ ∷ _) k = k

  unfoldable pub scheduler : Kernel H → Kernel H
  unfolding schedule_unless
  scheduler k = schedule_unless k.current k

  -- `do_pushstack`: `sp` is a 16-bit pointer.
  unfoldable pub do_pushstack : Pid → ℕ → Kernel H → Kernel H
  do_pushstack t val k =
      let v = k.tasks t in
      record k {
        mem = update k.mem v.sp val;
        tasks = update k.tasks t (record v { sp = u16 (v.sp + 0xffff) });
      }

  module _ (platform : Platform H) where
    -- `newtask`: null, or a zeroed `task_t`. With `sp` zero the context is whatever memory
    -- holds there.
    unfoldable pub newtask : Kernel H → Pid × Kernel H
    newtask k =
        let (t, heap) = platform.malloc k.heap sizeof_task in
        let k' = record k { heap = heap } in
        if t == 0 then (t, k') else (
          t,
          set_task t
              (record (k.tasks t) {
                sp = 0;
                sb = 0;
                prio = 0;
                irqdis = false;
                page = 0;
                ctxt = platform.leftover heap 0;
              })
              k',
        )

    -- `do_allocatestack`: the block and the new `sp`, or null.
    unfoldable pub do_allocatestack : Pid → ℕ → Kernel H → ℕ × Kernel H
    do_allocatestack t size k =
        if size == 0
        then (0, k)
        else let total = u16 (size + (sizeof_context + sizeof_fn)) in
          let (block, heap) = platform.malloc k.heap total in
          let v = record (k.tasks t) { sb = block } in
          let k' = record k { heap = heap } in
          if block == 0
          then (0, set_task t v k')
          else let sp = u16 (block + total + 0xffff) in
            (block, set_task t (record v { sp = sp; ctxt = platform.leftover heap sp }) k')

    -- `do_setuptask`: the return addresses, then the context. `r16` is not written.
    unfoldable pub do_setuptask : Pid → ℕ → ℕ → ℕ → Kernel H → Kernel H
    unfolding do_pushstack
    do_setuptask t tp args exitfn k =
        let k1 =
          do_pushstack t (high platform.exittask_at)
            (do_pushstack t (low platform.exittask_at) k) in
        let k2 =
          if exitfn == 0
          then k1
          else do_pushstack t (high exitfn) (do_pushstack t (low exitfn) k1) in
        let v = k2.tasks t in
        let sp = u16 (v.sp + 0x10000 - sizeof_context) in
        let ctxt = record (platform.leftover k.heap sp) { p0 = u16 args; ret = u16 tp } in
        set_task t (record v { sp = sp; ctxt = ctxt }) k2

    -- `inittask`: the task with its stack at the end of its queue, or null. When the stack
    -- cannot be had, the `task_t` is left behind.
    unfoldable pub inittask : ℕ → ℕ → ℕ → ℕ → Kernel H → Pid × Kernel H
    unfolding newtask do_allocatestack do_setuptask
    inittask ptp args stack prio k =
        let (t, k1) = newtask k in
        let (block, k2) = do_allocatestack t stack k1 in
        let k3 = do_setuptask t ptp args 0 k2 in
        let k4 = set_task t (record (k3.tasks t) { prio = prio }) k3 in
        if t == 0 then (0, k1) else if block == 0 then (0, k2) else (t, ready_end prio t k4)
