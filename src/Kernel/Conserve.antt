-- ===== src/Kernel/Conserve.antt =====
-- The kernel loses no task and runs none twice: every pass of the loop leaves each task in as
-- many queues as before, but for the calls that make or remove one.
use avros.Base.{
  ℕ, ◌+◌, ◌<◌, ◌≡◌, refl, some, arith, ◌==◌, if◌then◌else◌, false, count, count-end,
  count-find_first, count-erase, Bool-cases, inl, inr, ◌∙◌, ◌⊎◌,
}
use Prim.Native.Nat.{bit_and}
use avros.Kernel.State.{
  Pid, KCall, yield, getpid, kirqen, kirqdis, createtask, allocatestack, setuptask, starttask,
  stoptask, deletetask, exittask, kmalloc, kfree, send, sendrec, receive, waitevent, other, Kernel,
  Platform, prio_of, context_of, wake, remv_current, set_context, Context, preempt_on_event,
  is_sendrec, sizeof_task,
}
use avros.Kernel.Calls.{meets, deliver, newtask, do_allocatestack, do_setuptask}
use avros.Kernel.Loop.{
  handle_event, call_send, call_sendrec, call_receive, call_createtask, dispatch, event_done,
  send_done, sendrec_done, receive_done,
}
use avros.Kernel.Search.{
  awaits, handle_event-cases, call_send-cases, call_sendrec-cases, call_receive-cases,
}
use avros.Kernel.Places.{
  places, unit_at, places-ready_end, places-ready_front, places-remv_current, places-block_front,
  places-wake,
}

module _ {H : Type 0} where
  -- `cur` runs, and the tasks in the queues have priorities within the table.
  pub record Running (cur : Pid) (k : Kernel H) : Type 0 where
    pub here : 0 < count cur k.current
    pub prios : (t : Pid) → 0 < places t k → prio_of k t < 5

  blocked-places : (t : Pid) (k : Kernel H) → 0 < count t k.blocked → 0 < places t k
  unfolding places
  blocked-places t k h = omega arith

  current-places : (t : Pid) (k : Kernel H) → 0 < count t k.current → 0 < places t k
  unfolding places
  current-places t k h = omega arith

  deliver-places : (t a b : Pid) (k : Kernel H) → places t (deliver a b k) ≡ places t k
  unfolding deliver places
  deliver-places t a b k = refl

  deliver-prio : (t a b : Pid) (k : Kernel H) → prio_of (deliver a b k) t ≡ prio_of k t
  unfolding deliver
  deliver-prio t a b k = ground arith

  deliver-blocked : (a b : Pid) (k : Kernel H) → (deliver a b k).blocked ≡ k.blocked
  unfolding deliver
  deliver-blocked a b k = refl

  deliver-current : (a b : Pid) (k : Kernel H) → (deliver a b k).current ≡ k.current
  unfolding deliver
  deliver-current a b k = refl

  set_context-places :
      (t x : Pid) (c : Context) (k : Kernel H) → places t (set_context x c k) ≡ places t k
  unfolding places
  set_context-places t x c k = refl

  set_context-prio :
      (t x : Pid) (c : Context) (k : Kernel H) → prio_of (set_context x c k) t ≡ prio_of k t
  set_context-prio t x c k = ground arith

  -- A blocked task that a message wakes changes its queue only.
  wake-deliver-places :
      (t w a b : Pid) (k : Kernel H)
      → 0 < count w k.blocked
      → prio_of k w < 5
      → places t (wake w (deliver a b k)) ≡ places t k
  wake-deliver-places t w a b k h p =
      places-wake t w (deliver a b k) (rw (deliver-blocked a b k) h) (rw (deliver-prio w a b k) p)
      ∙ deliver-places t a b k

  event_done-places :
      (t cur w : Pid) (k : Kernel H)
      → Running cur k
      → 0 < count w k.blocked
      → places t (event_done cur (some w, k)) ≡ places t k
  unfolding event_done places count
  event_done-places t cur w k r h =
      elim (Bool-cases (bit_and (context_of k w).p0 preempt_on_event == 0)) [
        | inl e ↦ rw e (
            omega (
              arith,
              count-erase t w k.blocked h,
              places-ready_front t (prio_of k cur) cur (remv_current cur k)
                  (r.prios cur (current-places cur k r.here)),
              places-remv_current t cur k r.here,
            ))
        | inr e ↦ rw e (
            omega (
              arith,
              count-erase t w k.blocked h,
              places-ready_end t (prio_of k cur) cur (remv_current cur k)
                  (r.prios cur (current-places cur k r.here)),
              places-remv_current t cur k r.here,
            ))
      ]

  pub handle_event-places :
      (t cur : Pid) (k : Kernel H) → Running cur k → places t (handle_event cur k) ≡ places t k
  handle_event-places t cur k r = elim (handle_event-cases cur k) [
    | inl (e, q) ↦ rw q (unfold places in refl)
    | inr (w, e, q) ↦
        rw q (event_done-places t cur w k r (count-find_first (awaits k) k.blocked w e))
  ]

  call_send-places :
      (t cur : Pid) (k : Kernel H) → Running cur k → places t (call_send cur k) ≡ places t k
  unfolding send_done
  call_send-places t cur k r = elim (call_send-cases cur k) [
    | inl (e, q) ↦ rw q (places-block_front t cur k r.here)
    | inr (w, e, q) ↦
        let h = count-find_first (λ x. meets x cur k) k.blocked w e in
        rw q (wake-deliver-places t w w cur k h (r.prios w (blocked-places w k h)))
  ]

  call_sendrec-places :
      (t cur : Pid) (k : Kernel H) → Running cur k → places t (call_sendrec cur k) ≡ places t k
  unfolding sendrec_done
  call_sendrec-places t cur k r = elim (call_sendrec-cases cur k) [
    | inl (e, q) ↦ rw q (places-block_front t cur k r.here)
    | inr (w, e, q) ↦
        let h = count-find_first (λ x. meets x cur k) k.blocked w e in
        let d = deliver w cur k in
        let c = record (context_of d cur) { code = receive } in
        let d' = set_context cur c d in
        let here : 0 < count cur d'.current = rw (deliver-current w cur k) r.here in
        let p : prio_of d' w < 5 =
          rw (set_context-prio w cur c d, deliver-prio w w cur k)
            (r.prios w (blocked-places w k h)) in
        rw q (
          places-block_front t cur (wake w d') here
          ∙ places-wake t w d' (rw (deliver-blocked w cur k) h) p
          ∙ set_context-places t cur c d
          ∙ deliver-places t w cur k)
  ]

  call_receive-places :
      (t cur : Pid) (k : Kernel H) → Running cur k → places t (call_receive cur k) ≡ places t k
  unfolding receive_done
  call_receive-places t cur k r = elim (call_receive-cases cur k) [
    | inl (e, q) ↦ rw q (places-block_front t cur k r.here)
    | inr (w, e, q) ↦
        let h = count-find_first (λ x. meets cur x k) k.blocked w e in
        rw q (elim (Bool-cases (is_sendrec (context_of (deliver cur w k) w).code)) [
          | inl s ↦ rw s (set_context-places t w _ _ ∙ deliver-places t cur w k)
          | inr s ↦ rw s (wake-deliver-places t w cur w k h (r.prios w (blocked-places w k h)))
        ])
  ]

  -- What the loop's calls demand of their caller: a task to start or to delete is blocked.
  abbrev pub Permits : KCall → Pid → Kernel H → Type 0
  Permits starttask cur k =
      ((context_of k cur).p0 ≡ 0) ⊎ (0 < count (context_of k cur).p0 k.blocked)
  Permits deletetask cur k =
      ((context_of k cur).p0 ≡ 0) ⊎ (0 < count (context_of k cur).p0 k.blocked)
  Permits _ cur k = Unit {0}

  -- The task that a call removes from the queues, and the one that it adds.
  abbrev pub removed : KCall → Pid → Kernel H → Pid → ℕ
  removed deletetask cur k t =
      if (context_of k cur).p0 == 0 then 0 else unit_at (context_of k cur).p0 t
  removed exittask cur k t = unit_at cur t
  removed _ cur k t = 0

  module _ (platform : Platform H) where
    abbrev pub added : KCall → Kernel H → Pid → ℕ
    added createtask k t =
        let new = (platform.malloc k.heap sizeof_task).0 in if new == 0 then 0 else unit_at new t
    added _ k t = 0

    allocatestack-places :
        (t x n : ℕ) (k : Kernel H) → places t (do_allocatestack platform x n k).1 ≡ places t k
    unfolding do_allocatestack places
    allocatestack-places t x n k = ground arith

    setuptask-places :
        (t x f a e : ℕ) (k : Kernel H) → places t (do_setuptask platform x f a e k) ≡ places t k
    unfolding do_setuptask places
    setuptask-places t x f a e k = ground arith

    createtask-places :
        (t cur : Pid) (k : Kernel H)
        → places t (call_createtask platform cur k) ≡ places t k + added createtask k t
    unfolding call_createtask newtask places count
    createtask-places t cur k = ground arith

    -- A task to start or to delete is blocked, unless it is null.
    pub permitted :
        (x : Pid) (k : Kernel H)
        → (x ≡ 0) ⊎ (0 < count x k.blocked)
        → (x == 0) ≡ false
        → 0 < count x k.blocked
    permitted x k (inl e) h = absurd (ground arith)
    permitted x k (inr b) h = b

    starttask-places :
        (t cur : Pid) (k : Kernel H)
        → Running cur k
        → Permits starttask cur k
        → places t (dispatch platform starttask cur k) ≡ places t k
    unfolding dispatch
    starttask-places t cur k r q = elim (Bool-cases ((context_of k cur).p0 == 0)) [
      | inl z ↦ rw z
      | inr z ↦
          let h = permitted _ k q z in rw z (places-wake t _ k h (r.prios _ (blocked-places _ k h)))
    ]

    deletetask-places :
        (t cur : Pid) (k : Kernel H)
        → Permits deletetask cur k
        → places t (dispatch platform deletetask cur k) + removed deletetask cur k t ≡ places t k
    unfolding dispatch places
    deletetask-places t cur k q = elim (Bool-cases ((context_of k cur).p0 == 0)) [
      | inl z ↦ rw z (omega arith)
      | inr z ↦ rw z (omega (arith, count-erase t _ k.blocked (permitted _ k q z)))
    ]

    exittask-places :
        (t cur : Pid) (k : Kernel H)
        → Running cur k
        → places t (dispatch platform exittask cur k) + removed exittask cur k t ≡ places t k
    unfolding dispatch places
    exittask-places t cur k r = omega (arith, count-erase t cur k.current r.here)

    waitevent-places :
        (t cur : Pid) (k : Kernel H)
        → Running cur k
        → places t (dispatch platform waitevent cur k) ≡ places t k
    unfolding dispatch places
    waitevent-places t cur k r =
        omega (arith, count-erase t cur k.current r.here, count-end t cur k.blocked)

    yield-places :
        (t cur : Pid) (k : Kernel H)
        → Running cur k
        → places t (dispatch platform yield cur k) ≡ places t k
    unfolding dispatch
    yield-places t cur k r = omega (
      arith,
      places-remv_current t cur k r.here,
      places-ready_end t (prio_of k cur) cur (remv_current cur k)
          (r.prios cur (current-places cur k r.here)),
    )

    -- A kernel call of the running task, which starts and deletes blocked tasks only, with all
    -- priorities in the table: each task stands in as many queues as before, plus the task that
    -- createtask makes, less the one that exittask or deletetask ends.
    pub dispatch-places :
        (code : KCall) (t cur : Pid) (k : Kernel H)
        → Running cur k
        → Permits code cur k
        → places t (dispatch platform code cur k) + removed code cur k t
          ≡ places t k + added code k t
    unfolding dispatch
    dispatch-places createtask t cur k r q = omega (arith, createtask-places t cur k)
    dispatch-places starttask t cur k r q = omega (arith, starttask-places t cur k r q)
    dispatch-places deletetask t cur k r q = omega (arith, deletetask-places t cur k q)
    dispatch-places exittask t cur k r q = omega (arith, exittask-places t cur k r)
    dispatch-places waitevent t cur k r q = omega (arith, waitevent-places t cur k r)
    dispatch-places yield t cur k r q = omega (arith, yield-places t cur k r)
    dispatch-places send t cur k r q = omega (arith, call_send-places t cur k r)
    dispatch-places sendrec t cur k r q = omega (arith, call_sendrec-places t cur k r)
    dispatch-places receive t cur k r q = omega (arith, call_receive-places t cur k r)
    dispatch-places allocatestack t cur k r q = omega (
      arith,
      allocatestack-places t (context_of k cur).p0 (context_of k cur).p1 k,
      set_context-places t cur _
          (do_allocatestack platform (context_of k cur).p0 (context_of k cur).p1 k).1,
    )
    dispatch-places setuptask t cur k r q = omega (
      arith,
      setuptask-places t (context_of k cur).p0 (context_of k cur).p1 (context_of k cur).p2
          (context_of k cur).p3 k,
    )
    dispatch-places stoptask t cur k r q = unfold places in (ground arith)
    dispatch-places kirqen t cur k r q = unfold places in (omega arith)
    dispatch-places kirqdis t cur k r q = unfold places in (omega arith)
    dispatch-places kmalloc t cur k r q = unfold places in (omega arith)
    dispatch-places kfree t cur k r q = unfold places in (omega arith)
    dispatch-places getpid t cur k r q = unfold places in (omega arith)
    dispatch-places (other n) t cur k r q = omega arith
