-- ===== src/Kernel/Reach.antt =====
-- The kernel as a system: the loop's passes, with any task behaviour and any interrupts between
-- them, and what holds in every state that they reach.
use avros.Base.{
  List-cases, ℕ, zero, suc, ◌+◌, ◌%◌, ◌<◌, ◌≤◌, ◌≡◌, ◌≢◌, refl, List, ◌∷◌, some, arith, ◌==◌,
  ==_refl, some_inj, if◌then◌else◌, true, false, count, Bool-cases, if_elim, inl, inr, ap, ◌∙◌, sym,
  subst,
}
use avros.Kernel.State.{
  Pid, KCall, createtask, Kernel, Platform, context_of, prio_of, task_any, task_prio_queue_max,
}
use avros.Kernel.Calls.{scheduler, scheduler_loop}
use avros.Kernel.Loop.{Runs, calls, interrupted, handle_event, dispatch, resume, reenter}
use avros.Kernel.Places.{places}
use avros.Kernel.Conserve.{Permits, added, handle_event-places, dispatch-places}
use avros.Kernel.Rendezvous.{Separated, Distinct, event-Separated, not_running}
use avros.Kernel.Schedule.{scheduler-places, scheduler_idle, scheduler_running}
use avros.Kernel.Separation.{IsBlank, new_task, dispatch-Separated, Separated-same}
use avros.Kernel.Priority.{event-prio, createtask-prio, dispatch-prio}

module _ {H : Type 0} where
  -- Every task is in one queue at most, with a priority of the table, and none has the pid that
  -- stands for any task.
  pub record Inv (k : Kernel H) : Type 0 where
    pub once : (t : Pid) → places t k ≤ 1
    pub prios : (t : Pid) → 0 < places t k → prio_of k t < task_prio_queue_max
    pub unnamed : places task_any k ≡ 0

  scheduler_loop_keeps :
      (n p : ℕ) (k : Kernel H)
      → ((scheduler_loop n p k).blocked ≡ k.blocked) × ((scheduler_loop n p k).tasks ≡ k.tasks)
  unfolding scheduler_loop
  scheduler_loop_keeps zero p k = (refl, refl)
  scheduler_loop_keeps (suc n) p k = elim (List-cases (k.ready p)) [
    | inl e ↦ rw (e, scheduler_loop) (scheduler_loop_keeps n (suc p) k)
    | inr (t, rest, e) ↦ rw (e, scheduler_loop) (refl, refl)
  ]

  scheduler_keeps :
      (k : Kernel H) → ((scheduler k).blocked ≡ k.blocked) × ((scheduler k).tasks ≡ k.tasks)
  scheduler_keeps k = elim (List-cases k.current) [
    | inl e ↦
        let f = scheduler_loop_keeps 5 0 k in
        (
          ap (λ s. s.blocked) (scheduler_idle k e) ∙ f.0,
          ap (λ s. s.tasks) (scheduler_idle k e) ∙ f.1,
        )
    | inr (t, rest, e) ↦
        (ap (λ s. s.blocked) (scheduler_running k e), ap (λ s. s.tasks) (scheduler_running k e))
  ]

  scheduler-Inv : (k : Kernel H) → Inv k → Inv (scheduler k)
  scheduler-Inv k v = record {
    once = λ t. omega (arith, scheduler-places t k, v.once t);
    prios = λ t h.
        subst (λ f. (f t).prio < 5) (sym (scheduler_keeps k).1)
          (v.prios t (omega (arith, scheduler-places t k)));
    unnamed = omega (arith, scheduler-places task_any k, v.unnamed);
  }

  scheduler-Separated : (k : Kernel H) → Separated k → Separated (scheduler k)
  scheduler-Separated k o =
      Separated-same k (scheduler k) o (scheduler_keeps k).0
        λ a h. ap (λ f. (f a).ctxt) (scheduler_keeps k).1

  -- The task that runs touches its own registers only.
  Runs-tasks :
      {cur : Pid} {k r : Kernel H}
      → Runs cur k r
      → ((t : Pid) → places t r ≡ places t k)
        × ((t : Pid) → prio_of r t ≡ prio_of k t)
        × (r.blocked ≡ k.blocked)
        × (r.current ≡ k.current)
        × ((t : Pid) → (cur == t) ≡ false → context_of r t ≡ context_of k t)
  unfolding places
  Runs-tasks (calls c call mem) = (λ t. refl, λ t. ground arith, refl, refl, λ t n. ground arith)
  Runs-tasks (interrupted c event mem i e) =
      (λ t. refl, λ t. ground arith, refl, refl, λ t n. ground arith)

  -- The task that runs, in a state of the invariant.
  current-Distinct :
      (cur : Pid) (rest : List Pid) (k : Kernel H)
      → Inv k
      → k.current ≡ cur ∷ rest
      → (0 < count cur k.current) × Distinct cur k
  unfolding places count
  current-Distinct cur rest k v e = (
    here,
    record {
      once = λ t. omega (arith, v.once t);
      apart = omega (arith, v.once cur, here);
      named = λ t h. elim (Bool-cases (t == task_any)) [
        | inl q ↦ absurd (ground (arith, v.unnamed))
        | inr n ↦ n
      ];
      running = elim (Bool-cases (cur == task_any)) [
        | inl q ↦ absurd (ground (arith, v.unnamed, here))
        | inr n ↦ n
      ];
    },
  )
    where
      here : 0 < count cur k.current
      here = rw e (rw (==_refl cur) (omega arith))

  Runs-Inv : {cur : Pid} {k r : Kernel H} → Runs cur k r → Inv k → Inv r
  Runs-Inv {cur} {k} {r} m v =
      let f = Runs-tasks m in
      record {
        once = λ t. omega (arith, f.0 t, v.once t);
        prios = λ t h. omega (arith, f.1 t, v.prios t (omega (arith, f.0 t)));
        unnamed = omega (arith, f.0 task_any, v.unnamed);
      }

  Runs-Separated :
      {cur : Pid} {k r : Kernel H} → Runs cur k r → Separated k → Distinct cur k → Separated r
  Runs-Separated {cur} {k} {r} m o d =
      let f = Runs-tasks m in Separated-same k r o f.2 λ a h. f.4 a (not_running a cur k d h)

  module _ (platform : Platform H) where
    -- What the calls rely on: a task to be started or deleted is blocked; a new task is at an
    -- address of its own and gets a priority of the table.
    pub record Allowed (cur : Pid) (k : Kernel H) : Type 0 where
      pub permits : Permits (context_of k cur).code cur k
      pub fresh : (context_of k cur).code ≡ createtask → places (new_task platform k) k ≡ 0
      pub not_any : (context_of k cur).code ≡ createtask → new_task platform k ≢ task_any
      pub in_table :
          (context_of k cur).code ≡ createtask → (context_of k cur).p0 % 256 < task_prio_queue_max

    -- One pass: the scheduler, the task that it picked, and the kernel's answer. A task that is
    -- interrupted may have anything in its registers.
    pub data Pass (k k' : Kernel H) : Type 0 where
      pass :
          (cur : Pid) (rest : List Pid) (r : Kernel H)
          → (scheduler k).current ≡ cur ∷ rest
          → Runs cur (scheduler k) r
          → ((r.eventcode == 0) ≡ true → Allowed cur r)
          → reenter platform r ≡ some k'
          → Pass k k'

    pub data Reach (k : Kernel H) : Kernel H → Type 0 where
      start : Reach k k
      later : {s t : Kernel H} → Reach k s → Pass s t → Reach k t

    -- A new task stands nowhere else.
    once-added :
        (code : KCall) (t cur : Pid) (k : Kernel H)
        → (context_of k cur).code ≡ code
        → Allowed cur k
        → places t k ≤ 1
        → places t k + added platform code k t ≤ 1
    once-added createtask t cur k c a h = elim (Bool-cases (new_task platform k == t)) [
      | inl e ↦ ground (arith, a.fresh c)
      | inr n ↦ ground arith
    ]
    once-added _ t cur k c a h = omega arith

    added-task_any :
        (code : KCall) (cur : Pid) (k : Kernel H)
        → (context_of k cur).code ≡ code
        → Allowed cur k
        → added platform code k task_any ≡ 0
    added-task_any createtask cur k c a = ground (arith, a.not_any c)
    added-task_any _ cur k c a = refl

    prios-dispatch :
        (code : KCall) (t cur : Pid) (k : Kernel H)
        → (context_of k cur).code ≡ code
        → Allowed cur k
        → Inv k
        → 0 < places t k + added platform code k t
        → prio_of (dispatch platform code cur k) t < task_prio_queue_max
    prios-dispatch createtask t cur k c a v h =
        unfold dispatch in
        (rw (createtask-prio platform t cur k) (ground (arith, a.in_table c, v.prios t)))
    prios-dispatch code t cur k c a v h =
        rw (dispatch-prio platform code t cur k (λ x. x)) (v.prios t (omega arith))

    dispatch-Inv :
        (code : KCall) (cur : Pid) (k : Kernel H)
        → (context_of k cur).code ≡ code
        → Allowed cur k
        → Inv k
        → 0 < count cur k.current
        → Inv (dispatch platform code cur k)
    dispatch-Inv code cur k c a v here =
        let q = subst (λ x. Permits x cur k) c a.permits in
        let moved = λ (t : Pid).
          dispatch-places platform code t cur k (record { here = here; prios = v.prios }) q in
        record {
          once = λ t. omega (arith, moved t, once-added code t cur k c a (v.once t));
          prios = λ t h. prios-dispatch code t cur k c a v (omega (arith, moved t));
          unnamed = omega (arith, moved task_any, added-task_any code cur k c a, v.unnamed);
        }

    event-Inv :
        (cur : Pid) (k : Kernel H) → Inv k → 0 < count cur k.current → Inv (handle_event cur k)
    event-Inv cur k v here =
        let moved =
          λ (t : Pid). handle_event-places t cur k (record { here = here; prios = v.prios }) in
        record {
          once = λ t. omega (arith, moved t, v.once t);
          prios = λ t h. rw (event-prio t cur k) (v.prios t (omega (arith, moved t)));
          unnamed = omega (arith, moved task_any, v.unnamed);
        }

    pub reenter_lem :
        (cur : Pid) (rest : List Pid) (k : Kernel H)
        → k.current ≡ cur ∷ rest
        → reenter platform k
          ≡ some (
              if k.eventcode == 0
              then dispatch platform (context_of k cur).code cur k
              else handle_event cur k)
    unfolding reenter
    reenter_lem cur rest k e = ap (λ l. resume platform l k) e

    -- What holds after a pass by which of its two ways it went.
    after_reenter :
        (P : Kernel H → Type 0) (cur : Pid) (rest : List Pid) (k k' : Kernel H)
        → k.current ≡ cur ∷ rest
        → reenter platform k ≡ some k'
        → ((k.eventcode == 0) ≡ true → P (dispatch platform (context_of k cur).code cur k))
        → P (handle_event cur k)
        → P k'
    after_reenter P cur rest k k' e q call event =
        subst P (some_inj (sym (reenter_lem cur rest k e) ∙ q))
          (if_elim P (k.eventcode == 0) _ _ call (λ _. event))

    -- A pass of the loop keeps the invariant.
    pub Pass-Inv : {k k' : Kernel H} → Pass k k' → Inv k → Inv k'
    Pass-Inv {k} {k'} (pass cur rest r e m a q) v =
        let v' = Runs-Inv m (scheduler-Inv k v) in
        let e' = (Runs-tasks m).3 ∙ e in
        let (here, _) = current-Distinct cur rest r v' e' in
        after_reenter Inv cur rest r k' e' q
          (λ z. dispatch-Inv (context_of r cur).code cur r refl (a z) v' here)
          (event-Inv cur r v' here)

    -- From a state that meets the invariant, with calls that start or delete blocked tasks only
    -- and create tasks at new addresses with a priority of the table, and with interrupts at any
    -- point of any task, the kernel reaches only states that meet it: each task is in one queue at
    -- most, its priority is one of the table, and no task has the pid that stands for any.
    pub Reach-Inv : {k k' : Kernel H} → Reach k k' → Inv k → Inv k'
    Reach-Inv start v = v
    Reach-Inv (later p s) v = Pass-Inv s (Reach-Inv p v)

    Pass-Separated :
        {k k' : Kernel H} → IsBlank platform → Pass k k' → Inv k → Separated k → Separated k'
    Pass-Separated {k} {k'} u (pass cur rest r e m a q) v o =
        let v1 = scheduler-Inv k v in
        let o' =
          Runs-Separated m (scheduler-Separated k o)
            (current-Distinct cur rest (scheduler k) v1 e).1 in
        let e' = (Runs-tasks m).3 ∙ e in
        let (_, d) = current-Distinct cur rest r (Runs-Inv m v1) e' in
        after_reenter Separated cur rest r k' e' q
          (λ z. dispatch-Separated platform (context_of r cur).code cur r u refl (a z).permits o' d)
          (event-Separated cur r o' d)

    -- On a platform whose unwritten memory never holds the code of a message call, which malloc
    -- does not promise, no two blocked tasks could exchange a message.
    pub Reach-Separated :
        {k k' : Kernel H} → IsBlank platform → Reach k k' → Inv k → Separated k → Separated k'
    Reach-Separated u start v o = o
    Reach-Separated u (later p s) v o = Pass-Separated u s (Reach-Inv p v) (Reach-Separated u p v o)
