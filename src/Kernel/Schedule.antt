-- ===== src/Kernel/Schedule.antt =====
-- The scheduler of kernel/kernel.c: which task runs next.
use avros.Base.{
  erase-head, List-cases, ℕ, zero, suc, ◌+◌, ◌<◌, ◌≤◌, ◌≡◌, refl, List, [], ◌∷◌, arith, count,
  erase, length, update, ap, ◌∙◌, inl, inr, sym, subst,
}
use avros.Kernel.State.{Pid, Kernel, task_prio_queue_max}
use avros.Kernel.Calls.{scheduler_loop, schedule_unless, scheduler}
use avros.Kernel.Places.{places, ready_total-update}

module _ {H : Type 0} where
  -- `k'` runs the head of the first queue from `first` on that has one.
  pub record Picked (first : ℕ) (k k' : Kernel H) : Type 0 where
    pub prio : ℕ
    pub low : first ≤ prio
    pub high : prio < task_prio_queue_max
    pub task : Pid
    pub rest : List Pid
    pub queued : k.ready prio ≡ task ∷ rest
    pub above : (q : ℕ) → first ≤ q → q < prio → k.ready q ≡ []
    pub result : k' ≡ record k { ready = update k.ready prio rest; current = task ∷ k.current }

  empty_next :
      (first p : ℕ) (k : Kernel H)
      → k.ready first ≡ []
      → first ≤ p
      → 0 < length (k.ready p)
      → suc first ≤ p
  empty_next first p k e lo full = ground (arith, ap length e)

  scheduler_loop-Picked :
      (rounds first p : ℕ) (k : Kernel H)
      → first + rounds ≡ task_prio_queue_max
      → first ≤ p
      → p < task_prio_queue_max
      → 0 < length (k.ready p)
      → Picked first k (scheduler_loop rounds first k)
  unfolding scheduler_loop
  scheduler_loop-Picked zero first p k n lo hi full = absurd (omega arith)
  scheduler_loop-Picked (suc rounds) first p k n lo hi full = elim (List-cases (k.ready first)) [
    | inl e ↦
        let next : suc first ≤ p = empty_next first p k e lo full in
        let later = scheduler_loop-Picked rounds (suc first) p k (omega arith) next hi full in
        record {
          prio = later.prio;
          low = omega (arith, later.low);
          high = later.high;
          task = later.task;
          rest = later.rest;
          queued = later.queued;
          above = λ q a b. ground (arith, later.above q);
          result = rw (e, scheduler_loop) later.result;
        }
    | inr (t, rest, e) ↦ record {
      prio = first;
      low = omega arith;
      high = omega arith;
      task = t;
      rest = rest;
      queued = e;
      above = λ q a b. absurd (omega arith);
      result =
          rw (e, scheduler_loop)
            (ap (λ l. record k { ready = update k.ready first l; current = t ∷ k.current })
              (ap (erase t) e ∙ erase-head t rest));
    }
  ]

  pub scheduler_idle : (k : Kernel H) → k.current ≡ [] → scheduler k ≡ scheduler_loop 5 0 k
  unfolding scheduler
  scheduler_idle k e = ap (λ c. schedule_unless c k) e

  pub scheduler_running :
      (k : Kernel H) {t : Pid} {rest : List Pid} → k.current ≡ t ∷ rest → scheduler k ≡ k
  unfolding scheduler
  scheduler_running k e = ap (λ c. schedule_unless c k) e

  -- With no task running and a queue that is not empty, the scheduler makes the task at the head
  -- of the first such queue, which has the best priority, the running one, and changes nothing
  -- else.
  pub scheduler-Picked :
      (k : Kernel H) (p : ℕ)
      → k.current ≡ []
      → p < task_prio_queue_max
      → 0 < length (k.ready p)
      → Picked 0 k (scheduler k)
  scheduler-Picked k p idle hi full =
      subst (Picked 0 k) (sym (scheduler_idle k idle))
        (scheduler_loop-Picked 5 0 p k refl (omega arith) hi full)

  scheduler_loop-places :
      (rounds first : ℕ) (t : Pid) (k : Kernel H)
      → first + rounds ≡ task_prio_queue_max
      → places t (scheduler_loop rounds first k) ≡ places t k
  unfolding scheduler_loop
  scheduler_loop-places zero first t k n = refl
  scheduler_loop-places (suc rounds) first t k n = elim (List-cases (k.ready first)) [
    | inl e ↦ rw (e, scheduler_loop) (scheduler_loop-places rounds (suc first) t k (omega arith))
    | inr (x, rest, e) ↦
        rw (e, scheduler_loop)
          (unfold places count in
            (omega (
              arith,
              ready_total-update t 5 first (erase x (k.ready first)) k.ready (omega arith),
              ap (λ l. count t (erase x l)) e,
              ap (count t) (erase-head x rest),
              ap (count t) e,
            )))
  ]

  pub scheduler-places : (t : Pid) (k : Kernel H) → places t (scheduler k) ≡ places t k
  scheduler-places t k = elim (List-cases k.current) [
    | inl e ↦ ap (places t) (scheduler_idle k e) ∙ scheduler_loop-places 5 0 t k refl
    | inr (x, rest, e) ↦ ap (places t) (scheduler_running k e)
  ]
