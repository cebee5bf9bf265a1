-- ===== src/Kernel/Priority.antt =====
-- No call changes the priority of a task, but the one that creates it.
use avros.Base.{ℕ, ◌%◌, ◌≡◌, refl, arith, ◌==◌, if◌then◌else◌, Bool-cases, inl, inr, ◌∙◌, ap}
use avros.Kernel.State.{
  Pid, KCall, yield, getpid, kirqen, kirqdis, createtask, allocatestack, setuptask, starttask,
  stoptask, deletetask, exittask, kmalloc, kfree, send, sendrec, receive, waitevent, other, Kernel,
  Platform, prio_of, context_of,
}
use avros.Kernel.Calls.{deliver, newtask, do_allocatestack, do_setuptask}
use avros.Kernel.Loop.{
  event_done, send_done, sendrec_done, receive_done, handle_event, call_send, call_sendrec,
  call_receive, call_createtask, dispatch,
}
use avros.Kernel.Search.{
  handle_event-cases, call_send-cases, call_sendrec-cases, call_receive-cases,
}
use avros.Kernel.Separation.{new_task}

module _ {H : Type 0} where
  pub event-prio : (t cur : Pid) (k : Kernel H) → prio_of (handle_event cur k) t ≡ prio_of k t
  unfolding event_done
  event-prio t cur k = elim (handle_event-cases cur k) [
    | inl (e, q) ↦ ap (λ s. prio_of s t) q
    | inr (w, e, q) ↦ ap (λ s. prio_of s t) q ∙ ground arith
  ]

  send-prio : (t cur : Pid) (k : Kernel H) → prio_of (call_send cur k) t ≡ prio_of k t
  unfolding send_done deliver
  send-prio t cur k = elim (call_send-cases cur k) [
    | inl (e, q) ↦ ap (λ s. prio_of s t) q
    | inr (w, e, q) ↦ ap (λ s. prio_of s t) q ∙ ground arith
  ]

  sendrec-prio : (t cur : Pid) (k : Kernel H) → prio_of (call_sendrec cur k) t ≡ prio_of k t
  unfolding sendrec_done deliver
  sendrec-prio t cur k = elim (call_sendrec-cases cur k) [
    | inl (e, q) ↦ ap (λ s. prio_of s t) q
    | inr (w, e, q) ↦ ap (λ s. prio_of s t) q ∙ ground arith
  ]

  receive-prio : (t cur : Pid) (k : Kernel H) → prio_of (call_receive cur k) t ≡ prio_of k t
  unfolding receive_done deliver
  receive-prio t cur k = elim (call_receive-cases cur k) [
    | inl (e, q) ↦ ap (λ s. prio_of s t) q
    | inr (w, e, q) ↦ ap (λ s. prio_of s t) q ∙ ground arith
  ]

  module _ (platform : Platform H) where
    pub createtask-prio :
        (t cur : Pid) (k : Kernel H)
        → prio_of (call_createtask platform cur k) t ≡ (
            if new_task platform k == 0
            then prio_of k t
            else if new_task platform k == t
            then (context_of k cur).p0 % 256
            else prio_of k t)
    unfolding call_createtask newtask
    createtask-prio t cur k = elim (Bool-cases (new_task platform k == 0)) [
      | inl z ↦ ground arith
      | inr z ↦ ground arith
    ]

    setuptask-prio :
        (t x f a e : ℕ) (k : Kernel H) → prio_of (do_setuptask platform x f a e k) t ≡ prio_of k t
    unfolding do_setuptask
    setuptask-prio t x f a e k = elim (Bool-cases (e == 0)) [
      | inl z ↦ rw (z, do_setuptask) (ground arith)
      | inr z ↦ rw (z, do_setuptask) (ground arith)
    ]

    abbrev pub Creates : KCall → Type 0
    Creates createtask = Unit {0}
    Creates _ = ⊥

    pub dispatch-prio :
        (code : KCall) (t cur : Pid) (k : Kernel H)
        → ¬ Creates code
        → prio_of (dispatch platform code cur k) t ≡ prio_of k t
    unfolding dispatch
    dispatch-prio createtask t cur k n = absurd (n tt)
    dispatch-prio allocatestack t cur k n = unfold do_allocatestack in (ground arith)
    dispatch-prio setuptask t cur k n =
        setuptask-prio t (context_of k cur).p0 (context_of k cur).p1 (context_of k cur).p2
          (context_of k cur).p3 k
    dispatch-prio send t cur k n = send-prio t cur k
    dispatch-prio sendrec t cur k n = sendrec-prio t cur k
    dispatch-prio receive t cur k n = receive-prio t cur k
    dispatch-prio starttask t cur k n = ground arith
    dispatch-prio stoptask t cur k n = ground arith
    dispatch-prio deletetask t cur k n = ground arith
    dispatch-prio exittask t cur k n = refl
    dispatch-prio waitevent t cur k n = refl
    dispatch-prio yield t cur k n = refl
    dispatch-prio kfree t cur k n = refl
    dispatch-prio (other m) t cur k n = refl
    dispatch-prio kirqen t cur k n = ground arith
    dispatch-prio kirqdis t cur k n = ground arith
    dispatch-prio kmalloc t cur k n = ground arith
    dispatch-prio getpid t cur k n = ground arith
