-- ===== src/Kernel/Separation.antt =====
-- Every pass of the kernel loop keeps the blocked tasks apart.
use avros.Base.{
  ℕ, ◌+◌, ◌<◌, ◌≡◌, refl, List, ◌∷◌, arith, ◌==◌, true, false, count, count-end, Bool-cases,
  if_elim, inl, inr, ap, ◌∙◌, sym, subst, ◌⊎◌,
}
use avros.Kernel.State.{
  Pid, KCall, yield, getpid, kirqen, kirqdis, createtask, allocatestack, setuptask, starttask,
  stoptask, deletetask, exittask, kmalloc, kfree, send, sendrec, receive, waitevent, other, Kernel,
  Platform, context_of, wake, set_p0, set_context, u16, sizeof_context, sizeof_fn, sizeof_task,
  is_send, is_sendrec, is_receive,
}
use avros.Kernel.Calls.{meets, newtask, do_allocatestack, do_setuptask}
use avros.Kernel.Loop.{call_createtask, dispatch}
use avros.Kernel.Conserve.{Permits, permitted}
use avros.Kernel.Rendezvous.{
  IsBlocked, Separated, Distinct, send-Separated, sendrec-Separated, receive-Separated, not_running,
  meets_sender, meets_receiver, meets_same, Separated-join, Separated-leave,
}

-- A context whose call code is none of the three that pass messages.
abbrev pub IsUnarmed : KCall → Type 0
IsUnarmed c = (is_send c ≡ false) × (is_sendrec c ≡ false) × (is_receive c ≡ false)

module _ {H : Type 0} where
  -- Memory that nobody has written never looks like such a call.
  abbrev pub IsBlank : Platform H → Type 0
  IsBlank platform = (h : H) (sp : ℕ) → IsUnarmed (platform.leftover h sp).code

  pub Separated-same :
      (k k' : Kernel H)
      → Separated k
      → k'.blocked ≡ k.blocked
      → ((a : Pid) → IsBlocked a k → context_of k' a ≡ context_of k a)
      → Separated k'
  Separated-same k k' s e same a b ha hb =
      let ga = subst (λ l. 0 < count a l) e ha in
      let gb = subst (λ l. 0 < count b l) e hb in
      meets_same a b k k' (same a ga) (same b gb) ∙ s a b ga gb

  unarmed_alone :
      (x b : Pid) (k : Kernel H)
      → IsUnarmed (context_of k x).code
      → (meets x b k ≡ false) × (meets b x k ≡ false)
  unarmed_alone x b k u = (meets_receiver x b k u.2, meets_sender b x k u.0 u.1)

  -- `x` is given a blank context.
  Separated-blank :
      (x : Pid) (k k' : Kernel H)
      → Separated k
      → k'.blocked ≡ k.blocked
      → ((a : Pid) → IsBlocked a k → (a == x) ≡ false → context_of k' a ≡ context_of k a)
      → IsUnarmed (context_of k' x).code
      → Separated k'
  Separated-blank x k k' s e same u =
      Separated-join x k k' s
        (λ a ha na. let ga = subst (λ l. 0 < count a l) e ha in (ga, same a ga na))
        λ b hb. unarmed_alone x b k' u

  module _ (platform : Platform H) where
    setuptask_context :
        (x f a e : ℕ) (k : Kernel H)
        → (context_of (do_setuptask platform x f a e k) x).code
          ≡ (platform.leftover k.heap ((do_setuptask platform x f a e k).tasks x).sp).code
    unfolding do_setuptask
    setuptask_context x f a e k = ground arith

    setuptask_others :
        (x f a e t : ℕ) (k : Kernel H)
        → (t == x) ≡ false
        → context_of (do_setuptask platform x f a e k) t ≡ context_of k t
    unfolding do_setuptask
    setuptask_others x f a e t k n = elim (Bool-cases (e == 0)) [
      | inl z ↦ rw (z, do_setuptask) (ground arith)
      | inr z ↦ rw (z, do_setuptask) (ground arith)
    ]

    setuptask_blocked :
        (x f a e : ℕ) (k : Kernel H) → (do_setuptask platform x f a e k).blocked ≡ k.blocked
    unfolding do_setuptask
    setuptask_blocked x f a e k = ground arith

    setuptask-Separated :
        (cur : Pid) (k : Kernel H)
        → IsBlank platform
        → Separated k
        → Separated (dispatch platform setuptask cur k)
    unfolding dispatch
    setuptask-Separated cur k u s =
        let c = context_of k cur in
        let k' = do_setuptask platform c.p0 c.p1 c.p2 c.p3 k in
        Separated-blank c.p0 k k' s (setuptask_blocked c.p0 c.p1 c.p2 c.p3 k)
          (λ a b n. setuptask_others c.p0 c.p1 c.p2 c.p3 a k n)
          (subst IsUnarmed (sym (setuptask_context c.p0 c.p1 c.p2 c.p3 k))
            (u k.heap (k'.tasks c.p0).sp))

    -- Either the context of the task is that of its new stack, or nothing is changed.
    allocatestack_context :
        (x n : ℕ) (k : Kernel H)
        → (((t : Pid) → context_of (do_allocatestack platform x n k).1 t ≡ context_of k t))
          ⊎ ((context_of (do_allocatestack platform x n k).1 x
                ≡ platform.leftover
                    (do_allocatestack platform x n k).1.heap
                    ((do_allocatestack platform x n k).1.tasks x).sp)
              × ((t : Pid)
                  → (t == x) ≡ false
                  → context_of (do_allocatestack platform x n k).1 t ≡ context_of k t))
    unfolding do_allocatestack
    allocatestack_context x n k = elim (Bool-cases (n == 0)) [
      | inl z ↦ inl (λ t. rw (z, do_allocatestack))
      | inr z ↦
          elim (Bool-cases
            ((platform.malloc k.heap (u16 (n + (sizeof_context + sizeof_fn)))).0 == 0)) [
              | inl y ↦ inl (λ t. rw (z, do_allocatestack) (rw y (ground arith)))
              | inr y ↦ inr (ground arith, λ t o. ground arith)
            ]
    ]

    allocatestack_blocked :
        (x n : ℕ) (k : Kernel H) → (do_allocatestack platform x n k).1.blocked ≡ k.blocked
    unfolding do_allocatestack
    allocatestack_blocked x n k = ground arith

    -- `set_p0` on the task that runs changes nothing for the blocked ones.
    answered_others :
        (cur v a : ℕ) (k k1 : Kernel H)
        → Distinct cur k
        → IsBlocked a k
        → context_of (set_context cur (set_p0 v (context_of k1 cur)) k1) a ≡ context_of k1 a
    answered_others cur v a k k1 d h = ground (arith, not_running a cur k d h)

    answered_code :
        (cur v x : ℕ) (k : Kernel H)
        → (context_of (set_context cur (set_p0 v (context_of k cur)) k) x).code
          ≡ (context_of k x).code
    answered_code cur v x k = ground arith

    allocatestack-Separated :
        (cur : Pid) (k : Kernel H)
        → IsBlank platform
        → Separated k
        → Distinct cur k
        → Separated (dispatch platform allocatestack cur k)
    unfolding dispatch
    allocatestack-Separated cur k u s d = elim (allocatestack_context x n k) [
      | inl same ↦
          Separated-same k (dispatch platform allocatestack cur k) s (allocatestack_blocked x n k)
            λ a h. answered_others cur v a k k1 d h ∙ same a
      | inr (own, same) ↦
          Separated-blank x k (dispatch platform allocatestack cur k) s
            (allocatestack_blocked x n k) (λ a h o. answered_others cur v a k k1 d h ∙ same a o)
            (subst IsUnarmed (sym (answered_code cur v x k1 ∙ ap (λ c. c.code) own))
              (u k1.heap (k1.tasks x).sp))
    ]
      where
        x : ℕ
        x = (context_of k cur).p0

        n : ℕ
        n = (context_of k cur).p1

        v : ℕ
        v = (do_allocatestack platform x n k).0

        k1 : Kernel H
        k1 = (do_allocatestack platform x n k).1

    abbrev pub new_task : Kernel H → Pid
    new_task k = (platform.malloc k.heap sizeof_task).0

    createtask_fails :
        (cur : Pid) (k : Kernel H)
        → (new_task k == 0) ≡ true
        → ((call_createtask platform cur k).blocked ≡ k.blocked)
          × ((a : Pid)
              → (cur == a) ≡ false
              → context_of (call_createtask platform cur k) a ≡ context_of k a)
    unfolding call_createtask newtask
    createtask_fails cur k z = (ground arith, λ a n. ground arith)

    createtask_blocks :
        (cur : Pid) (k : Kernel H)
        → (new_task k == 0) ≡ false
        → ((call_createtask platform cur k).blocked ≡ new_task k ∷ k.blocked)
          × ((a : Pid)
              → (cur == a) ≡ false
              → (a == new_task k) ≡ false
              → context_of (call_createtask platform cur k) a ≡ context_of k a)
          × ((context_of (call_createtask platform cur k) (new_task k)).code
              ≡ (platform.leftover (platform.malloc k.heap sizeof_task).1 0).code)
    unfolding call_createtask newtask
    createtask_blocks cur k z = (ground arith, (λ a n m. ground arith), ground arith)

    created :
        (t a : Pid) (l m : List Pid) → l ≡ t ∷ m → (a == t) ≡ false → 0 < count a l → 0 < count a m
    unfolding count
    created t a l m e n h = ground (arith, ap (count a) e)

    createtask-Separated :
        (cur : Pid) (k : Kernel H)
        → IsBlank platform
        → Separated k
        → Distinct cur k
        → Separated (call_createtask platform cur k)
    createtask-Separated cur k u s d = elim (Bool-cases (new_task k == 0)) [
      | inl z ↦
          let f = createtask_fails cur k z in
          Separated-same k (call_createtask platform cur k) s f.0
            λ a h. f.1 a (not_running a cur k d h)
      | inr z ↦
          let f = createtask_blocks cur k z in
          Separated-join (new_task k) k (call_createtask platform cur k) s
            (λ a ha na.
              let old = created (new_task k) a _ k.blocked f.0 na ha in
              (old, f.1 a (not_running a cur k d old) na))
            λ b hb.
              unarmed_alone (new_task k) b (call_createtask platform cur k)
                (subst IsUnarmed (sym f.2) (u (platform.malloc k.heap sizeof_task).1 0))
    ]

    starttask-Separated :
        (cur : Pid) (k : Kernel H)
        → Permits starttask cur k
        → Separated k
        → Distinct cur k
        → Separated (dispatch platform starttask cur k)
    unfolding dispatch
    starttask-Separated cur k q s d =
        let t = (context_of k cur).p0 in
        if_elim Separated (t == 0) k (wake t k) (λ _. s)
          λ n.
            Separated-leave t k (wake t k) s d.once (permitted platform t k q n) refl λ a na b. refl

    deletetask-Separated :
        (cur : Pid) (k : Kernel H)
        → Permits deletetask cur k
        → Separated k
        → Distinct cur k
        → Separated (dispatch platform deletetask cur k)
    unfolding dispatch
    deletetask-Separated cur k q s d = elim (Bool-cases ((context_of k cur).p0 == 0)) [
      | inl z ↦ Separated-same k _ s (rw (z, dispatch)) λ a b. ground arith
      | inr n ↦
          Separated-leave (context_of k cur).p0 k _ s d.once (permitted platform _ k q n)
            (rw (n, dispatch)) λ a na b. ground arith
    ]

    waitevent-Separated :
        (cur : Pid) (k : Kernel H)
        → (context_of k cur).code ≡ waitevent
        → Separated k
        → Separated (dispatch platform waitevent cur k)
    unfolding dispatch
    waitevent-Separated cur k c s =
        Separated-join cur k (dispatch platform waitevent cur k) s
          (λ a ha na. (ground (arith, count-end a cur k.blocked), refl))
          λ b hb. unarmed_alone cur b (dispatch platform waitevent cur k) (rw c (refl, refl, refl))

    -- Whatever call the task makes, no two blocked tasks could meet afterwards, if none could
    -- before.
    pub dispatch-Separated :
        (code : KCall) (cur : Pid) (k : Kernel H)
        → IsBlank platform
        → (context_of k cur).code ≡ code
        → Permits code cur k
        → Separated k
        → Distinct cur k
        → Separated (dispatch platform code cur k)
    unfolding dispatch
    dispatch-Separated createtask cur k u c q s d = createtask-Separated cur k u s d
    dispatch-Separated allocatestack cur k u c q s d = allocatestack-Separated cur k u s d
    dispatch-Separated setuptask cur k u c q s d = setuptask-Separated cur k u s
    dispatch-Separated starttask cur k u c q s d = starttask-Separated cur k q s d
    dispatch-Separated deletetask cur k u c q s d = deletetask-Separated cur k q s d
    dispatch-Separated waitevent cur k u c q s d = waitevent-Separated cur k c s
    dispatch-Separated send cur k u c q s d = send-Separated cur k (rw c) s d
    dispatch-Separated sendrec cur k u c q s d = sendrec-Separated cur k (rw c) s d
    dispatch-Separated receive cur k u c q s d = receive-Separated cur k (rw c) (rw c) s d
    dispatch-Separated exittask cur k u c q s d = unfold meets in s
    dispatch-Separated yield cur k u c q s d = unfold meets in s
    dispatch-Separated kfree cur k u c q s d = unfold meets in s
    dispatch-Separated (other n) cur k u c q s d = s
    dispatch-Separated stoptask cur k u c q s d =
        Separated-same k (dispatch platform stoptask cur k) s (ground arith) λ a h. ground arith
    dispatch-Separated kirqen cur k u c q s d =
        Separated-same k (dispatch platform kirqen cur k) s refl λ a h. ground arith
    dispatch-Separated kirqdis cur k u c q s d =
        Separated-same k (dispatch platform kirqdis cur k) s refl λ a h. ground arith
    dispatch-Separated kmalloc cur k u c q s d =
        Separated-same k (dispatch platform kmalloc cur k) s refl
          λ a h. ground (arith, not_running a cur k d h)
    dispatch-Separated getpid cur k u c q s d =
        Separated-same k (dispatch platform getpid cur k) s refl
          λ a h. ground (arith, not_running a cur k d h)
