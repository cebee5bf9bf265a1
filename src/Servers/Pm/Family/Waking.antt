-- ===== src/Servers/Pm/Family/Waking.antt =====
-- servers/pm.c: the wait of a parent before the exit of its child.
use avros.Base.{
  ℕ, ◌<◌, ◌≡◌, refl, true, false, ◌&&◌, ◌||◌, not, Option, none, some, inl, inr, [], ◌∷◌, ◌++◌,
  arith, ◌==◌, if◌then◌else◌, if_false, erase, erase-head, count, count-end, count-erase_other,
  count-find_first, find_first, find_first_fails, Option-cases, ap, ap₂, sym, ◌∙◌, subst, ==_refl,
}
use avros.Kernel.State.{Pid, task_any}
use avros.Queue.{Ptr, null}
use avros.Servers.Pm.State.{
  PmMsg, PmBus, Pm, pm_exit, pm_wait, q_first, ptr_of, pm_client, pm_pidof, set_task, is_child,
  is_awaited, first_by, pm_haschild, pm_findzombie, pm_findbypid,
}
use avros.Servers.Pm.Exit.{leave, wake_parent, do_exit, do_wait}
use avros.Servers.Pm.Loop.{serve, pm, mexit, waitpid, pm_request}
use avros.Servers.Pm.Family.Kin.{field-set_task}
use avros.Servers.Pm.Family.Invariant.{Family, parent_of, true_ne_false}
use avros.Servers.Pm.Family.Orphans.{leave-Left}
use avros.Servers.Pm.Family.Moved.{ne_sym, Family-word}
use avros.Servers.Pm.Family.Meeting.{
  wanted, asked, is_awaited-asked, first_by-find_first, find_first-none, tell_parent-wake_parent,
}
use avros.Servers.Pm.Family.Orders.{pm-serve, real_in, found_known, front-Family, findbypid-erase}

module _ {W : Type 0} (bus : PmBus W) where
  -- A child of the client in the queue of tasks is found there, or another child is.
  haschild_there :
      (k : Pm W) (c : Ptr)
      → Family k
      → is_child k c ≡ true
      → 0 < count c k.task_q
      → (first_by pm_haschild k.task_q k == null) ≡ false
  unfolding pm_haschild
  haschild_there k c f child here =
      let found = first_by-find_first pm_haschild (is_child k) k.task_q k (λ x. refl) in
      elim (Option-cases (find_first (is_child k) k.task_q)) [
        | inl e ↦
            absurd (true_ne_false (sym child ∙ find_first_fails (is_child k) k.task_q c e here))
        | inr (x, e) ↦
            ap (λ y. y == null) (found ∙ ap ptr_of e)
            ∙ real_in k x (count-find_first (is_child k) k.task_q x e) f
      ]

  -- The client with a child that runs and no zombie waits.
  do_wait-blocks :
      (msg : PmMsg) (k : Pm W) (c : Ptr)
      → let p = pm_client k in
        Family (asked msg k)
        → ((x : Ptr) → 0 < count x k.zombie_q → is_child k x ≡ false)
        → is_child k c ≡ true
        → 0 < count c k.task_q
        → do_wait bus msg k
          ≡ (none, record (asked msg k) { task_q = erase p k.task_q; wait_q = k.wait_q ++ p ∷ [] })
  unfolding do_wait pm_findzombie
  do_wait-blocks msg k c f others child here =
      let k1 = asked msg k in
      let p = pm_client k in
      let gone : first_by pm_findzombie k1.zombie_q k1 ≡ null =
        first_by-find_first pm_findzombie (is_awaited k1) k1.zombie_q k1 (λ x. refl)
        ∙ ap ptr_of (
            find_first-none (is_awaited k1) k.zombie_q
              λ x h. is_awaited-asked msg k x ∙ ap (λ b. b && wanted msg.w0 x k) (others x h)) in
      let same = field-set_task (λ t. t.parent) p (record (k.tasks p) { word = msg.w0 }) k refl c in
      if_false (not (first_by pm_findzombie k1.zombie_q k1 == null)) _ _
        (ap (λ x. not (x == null)) gone)
      ∙ if_false
          ((first_by pm_haschild k1.task_q k1 == null)
            && (first_by pm_haschild k1.wait_q k1 == null))
          _ _
          (ap (λ b. b && (first_by pm_haschild k1.wait_q k1 == null))
            (haschild_there k1 c f (ap (λ y. y == p) same ∙ child) here))

  -- The client whose parent waits for it is answered for.
  do_exit-answers :
      (msg : PmMsg) (k : Pm W) (c p : Ptr)
      → pm_client k ≡ c
      → parent_of k c ≡ p
      → (p == c) ≡ false
      → (p == null) ≡ false
      → (c == null) ≡ false
      → 0 < count p k.wait_q
      → (((k.tasks p).word == (k.tasks c).pid) || ((k.tasks p).word == task_any)) ≡ true
      → (do_exit bus msg k).0
        ≡ some ((k.tasks p).pid, record msg { w0 = (k.tasks c).pid; w1 = msg.w0 })
  unfolding do_exit wake_parent
  do_exit-answers msg k c p client is_parent differ real real_c waiting awaited =
      let s = leave bus k in
      let left = leave-Left bus k in
      let client_s : pm_client s ≡ c = ap q_first left.task_q ∙ client in
      let other : is_child k c ≡ false = ap₂ ◌==◌ is_parent client ∙ differ in
      let t = record (s.tasks (pm_client s)) { word = msg.w0 } in
      let pid_of = λ (x : Ptr) (e : (x == null) ≡ false).
        if_false (x == null) null ((set_task (pm_client s) t s).tasks x).pid e
        ∙ field-set_task (λ t. t.pid) (pm_client s) t s refl x
        ∙ left.pid x in
      let woken =
        tell_parent-wake_parent bus msg s p
          (ap (parent_of s) client_s ∙ left.others c other ∙ is_parent) real
          (subst (λ q. 0 < count p q) (sym left.wait_q) waiting)
          (ap₂ ◌&&◌ (ap not real) (
            ap₂ (λ w y. (w == y) || (w == task_any)) (left.word p)
              (ap (λ x. pm_pidof x s) client_s ∙ if_false (c == null) _ _ real_c ∙ left.pid c)
            ∙ awaited)) in
      ap (λ r. r.0) woken
      ∙ ap₂ (λ a b. some (a, record msg { w0 = b; w1 = msg.w0 })) (pid_of p real)
          (ap (λ x. pm_pidof x (set_task (pm_client s) t s)) client_s ∙ pid_of c real_c)

  serve-waits :
      (client : Pid) (msg : PmMsg) (k z : Pm W)
      → do_wait bus msg k ≡ (none, z)
      → serve bus pm_wait client msg k ≡ (none, z)
  unfolding serve
  serve-waits client msg k z = ap λ r.
      (elim r.0 as (λ _. Option (Pid × PmMsg)) [ none ↦ none | some a ↦ some (client, a) ], r.1)

  -- In a state with the invariant of the queues, a task `p`, which is found by its pid, waits for
  -- its child `c`, or for any child. The child is another task, which runs and has its pid alone,
  -- and no child of `p` has ended before. Then `c` ends. The wait has no reply; the exit answers
  -- `p`, with the pid of `c` and its exit code.
  pub pm-wait_then_exit :
      (code : ℕ) (waitfor : Pid) (m n : PmMsg) (k : Pm W) (c p : Ptr)
      → let child = (k.tasks c).pid in
        let parent = (k.tasks p).pid in
        let first = pm bus parent (pm_request (waitpid waitfor) n) k in
        Family k
        → pm_findbypid parent k ≡ p
        → (p == null) ≡ false
        → parent_of k c ≡ p
        → (c == p) ≡ false
        → 0 < count c k.task_q
        → ((x : Ptr) → 0 < count x k.task_q → (k.tasks x).pid ≡ child → x ≡ c)
        → ((x : Ptr) → 0 < count x k.zombie_q → (parent_of k x == p) ≡ false)
        → ((waitfor == child) || (waitfor == task_any)) ≡ true
        → (first.0 ≡ none)
          × ((pm bus child (pm_request (mexit code) m) first.1).0
              ≡ some (parent, record m { cmd = pm_exit; w0 = child; w1 = code }))
  unfolding pm_request serve count
  pm-wait_then_exit code waitfor m n k c p f found real is_parent differ here named others awaited =
      let child = (k.tasks c).pid in
      let parent = (k.tasks p).pid in
      let msg = pm_request (mexit code) m in
      let wmsg = pm_request (waitpid waitfor) n in
      let k0 = record k { task_q = p ∷ erase p k.task_q } in
      let f0 = front-Family bus k p real (found_known bus parent k p found real) f in
      let z = record (asked wmsg k0) { task_q = erase p k0.task_q; wait_q = k.wait_q ++ p ∷ [] } in
      let waiting : pm bus parent wmsg k ≡ (none, z) =
        pm-serve bus parent wmsg k p found real
        ∙ serve-waits parent wmsg k0 z (
            do_wait-blocks wmsg k0 c (Family-word p waitfor k0 f0) others
              (ap (λ x. x == p) is_parent ∙ ==_refl p)
              (ground (arith, here, count-erase_other c p k.task_q (ne_sym c p differ)))) in
      let t = record (k.tasks p) { word = waitfor } in
      let back =
        findbypid-erase bus k z p c (erase-head p (erase p k.task_q))
          (field-set_task (λ t. t.pid) p t k refl) differ here named in
      let k2 = record z { task_q = c ∷ erase c z.task_q } in
      let real_c = real_in k c here f in
      (
        ap (λ r. r.0) waiting,
        ap (λ r. (pm bus child msg r.1).0) waiting
            ∙ ap (λ r. r.0) (pm-serve bus child msg z c back real_c)
            ∙ do_exit-answers msg k2 c p refl
                (field-set_task (λ t. t.parent) p t k refl c ∙ is_parent) (ne_sym c p differ) real
                real_c (ground (arith, count-end p p k.wait_q, ==_refl p))
                (ap₂ (λ w y. (w == y) || (w == task_any))
                    (ap (λ b. (if b then t else k.tasks p).word) (==_refl p))
                    (field-set_task (λ t. t.pid) p t k refl c)
                  ∙ awaited)
            ∙ ap₂ (λ a b. some (a, record msg { w0 = b; w1 = code }))
                (field-set_task (λ t. t.pid) p t k refl p)
                (field-set_task (λ t. t.pid) p t k refl c),
      )
