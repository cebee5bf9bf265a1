-- ===== src/Servers/Pm/Family/Orders.antt =====
-- servers/pm.c: the exit of a task before the wait of its parent.
use avros.Base.{
  ℕ, ◌<◌, ◌≡◌, inl, inr, refl, Bool, true, false, ◌||◌, Option, none, some, List, [], ◌∷◌, ◌++◌,
  arith, ◌==◌, if◌then◌else◌, if_false, erase, erase-head, count, count-erase_other, count-erase_le,
  find_first, Bool-cases, ap, ap₂, sym, ◌∙◌, subst, ==→eq, ==_refl,
}
use avros.Kernel.State.{Pid, task_any}
use avros.Queue.{Ptr, null}
use avros.Servers.Pm.State.{
  PmMsg, PmBus, Pm, pm_wait, q_first, to_front, ptr_of, pm_client, pm_pidof, is_child, pm_findbypid,
}
use avros.Servers.Pm.Exit.{leave, become_zombie, do_exit, reap, do_wait}
use avros.Servers.Pm.Loop.{serve, pm, mexit, waitpid, pm_request}
use avros.Servers.Pm.Family.Kin.{field-set_task}
use avros.Servers.Pm.Family.Invariant.{
  Family, Family-to_front, findbypid_known, parent_of, true_ne_false,
}
use avros.Servers.Pm.Family.Orphans.{leave-Left}
use avros.Servers.Pm.Family.Moved.{ne_sym}
use avros.Servers.Pm.Family.Meeting.{asked, tell_parent-become_zombie, do_wait-last}

pub find_first_unique :
    (test : Ptr → Bool) (q : List Ptr) (p : Ptr)
    → 0 < count p q
    → test p ≡ true
    → ((x : Ptr) → 0 < count x q → test x ≡ true → x ≡ p)
    → find_first test q ≡ some p
unfolding find_first count
find_first_unique test [] p h passes only = absurd (omega (arith, h))
find_first_unique test (x ∷ q) p h passes only = elim (Bool-cases (test x)) [
  | inl e ↦ rw e (ap some (only x (ground (arith, ==_refl x)) e))
  | inr e ↦
      let differ : (x == p) ≡ false = elim (Bool-cases (x == p)) [
        | inl same ↦ absurd (true_ne_false (sym passes ∙ ap test (sym (==→eq x p same)) ∙ e))
        | inr other ↦ other
      ] in
      rw e (find_first_unique test q p (ground arith) passes λ y k. only y (omega (arith, k)))
]

replied :
    (client : Pid) (o : Option PmMsg) (answer : PmMsg)
    → o ≡ some answer
    → (elim o as (λ _. Option (Pid × PmMsg)) [ none ↦ none | some a ↦ some (client, a) ])
      ≡ some (client, answer)
replied client o answer e = rw e refl

module _ {W : Type 0} where
  -- An item of a queue is not null.
  pub real_in : (k : Pm W) (p : Ptr) → 0 < count p k.task_q → Family k → (p == null) ≡ false
  real_in k p h f = elim (Bool-cases (p == null)) [
    | inl e ↦ absurd (omega (arith, h, f.real, ap (λ x. count x k.task_q) (==→eq p null e)))
    | inr e ↦ e
  ]

  module _ (bus : PmBus W) where
    do_exit-become_zombie :
        (msg : PmMsg) (k : Pm W) (p : Ptr)
        → parent_of k (pm_client k) ≡ p
        → (p == pm_client k) ≡ false
        → 0 < count p k.task_q
        → Family k
        → do_exit bus msg k ≡ (none, become_zombie bus msg (leave bus k))
    unfolding do_exit
    do_exit-become_zombie msg k p parent differ here f =
        let left = leave-Left bus k in
        let client : pm_client (leave bus k) ≡ pm_client k = ap q_first left.task_q in
        tell_parent-become_zombie bus msg (leave bus k) p
          (ap (parent_of (leave bus k)) client
            ∙ left.others (pm_client k) (ap (λ x. x == pm_client k) parent ∙ differ)
            ∙ parent)
          (real_in k p here f) (ap (count p) left.wait_q ∙ omega (arith, f.apart p, here))

    -- The zombie at the end of its queue is what the wait of its parent finds.
    do_wait-become_zombie :
        (msg wmsg : PmMsg) (s k : Pm W) (c : Ptr)
        → let z = become_zombie bus msg s in
          pm_client s ≡ c
          → k.zombie_q ≡ z.zombie_q
          → k.tasks ≡ z.tasks
          → (c == null) ≡ false
          → (pm_client k == c) ≡ false
          → parent_of s c ≡ pm_client k
          → ((wmsg.w0 == (s.tasks c).pid) || (wmsg.w0 == task_any)) ≡ true
          → ((x : Ptr) → 0 < count x s.zombie_q → (parent_of s x == pm_client k) ≡ false)
          → (do_wait bus wmsg k).0 ≡ some (record wmsg { w0 = (s.tasks c).pid; w1 = msg.w0 })
    unfolding become_zombie reap
    do_wait-become_zombie msg wmsg s k c client zombies tasks real differ parent awaited others =
        let p = pm_client k in
        let t = record (s.tasks (pm_client s)) { word = msg.w0 } in
        let t1 = record (k.tasks p) { word = wmsg.w0 } in
        let parents : (x : Ptr) → parent_of k x ≡ parent_of s x = λ x.
          ap (λ t. (t x).parent) tasks ∙ field-set_task (λ t. t.parent) (pm_client s) t s refl x in
        let pid : (k.tasks c).pid ≡ (s.tasks c).pid =
          ap (λ t. (t c).pid) tasks ∙ field-set_task (λ t. t.pid) (pm_client s) t s refl c in
        let word : ((asked wmsg k).tasks c).word ≡ msg.w0 =
          ap (λ b. (if b then t1 else k.tasks c).word) differ
          ∙ ap (λ t. (t c).word) tasks
          ∙ ap (λ b. (if b then t else s.tasks c).word) (ap (λ x. x == c) client ∙ ==_refl c) in
        let named : pm_pidof c (asked wmsg k) ≡ (s.tasks c).pid =
          if_false (c == null) _ _ real ∙ field-set_task (λ t. t.pid) p t1 k refl c ∙ pid in
        let reaped =
          do_wait-last bus wmsg k c s.zombie_q (zombies ∙ ap (λ x. s.zombie_q ++ x ∷ []) client)
            real (ap (λ x. x == p) (parents c ∙ parent) ∙ ==_refl p)
            (ap (λ y. (wmsg.w0 == y) || (wmsg.w0 == task_any)) (if_false (c == null) _ _ real ∙ pid)
              ∙ awaited)
            λ x h. ap (λ y. y == p) (parents x) ∙ others x h in
        ap (λ r. r.0) reaped ∙ ap₂ (λ a b. some (record wmsg { w0 = a; w1 = b })) named word

    -- A pass of the loop for a task that is found.
    pub pm-serve :
        (client : Pid) (msg : PmMsg) (k : Pm W) (c : Ptr)
        → pm_findbypid client k ≡ c
        → (c == null) ≡ false
        → pm bus client msg k
          ≡ serve bus msg.cmd client msg (record k { task_q = c ∷ erase c k.task_q })
    unfolding pm
    pm-serve client msg k c found real =
        ap (λ q. serve bus msg.cmd client msg (record k { task_q = q }))
          (ap (λ x. to_front x k.task_q) found ∙ if_false (c == null) _ _ real)

    pub serve-do_wait :
        (client : Pid) (msg : PmMsg) (k : Pm W) (answer : PmMsg)
        → (do_wait bus msg k).0 ≡ some answer
        → (serve bus pm_wait client msg k).0 ≡ some (client, answer)
    unfolding serve
    serve-do_wait client msg k answer e = replied client (do_wait bus msg k).0 answer e

    -- The client that is found is in the queue of tasks, and the invariant holds with it in front.
    pub found_known :
        (client : Pid) (k : Pm W) (c : Ptr)
        → pm_findbypid client k ≡ c
        → (c == null) ≡ false
        → 0 < count c k.task_q
    found_known client k c found real =
        subst (λ x. 0 < count x k.task_q) found
          (findbypid_known client k (ap (λ x. x == null) found ∙ real))

    pub front-Family :
        (k : Pm W) (c : Ptr)
        → (c == null) ≡ false
        → 0 < count c k.task_q
        → Family k
        → Family (record k { task_q = c ∷ erase c k.task_q })
    front-Family k c real known f =
        subst (λ q. Family (record k { task_q = q })) (if_false (c == null) _ _ real)
          (Family-to_front c k known f)

    -- A task that is the only one of its pid in the queue of tasks is found when another has left.
    pub findbypid-erase :
        (k z : Pm W) (c p : Ptr)
        → z.task_q ≡ erase c k.task_q
        → ((x : Ptr) → (z.tasks x).pid ≡ (k.tasks x).pid)
        → (p == c) ≡ false
        → 0 < count p k.task_q
        → ((x : Ptr) → 0 < count x k.task_q → (k.tasks x).pid ≡ (k.tasks p).pid → x ≡ p)
        → pm_findbypid (k.tasks p).pid z ≡ p
    unfolding pm_findbypid
    findbypid-erase k z c p queue pids differ here named =
        let test = λ (x : Ptr). (z.tasks x).pid == (k.tasks p).pid in
        ap (λ q. ptr_of (find_first test q)) queue
        ∙ ap ptr_of (
            find_first_unique test (erase c k.task_q) p
              (omega (arith, here, count-erase_other p c k.task_q (ne_sym p c differ)))
              (ap (λ y. y == (k.tasks p).pid) (pids p) ∙ ==_refl (k.tasks p).pid)
              λ x h same.
                named x (omega (arith, h, count-erase_le x c k.task_q))
                  (sym (pids x) ∙ ==→eq _ _ same))

    -- The zombies that are not children of `p` before the client leaves are not afterwards.
    pub leave-other_zombies :
        (k : Pm W) (p : Ptr)
        → ((x : Ptr) → 0 < count x k.zombie_q → (parent_of k x == p) ≡ false)
        → (x : Ptr) → 0 < count x (leave bus k).zombie_q
        → (parent_of (leave bus k) x == p) ≡ false
    leave-other_zombies k p others x h =
        let left = leave-Left bus k in
        elim (Bool-cases (is_child k x)) [
          | inl child ↦ absurd (omega (arith, h, left.zombies x child))
          | inr other ↦
              ap (λ y. y == p) (left.others x other)
              ∙ others x (omega (arith, h, left.other_zombies x other))
        ]

    -- In a state with the invariant of the queues, a task `c`, which is found by its pid, ends. Its
    -- parent `p` is another task, which runs and has its pid alone, and no child of `p` has ended
    -- before. Then `p` waits for `c`, or for any child. The exit has no reply; the wait is answered
    -- at once, with the pid of `c` and its exit code.
    pub pm-exit_then_wait :
        (code : ℕ) (waitfor : Pid) (m n : PmMsg) (k : Pm W) (c p : Ptr)
        → let child = (k.tasks c).pid in
          let parent = (k.tasks p).pid in
          let first = pm bus child (pm_request (mexit code) m) k in
          Family k
          → pm_findbypid child k ≡ c
          → (c == null) ≡ false
          → parent_of k c ≡ p
          → (p == c) ≡ false
          → 0 < count p k.task_q
          → ((x : Ptr) → 0 < count x k.task_q → (k.tasks x).pid ≡ parent → x ≡ p)
          → ((x : Ptr) → 0 < count x k.zombie_q → (parent_of k x == p) ≡ false)
          → ((waitfor == child) || (waitfor == task_any)) ≡ true
          → (first.0 ≡ none)
            × ((pm bus parent (pm_request (waitpid waitfor) n) first.1).0
                ≡ some (parent, record n { cmd = pm_wait; w0 = child; w1 = code }))
    unfolding pm_request serve become_zombie count
    pm-exit_then_wait code waitfor m n k c p f found real is_parent differ here named others
          awaited =
        let child = (k.tasks c).pid in
        let parent = (k.tasks p).pid in
        let msg = pm_request (mexit code) m in
        let wmsg = pm_request (waitpid waitfor) n in
        let k0 = record k { task_q = c ∷ erase c k.task_q } in
        let known : 0 < count c k.task_q = found_known child k c found real in
        let f0 : Family k0 = front-Family k c real known f in
        let s = leave bus k0 in
        let left = leave-Left bus k0 in
        let z = become_zombie bus msg s in
        let ended : pm bus child msg k ≡ (none, z) =
          pm-serve child msg k c found real
          ∙ do_exit-become_zombie msg k0 p is_parent differ
              (ground (arith, here, count-erase_other p c k.task_q (ne_sym p c differ))) f0 in
        let queue = ap (λ q. erase (q_first q) q) left.task_q ∙ erase-head c (erase c k.task_q) in
        let t = record (s.tasks (pm_client s)) { word = code } in
        let pids : (x : Ptr) → (z.tasks x).pid ≡ (k.tasks x).pid =
          λ x. field-set_task (λ t. t.pid) (pm_client s) t s refl x ∙ left.pid x in
        let back = findbypid-erase k z c p queue pids differ here named in
        let k2 = record z { task_q = p ∷ erase p z.task_q } in
        let other = ap (λ x. x == c) is_parent ∙ differ in
        let answer =
          do_wait-become_zombie msg wmsg s k2 c (ap q_first left.task_q) refl refl real differ
            (left.others c other ∙ is_parent)
            (ap (λ y. (waitfor == y) || (waitfor == task_any)) (left.pid c) ∙ awaited)
            (leave-other_zombies k0 p others) in
        (
          ap (λ r. r.0) ended,
          ap (λ r. (pm bus parent wmsg r.1).0) ended
              ∙ ap (λ r. r.0) (pm-serve parent wmsg z p back (real_in k p here f))
              ∙ serve-do_wait parent wmsg k2 _
                  (answer ∙ ap (λ y. some (record wmsg { w0 = y; w1 = code })) (left.pid c)),
        )
