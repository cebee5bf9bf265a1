-- ===== src/Servers/Pm/Tests.antt =====
-- A process manager with a task and its child, and the theorems at them.
use avros.Base.{
  ℕ, ◌+◌, ◌<◌, ◌≡◌, refl, false, Option, none, some, ◌⊎◌, inl, inr, ap, sym, ◌∙◌, subst, erase,
  Bool-cases, ==→eq, [], ◌∷◌, count, arith, ◌==◌,
}
use avros.Kernel.State.{Pid, task_any}
use avros.Kernel.Calls.{q_forall}
use avros.Queue.{Ptr, null}
use avros.Servers.Pm.State.{
  PmTask, PmMsg, PmBus, Pm, pm_other, pm_spawn, pm_exit, pm_wait, pm_findbypid,
}
use avros.Servers.Pm.Loop.{pm, pm_start, pm_request, spawntask, mexit, waitpid}
use avros.Servers.Pm.Family.Invariant.{Family, places, parent_of}
use avros.Servers.Pm.Family.Spawn.{spawned}
use avros.Servers.Pm.Family.Reach.{started, served, Reach-Family}
use avros.Servers.Pm.Family.Orders.{pm-exit_then_wait}
use avros.Servers.Pm.Family.Waking.{pm-wait_then_exit}

-- A system that only counts: each call that gives something gives the next number.
abbrev counting : PmBus ℕ
counting = record {
  memory = record { take = λ w n. (w, 1 + w); give = λ w p. w };
  createtask = λ w. (w, 1 + w);
  stoptask = λ p w. w;
  starttask = λ p w. w;
  deletetask = λ p w. w;
  allocatestack = λ p n w. w;
  setuptask = λ p entry args w. w;
  vfs_createtask = λ p parent w. (p, w);
  vfs_deletetask = λ p w. w;
  ex_getprg = λ name w. ((40, 64), w);
  argstack_size = λ argv w. 8;
  cook_argstack = λ to argv w. w;
}

abbrev unwritten : Ptr → PmTask
unwritten x = record { pid = 0; chunk_q = []; word = 0; parent = null; args = null }

abbrev blank : PmMsg
blank = record { cmd = pm_other; w0 = 0; w1 = 0; w2 = 0 }

abbrev alone : Pm ℕ
alone = pm_start counting 5 6 unwritten (λ x. null) 100

-- The first task, 100 at the item 101, makes the task 103 at the item 104.
abbrev two_tasks : Pm ℕ
two_tasks = (pm counting 100 (pm_request (spawntask 50 64 7) blank) alone).1

queue : two_tasks.task_q ≡ 101 ∷ 104 ∷ []
unfolding pm pm_start pm_request q_forall erase
queue = refl

found_first : (pm_findbypid 100 alone == null) ≡ false
unfolding pm_start pm_findbypid q_forall
found_first = refl

new_item : pm_spawn ≡ pm_spawn → places (spawned counting alone) alone ≡ 0
unfolding pm_start count q_forall
new_item e = refl

two_tasks-Family : Family two_tasks
unfolding pm_request
two_tasks-Family = Reach-Family counting two_tasks (
    served 100 (pm_request (spawntask 50 64 7) blank) alone (started 5 6 unwritten (λ x. null) 100)
      found_first new_item)

found_child : pm_findbypid 103 two_tasks ≡ 104
unfolding pm pm_start pm_request pm_findbypid q_forall erase
found_child = refl

found_parent : pm_findbypid 100 two_tasks ≡ 101
unfolding pm pm_start pm_request pm_findbypid q_forall erase
found_parent = refl

in_queue : (0 < count 101 two_tasks.task_q) × (0 < count 104 two_tasks.task_q)
unfolding pm pm_start pm_request q_forall erase count
in_queue = (omega arith, omega arith)

two_items : (x : Ptr) → 0 < count x (101 ∷ 104 ∷ []) → (x ≡ 101) ⊎ (x ≡ 104)
unfolding count
two_items x h = elim (Bool-cases (101 == x)) [
  | inl e ↦ inl (sym (==→eq 101 x e))
  | inr e ↦ elim (Bool-cases (104 == x)) [
    | inl f ↦ inr (sym (==→eq 104 x f))
    | inr f ↦ absurd (ground arith)
  ]
]

one_of : (x : Ptr) → 0 < count x two_tasks.task_q → (x ≡ 101) ⊎ (x ≡ 104)
one_of x h = two_items x (subst (λ q. 0 < count x q) queue h)

named_parent : (x : Ptr) → 0 < count x two_tasks.task_q → (two_tasks.tasks x).pid ≡ 100 → x ≡ 101
unfolding pm pm_start pm_request q_forall erase
named_parent x h same = elim (one_of x h) [
  | inl e ↦ e
  | inr e ↦ absurd (omega (arith, ap (λ y. (two_tasks.tasks y).pid) (sym e) ∙ same))
]

named_child : (x : Ptr) → 0 < count x two_tasks.task_q → (two_tasks.tasks x).pid ≡ 103 → x ≡ 104
unfolding pm pm_start pm_request q_forall erase
named_child x h same = elim (one_of x h) [
  | inl e ↦ absurd (omega (arith, ap (λ y. (two_tasks.tasks y).pid) (sym e) ∙ same))
  | inr e ↦ e
]

no_zombies : (x : Ptr) → 0 < count x two_tasks.zombie_q → (parent_of two_tasks x == 101) ≡ false
unfolding pm pm_start pm_request q_forall erase count
no_zombies x h = absurd (omega (arith, h))

abbrev exited : Pm ℕ
exited = (pm counting 103 (pm_request (mexit 9) blank) two_tasks).1

is_child_of : parent_of two_tasks 104 ≡ 101
unfolding pm pm_start pm_request q_forall erase
is_child_of = refl

pid_child : (two_tasks.tasks 104).pid ≡ 103
unfolding pm pm_start pm_request q_forall erase
pid_child = refl

no_spawn : pm_exit ≡ pm_spawn → places (spawned counting two_tasks) two_tasks ≡ 0
unfolding pm pm_start pm_request q_forall erase count
no_spawn e = refl

-- The task 103 ends before its parent waits.
Reach-Family_example : Family exited
unfolding pm_request
Reach-Family_example = Reach-Family counting exited (
    served 103 (pm_request (mexit 9) blank) two_tasks
      (served 100 (pm_request (spawntask 50 64 7) blank) alone
        (started 5 6 unwritten (λ x. null) 100) found_first new_item)
      (ap (λ x. x == null) found_child) no_spawn)

abbrev exited_first : Option (Pid × PmMsg) × Pm ℕ
exited_first = pm counting 103 (pm_request (mexit 9) blank) two_tasks

abbrev waits_first : Option (Pid × PmMsg) × Pm ℕ
waits_first = pm counting 100 (pm_request (waitpid 103) blank) two_tasks

pm-exit_then_wait_example :
    (exited_first.0 ≡ none)
    × ((pm counting 100 (pm_request (waitpid task_any) blank) exited_first.1).0
        ≡ some (100, record { cmd = pm_wait; w0 = 103; w1 = 9; w2 = 0 }))
unfolding pm pm_start pm_request q_forall erase
pm-exit_then_wait_example =
    pm-exit_then_wait counting 9 task_any blank blank two_tasks 104 101 two_tasks-Family found_child
      refl is_child_of refl in_queue.0 named_parent no_zombies refl

pm-wait_then_exit_example :
    (waits_first.0 ≡ none)
    × ((pm counting 103 (pm_request (mexit 9) blank) waits_first.1).0
        ≡ some (100, record { cmd = pm_exit; w0 = 103; w1 = 9; w2 = 0 }))
unfolding pm pm_start pm_request q_forall erase
pm-wait_then_exit_example =
    pm-wait_then_exit counting 9 103 blank blank two_tasks 104 101 two_tasks-Family found_parent
      refl is_child_of refl in_queue.1 named_child no_zombies refl
