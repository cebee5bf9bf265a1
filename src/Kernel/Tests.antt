-- ===== src/Kernel/Tests.antt =====
-- Two tasks over the kernel: the first states and runs, and the theorems at them.
use avros.Base.{
  ℕ, ◌+◌, ◌≡◌, refl, [], ◌∷◌, some, arith, ◌==◌, if◌then◌else◌, false, count, update, erase,
  find_first,
}
use avros.Kernel.State.{other, Context, Task, Kernel, Platform, sendrec, receive}
use avros.Kernel.Calls.{meets, scheduler}
use avros.Kernel.Loop.{
  calls, c_sendrec, c_receive, load_call, reenter, dispatch, call_sendrec, call_receive,
}
use avros.Kernel.Places.{places, ready_total}
use avros.Kernel.Conserve.{Running, dispatch-places}
use avros.Kernel.Schedule.{Picked, scheduler-Picked}
use avros.Kernel.Messages.{Requested, Accepted, call_sendrec-Requested, call_receive-Accepted}
use avros.Kernel.Reach.{Inv, Allowed, Pass, pass, start, later, Reach-Inv}

-- An allocator that hands out ever higher addresses.
abbrev bump : Platform ℕ
bump = record {
  malloc = λ h n. (h + 1, h + 1 + n);
  free = λ h p. h;
  leftover = λ h sp. record { code = other 0; p0 = 0; p1 = 0; p2 = 0; p3 = 0; ret = 0 };
  exittask_at = 0x1234;
}

abbrev resting : Context
resting = record { code = other 0; p0 = 0; p1 = 0; p2 = 0; p3 = 0; ret = 0 }

abbrev task_at : ℕ → Task
task_at p = record { sp = 0; sb = 0; prio = p; irqdis = false; page = 0; ctxt = resting }

-- Task 7 is ready at the default priority, task 8 is blocked in a receive from any task, and
-- the idle task 9 is ready.
abbrev listening : Context
listening = record { code = receive; p0 = 0xffff; p1 = 100; p2 = 2; p3 = 0; ret = 0 }

abbrev boot : Kernel ℕ
boot = record {
  tasks = λ t.
      if t == 7
      then task_at 2
      else if t == 8
      then record (task_at 1) { ctxt = listening }
      else task_at 4;
  ready = λ p. if p == 2 then 7 ∷ [] else if p == 4 then 9 ∷ [] else [];
  current = [];
  blocked = 8 ∷ [];
  eventcode = 0;
  mem = λ a. a;
  heap = 1000;
}

boot-Inv : Inv boot
unfolding places ready_total count meets
boot-Inv = record { once = λ t. ground arith; prios = λ t h. ground arith; unnamed = refl }

-- Task 7 is picked and asks task 8 for an answer.
abbrev picked : Kernel ℕ
picked = record boot { ready = update boot.ready 2 []; current = 7 ∷ [] }

abbrev asking : Kernel ℕ
asking = record picked {
  tasks = update boot.tasks 7 (record (task_at 2) { ctxt = load_call (c_sendrec 8 50 2) resting });
  eventcode = 0;
}

picked_lem : scheduler boot ≡ picked
unfolding scheduler erase
picked_lem = refl

asking-Running : Running 7 asking
unfolding places ready_total count load_call
asking-Running = record { here = omega arith; prios = λ t h. ground arith }

asking-Allowed : Allowed bump 7 asking
unfolding load_call
asking-Allowed = record { permits = tt; fresh = λ c. cc; not_any = λ c. cc; in_table = λ c. cc }

abbrev answered : Kernel ℕ
answered = dispatch bump sendrec 7 asking

asking_step : reenter bump asking ≡ some answered
unfolding reenter load_call
asking_step = refl

first-Pass : Pass bump boot answered
unfolding scheduler erase
first-Pass =
    pass 7 [] asking refl (calls resting (c_sendrec 8 50 2) boot.mem) (λ z. asking-Allowed)
      asking_step

Reach-Inv_example : Inv answered
Reach-Inv_example = Reach-Inv bump (later start first-Pass) boot-Inv

dispatch-places_example : places 8 (dispatch bump sendrec 7 asking) + 0 ≡ places 8 asking + 0
dispatch-places_example = dispatch-places bump sendrec 8 7 asking asking-Running tt

scheduler-Picked_example : Picked 0 boot (scheduler boot)
scheduler-Picked_example = scheduler-Picked boot 4 refl (omega arith) (omega arith)

call_sendrec-Requested_example : Requested 7 8 asking (call_sendrec 7 asking)
unfolding meets find_first load_call
call_sendrec-Requested_example = call_sendrec-Requested 7 8 asking refl

-- Task 8 waits in a request to task 7, which receives.
abbrev taking : Kernel ℕ
taking = record picked {
  tasks = λ t.
      if t == 7
      then record (task_at 2) { ctxt = load_call (c_receive 0xffff 200 2) resting }
      else if t == 8
      then record (task_at 1) { ctxt = load_call (c_sendrec 7 50 2) resting }
      else task_at 4;
}

call_receive-Accepted_example : Accepted 7 8 taking (call_receive 7 taking)
unfolding meets find_first load_call
call_receive-Accepted_example = call_receive-Accepted 7 8 taking refl
