-- ===== src/Servers/Sema/Tests.antt =====
-- Two semaphores, and the theorems at them.
use avros.Base.{
  ℕ, ◌+◌, ◌≤◌, ◌≡◌, ◌⊎◌, refl, [], ◌∷◌, arith, ◌==◌, if◌then◌else◌, false, count, none,
}
use avros.Kernel.State.{Pid}
use avros.Queue.{Ptr}
use avros.Servers.Memory.{Memory}
use avros.Servers.Sema.{
  SemaMsg, SemaSrv, sema_wait, sema_signal, semasrv, semasrv_pass, sema_request, deletesema,
  value_of, queue_of,
}
use avros.Servers.Sema.Spec.{
  view, Meets, spec_wait, spec_signal, semasrv-spec_wait, semasrv-spec_signal,
}
use avros.Servers.Sema.Balance.{Kept}
use avros.Servers.Sema.Passes.{Usable}
use mathlib.Core.Option
use avros.Servers.Sema.Calls.{semasrv-is_held, is_held}
use avros.Servers.Sema.Run.{Run, start, pass, Run-admits}

-- A heap that hands out ever higher addresses.
abbrev rising : Memory ℕ
rising = record { take = λ h n. (h + 1, h + 1 + n); give = λ h p. h }

-- The semaphore at 50 is free; at 60 the task 70 waits, by the item at 7.
abbrev two_semas : SemaSrv ℕ
two_semas = record {
  sema_q = 50 ∷ 60 ∷ [];
  semas = λ s.
      if s == 50
      then record { value = 1; client_q = [] }
      else if s == 60
      then record { value = 0; client_q = 7 ∷ [] }
      else record { value = 0; client_q = [] };
  pids = λ c. if c == 7 then 70 else 0;
  heap = 1000;
}

two_semas-Kept : Kept two_semas
unfolding Kept count
two_semas-Kept t n = record { named = λ c i. ground arith; idle = ground arith }

abbrev waiting_for : Ptr → SemaMsg
waiting_for s = record { sema = s; cmd = sema_wait; val = 0 }

abbrev signal_of : Ptr → SemaMsg
signal_of s = record { sema = s; cmd = sema_signal; val = 0 }

semasrv-spec_wait_example :
    Meets rising 60
      (spec_wait 80 (view two_semas 60))
      (waiting_for 60)
      two_semas
      (semasrv_pass rising sema_wait 80 (waiting_for 60) two_semas)
unfolding count
semasrv-spec_wait_example =
    semasrv-spec_wait rising 80 (waiting_for 60) two_semas refl refl refl λ s. ground arith

semasrv-spec_signal_example :
    Meets rising 60
      (spec_signal (view two_semas 60))
      (signal_of 60)
      two_semas
      (semasrv_pass rising sema_signal 80 (signal_of 60) two_semas)
unfolding Kept
semasrv-spec_signal_example =
    semasrv-spec_signal rising 80 (signal_of 60) two_semas refl (two_semas-Kept 60 refl).named

two_semas-Usable :
    (client : Pid) (msg : SemaMsg) → (client == 0) ≡ false → Usable rising client msg two_semas
unfolding count
two_semas-Usable client msg h = record { pid = h; fresh = λ s. ground arith }

-- A task enters by 50.
one_wait : Run rising 50 two_semas 0 1 (semasrv rising 80 (waiting_for 50) two_semas).1
unfolding semasrv count
one_wait =
    pass 80 (waiting_for 50) start (two_semas-Usable 80 (waiting_for 50) refl) tt
      (record { live = λ c x n. omega arith; held = λ c e. cc })

Run-admits_example :
    (value_of (semasrv rising 80 (waiting_for 50) two_semas).1 50 + 1 ≡ 1 + 0)
    × (1 ≤ 1 + 0)
    × ((value_of (semasrv rising 80 (waiting_for 50) two_semas).1 50 ≡ 0)
        ⊎ (queue_of (semasrv rising 80 (waiting_for 50) two_semas).1 50 ≡ []))
Run-admits_example = Run-admits rising one_wait two_semas-Kept refl (omega arith)

-- A deletion of the semaphore for which a task waits is not answered.
semasrv-is_held_example :
    Option.map
      (λ (r : Pid × SemaMsg). r.0)
      (semasrv rising 80 (sema_request (deletesema 60) (waiting_for 0)) two_semas).0
    ≡ none
unfolding is_held
semasrv-is_held_example =
    semasrv-is_held rising (deletesema 60) 80 (waiting_for 0) two_semas two_semas-Kept refl
