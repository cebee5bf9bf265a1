-- ===== src/Servers/Ts/Tests.antt =====
-- A server with a waiting task, and the theorems at it.
use avros.Base.{ℕ, ◌+◌, ◌≡◌, refl, [], ◌∷◌, arith, ◌==◌, if◌then◌else◌, count}
use avros.Queue.Chain.{Once}
use avros.Servers.Memory.{Memory}
use avros.Servers.Ts.{
  Time, zero_time, TsMsg, TsSrv, ts_start, ts_delay, ts_tick, ts_do_tick, ts_pass, ts, delay_ticks,
}
use avros.Servers.Ts.Clock.{Run, start, pass, Shows, Run-Shows}
use avros.Servers.Ts.Tick.{spec_tick, waits, ts_do_tick-spec_tick}
use avros.Servers.Ts.Delay.{left_of, woken_in, woken_in-ts_delay}

abbrev rising : Memory ℕ
rising = record { take = λ h n. (h + 1, h + 1 + n); give = λ h p. h }

abbrev last_second : Time
last_second = record { sec = 59; min = 59; hour = 23 }

abbrev tick_msg : TsMsg
tick_msg = record { cmd = ts_tick; body = zero_time }

one_tick : Run rising (ts_start 1000) 1 (ts rising 5 tick_msg (ts_start 1000)).2
one_tick = pass 5 tick_msg start

Run-Shows_example : Shows rising (ts rising 5 tick_msg (ts_start 1000)).2 1
Run-Shows_example = Run-Shows rising one_tick

-- Task 70 has one tick left, task 80 has two.
abbrev two_wait : TsSrv ℕ
two_wait = record (ts_start 1000) {
  ts_wait_q = 7 ∷ 8 ∷ [];
  clients = λ w. if w == 7 then 70 else 80;
  delays = λ w. if w == 7 then 1 else 2;
}

two_wait-Once : Once two_wait.ts_wait_q
unfolding count
two_wait-Once t = ground arith

ts_do_tick-spec_tick_example :
    ((ts_do_tick rising two_wait).0 ≡ 70 ∷ [])
    × (waits (ts_do_tick rising two_wait).1 ≡ (80, 1) ∷ [])
    × Once (ts_do_tick rising two_wait).1.ts_wait_q
unfolding spec_tick
ts_do_tick-spec_tick_example = ts_do_tick-spec_tick rising two_wait two_wait-Once

abbrev three_ticks : TsMsg
three_ticks = record { cmd = ts_delay; body = record { sec = 3; min = 0; hour = 0 } }

woken_in-ts_delay_example :
    count 90 (woken_in rising 3 (ts_pass rising ts_delay 90 three_ticks two_wait).2) ≡ 1
unfolding left_of delay_ticks count
woken_in-ts_delay_example =
    woken_in-ts_delay rising 90 three_ticks 3 two_wait two_wait-Once refl (omega arith)
      (omega arith) refl refl
