-- ===== src/Servers/Ts/Clock.antt =====
-- The clocks of servers/ts.c: thirty ticks are a second.
use avros.Base.{
  if_elim, ℕ, ◌+◌, ◌*◌, ◌%◌, ◌<◌, ◌≡◌, refl, arith, true, false, Option, List, [], ◌∷◌, ◌==◌,
  Bool-cases, inl, inr, sym, ◌∙◌, subst,
}
use avros.Kernel.State.{Pid}
use avros.Kernel.Calls.{q_forall}
use avros.Queue.{Ptr}
use avros.Servers.Memory.{Memory}
use avros.Servers.Ts.{
  Time, TsMsg, TsCmd, TsSrv, ts_tick, ts_delay, ts_none, ts_exit, ts_get_uptime, ts_get_globtime,
  ts_set_globtime, step_timer, next_char, ts_clock, ts_managedelay, ts_do_tick, ts_pass, ts,
  addtswait, delay_ticks, ts_start,
}

-- The time of a day.
pub record IsTime (t : Time) : Type 0 where
  pub sec : t.sec < 60
  pub min : t.min < 60
  pub hour : t.hour < 24

abbrev pub seconds : Time → ℕ
seconds t = t.sec + 60 * t.min + 3600 * t.hour

-- A step goes on to the next second of the day, and from the last one to midnight.
pub step_timer-seconds :
    (t : Time)
    → IsTime t
    → IsTime (step_timer t) × (seconds (step_timer t) ≡ (seconds t + 1) % 86400)
unfolding step_timer
step_timer-seconds t h =
    (record { sec = ground arith; min = ground arith; hour = ground arith }, ground arith)

abbrev pub ticked : TsCmd → ℕ
ticked ts_tick = 1
ticked _ = 0

module _ {H : Type 0} (memory : Memory H) where
  -- The walk over the waiting tasks leaves the clocks alone.
  forall_clock :
      (xs : List Ptr) (sent : List Pid) (k : TsSrv H)
      → ((q_forall (ts_managedelay memory) xs (sent, k)).1.1.uptime ≡ k.uptime)
        × ((q_forall (ts_managedelay memory) xs (sent, k)).1.1.ticks ≡ k.ticks)
  unfolding q_forall ts_managedelay
  forall_clock [] sent k = (refl, refl)
  forall_clock (x ∷ xs) sent k =
      let f =
        forall_clock xs ((ts_managedelay memory x (sent, k)).1.0)
          ((ts_managedelay memory x (sent, k)).1.1) in
      let s = step x sent k in (f.0 ∙ s.0, f.1 ∙ s.1)
    where
      step :
          (x : Ptr) (sent : List Pid) (k : TsSrv H)
          → ((ts_managedelay memory x (sent, k)).1.1.uptime ≡ k.uptime)
            × ((ts_managedelay memory x (sent, k)).1.1.ticks ≡ k.ticks)
      step x sent k = (ground arith, ground arith)

  -- The clock shows the number of ticks that were counted, from the start of the day.
  pub record Shows (k : TsSrv H) (n : ℕ) : Type 0 where
    pub time : IsTime k.uptime
    pub below : k.ticks < 30
    pub shown : 30 * seconds k.uptime + k.ticks ≡ n % 2592000

  clock_full :
      (k : TsSrv H)
      → (next_char k.ticks == 30) ≡ true
      → ts_clock k
        ≡ record k { ticks = 0; uptime = step_timer k.uptime; globtime = step_timer k.globtime }
  unfolding ts_clock step_timer
  clock_full k e = rw e refl

  clock_next :
      (k : TsSrv H)
      → (next_char k.ticks == 30) ≡ false
      → ts_clock k ≡ record k { ticks = next_char k.ticks }
  unfolding ts_clock
  clock_next k e = rw e refl

  clock-Shows : (k : TsSrv H) (n : ℕ) → Shows k n → Shows (ts_clock k) (n + 1)
  clock-Shows k n s = elim (Bool-cases (next_char k.ticks == 30)) [
    | inl e ↦
        let f = step_timer-seconds k.uptime s.time in
        subst (λ j. Shows j (n + 1)) (sym (clock_full k e))
          (record { time = f.0; below = omega arith; shown = ground (arith, f.1, s.shown) })
    | inr e ↦
        subst (λ j. Shows j (n + 1)) (sym (clock_next k e))
          (record {
            time = s.time;
            below = ground (arith, s.below);
            shown = ground (arith, s.shown, s.below, full s.time);
          })
  ]
    where
      full : {t : Time} → IsTime t → seconds t < 86400
      full h = omega arith

  Shows-same :
      (k j : TsSrv H) (n : ℕ) → j.uptime ≡ k.uptime → j.ticks ≡ k.ticks → Shows k n → Shows j n
  Shows-same k j n e f s = record {
    time = subst IsTime (sym e) s.time;
    below = omega (arith, f, s.below);
    shown = subst (λ t. 30 * seconds t + j.ticks ≡ n % 2592000) (sym e) (omega (arith, f, s.shown));
  }

  addtswait_clock :
      (client : Pid) (d : ℕ) (k : TsSrv H)
      → ((addtswait memory client d k).1.uptime ≡ k.uptime)
        × ((addtswait memory client d k).1.ticks ≡ k.ticks)
  unfolding addtswait
  addtswait_clock client d k = (ground arith, ground arith)

  pass-Shows :
      (cmd : TsCmd) (client : Pid) (msg : TsMsg) (k : TsSrv H) (n : ℕ)
      → Shows k n
      → Shows (ts_pass memory cmd client msg k).2 (n + ticked cmd)
  unfolding ts_pass ts_do_tick
  pass-Shows ts_tick client msg k n s =
      let f = forall_clock (ts_clock k).ts_wait_q [] (ts_clock k) in
      Shows-same (ts_clock k) _ (n + 1) f.0 f.1 (clock-Shows k n s)
  pass-Shows ts_delay client msg k n s =
      if_elim (λ (r : List Pid × Option (Pid × TsMsg) × TsSrv H). Shows r.2 (n + 0))
        (delay_ticks msg == 0) _ _ (λ _. subst (Shows k) (omega arith) s)
        (λ _.
          let f = addtswait_clock client (delay_ticks msg) k in
          Shows-same k _ (n + 0) f.0 f.1 (subst (Shows k) (omega arith) s))
  pass-Shows ts_get_uptime client msg k n s = subst (Shows k) (omega arith) s
  pass-Shows ts_get_globtime client msg k n s = subst (Shows k) (omega arith) s
  pass-Shows ts_set_globtime client msg k n s =
      Shows-same k _ (n + 0) refl refl (subst (Shows k) (omega arith) s)
  pass-Shows ts_none client msg k n s = subst (Shows k) (omega arith) s
  pass-Shows ts_exit client msg k n s = subst (Shows k) (omega arith) s

  -- The passes of the server, `n` of them ticks.
  pub data Run (k : TsSrv H) : ℕ → TsSrv H → Type 0 where
    start : Run k 0 k
    pass :
        {n : ℕ} {j : TsSrv H} (client : Pid) (msg : TsMsg)
        → Run k n j
        → Run k (n + ticked msg.cmd) (ts memory client msg j).2

  -- Whatever requests come between, after `n` ticks since it started the server's uptime is the
  -- time of day that is `n` thirtieths of a second from midnight.
  pub Run-Shows : {heap : H} {k : TsSrv H} {n : ℕ} → Run (ts_start heap) n k → Shows k n
  unfolding ts
  Run-Shows start = record {
    time = record { sec = omega arith; min = omega arith; hour = omega arith };
    below = omega arith;
    shown = omega arith;
  }
  Run-Shows (pass {n} {j} client msg r) = pass-Shows msg.cmd client msg j n (Run-Shows r)
