-- ===== src/Servers/Ts.antt =====
-- servers/ts.c: the time server. `Clock` is about its clocks, `Tick` and `Delay` about the tasks
-- that it makes wait. A `char` is its byte, an `int` its 16-bit word.
mod Clock
mod Tick
mod Delay
mod Tests
use avros.Base.{
  ℕ, ◌+◌, ◌*◌, ◌%◌, ◌/◌, Bool, true, false, not, Option, none, some, List, [], ◌∷◌, ◌++◌, ◌==◌,
  if◌then◌else◌, update, erase,
}
use avros.Kernel.State.{Pid}
use avros.Kernel.Calls.{q_forall}
use avros.Queue.{Ptr, null}
use avros.Servers.Memory.{Memory}

abbrev sizeof_tswait : ℕ
sizeof_tswait = 8

pub data TsCmd : Type 0 where
  ts_none ts_delay ts_tick ts_get_uptime ts_get_globtime ts_set_globtime ts_exit : TsCmd

-- `time_t`
pub record Time : Type 0 where
  pub sec : ℕ
  pub min : ℕ
  pub hour : ℕ

abbrev pub zero_time : Time
zero_time = record { sec = 0; min = 0; hour = 0 }

-- `tsmsg_t`: the union of a time and a number of ticks, low byte first.
pub record TsMsg : Type 0 where
  pub cmd : TsCmd
  pub body : Time

unfoldable pub delay_ticks : TsMsg → ℕ
delay_ticks m = m.body.sec + 256 * m.body.min

-- The locals of `ts`, and the fields of the `tswait_t` items.
pub record TsSrv (H : Type 0) : Type 0 where
  pub ts_wait_q : List Ptr
  pub clients : Ptr → Pid
  pub delays : Ptr → ℕ
  pub uptime : Time
  pub globtime : Time
  pub ticks : ℕ
  pub heap : H

-- The next value of a `char`, and the value before of an `int`.
abbrev pub next_char : ℕ → ℕ
next_char n = (n + 1) % 256

abbrev pub before_int : ℕ → ℕ
before_int n = (n + 65535) % 65536

unfoldable pub step_timer : Time → Time
step_timer t =
    if not (next_char t.sec == 60)
    then record t { sec = next_char t.sec }
    else if not (next_char t.min == 60)
    then record t { sec = 0; min = next_char t.min }
    else if not (next_char t.hour == 24)
    then record t { sec = 0; min = 0; hour = next_char t.hour }
    else record { sec = 0; min = 0; hour = 0 }

-- What `ts` sets up before its loop, on the heap that it finds.
abbrev pub ts_start : {H : Type 0} → H → TsSrv H
ts_start heap = record {
  ts_wait_q = [];
  clients = λ _. 0;
  delays = λ _. 0;
  uptime = zero_time;
  globtime = zero_time;
  ticks = 0;
  heap = heap;
}

-- The first half of TS_TICK.
unfoldable pub ts_clock : {H : Type 0} → TsSrv H → TsSrv H
unfolding step_timer
ts_clock k =
    if next_char k.ticks == 30
    then record k { ticks = 0; uptime = step_timer k.uptime; globtime = step_timer k.globtime }
    else record k { ticks = next_char k.ticks }

module _ {H : Type 0} (memory : Memory H) where
  unfoldable pub addtswait : Pid → ℕ → TsSrv H → Ptr × TsSrv H
  addtswait client delay k =
      let (t, heap) = memory.take k.heap sizeof_tswait in
      if t == null then (null, record k { heap = heap }) else (
        t,
        record k {
          ts_wait_q = k.ts_wait_q ++ t ∷ [];
          clients = update k.clients t client;
          delays = update k.delays t delay;
          heap = heap;
        },
      )

  -- The callback on the waiting items, with the tasks that it has sent a message to so far. It
  -- always returns NULL.
  unfoldable pub ts_managedelay : Ptr → List Pid × TsSrv H → Bool × (List Pid × TsSrv H)
  ts_managedelay w (sent, k) =
      let k' = record k { delays = update k.delays w (before_int (k.delays w)) } in
      (
        false,
        if before_int (k.delays w) == 0
            then (
              sent ++ k.clients w ∷ [],
              record k' { ts_wait_q = erase w k.ts_wait_q; heap = memory.give k.heap w },
            )
            else (sent, k'),
      )

  -- TS_TICK: the clocks, then the waiting tasks.
  unfoldable pub ts_do_tick : TsSrv H → List Pid × TsSrv H
  unfolding ts_clock ts_managedelay
  ts_do_tick k = let k1 = ts_clock k in (q_forall ts_managedelay k1.ts_wait_q ([], k1)).1

  -- A pass of the loop of `ts` after `receive`: the tasks that were woken, the answer to the
  -- client if there is one, and the server.
  unfoldable pub ts_pass : TsCmd → Pid → TsMsg → TsSrv H → List Pid × Option (Pid × TsMsg) × TsSrv H
  unfolding delay_ticks addtswait ts_do_tick
  ts_pass ts_delay client msg k =
      if delay_ticks msg == 0
      then ([], some (client, msg), k)
      else ([], none, (addtswait client (delay_ticks msg) k).1)
  ts_pass ts_tick client msg k = let (woken, k1) = ts_do_tick k in (woken, some (client, msg), k1)
  ts_pass ts_get_uptime client msg k = ([], some (client, record msg { body = k.uptime }), k)
  ts_pass ts_set_globtime client msg k = ([], some (client, msg), record k { globtime = msg.body })
  ts_pass ts_get_globtime client msg k = ([], some (client, record msg { body = k.globtime }), k)
  ts_pass ts_none client msg k = ([], some (client, msg), k)
  ts_pass ts_exit client msg k = ([], some (client, msg), k)

  unfoldable pub ts : Pid → TsMsg → TsSrv H → List Pid × Option (Pid × TsMsg) × TsSrv H
  unfolding ts_pass
  ts client msg k = ts_pass msg.cmd client msg k

-- The calls of the clients, over what the message held before.
pub data TsCall : Type 0 where
  delay : (ticks : ℕ) → TsCall
  getuptime gettime : TsCall
  settime : (time : Time) → TsCall

unfoldable pub ts_request : TsCall → TsMsg → TsMsg
ts_request (delay n) m = record {
  cmd = ts_delay;
  body = record m.body { sec = n % 256; min = n / 256 % 256 };
}
ts_request getuptime m = record m { cmd = ts_get_uptime }
ts_request gettime m = record m { cmd = ts_get_globtime }
ts_request (settime t) m = record { cmd = ts_set_globtime; body = t }
