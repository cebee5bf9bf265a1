-- ===== src/Servers/Ts/Delay.antt =====
-- How long servers/ts.c lets a task wait that asked for a delay.
use avros.Base.{
  ℕ, zero, suc, ◌+◌, ◌<◌, ◌≡◌, refl, arith, false, none, List, [], ◌∷◌, ◌++◌, ◌==◌, ltb,
  if◌then◌else◌, update, update-same, ==_refl, Bool-cases, inl, inr, ap, ap₂, ◌∙◌, count,
  count-append,
}
use avros.Kernel.State.{Pid}
use avros.Queue.{null}
use avros.Queue.Chain.{Once, Once-end}
use avros.Servers.Memory.{Memory}
use avros.Servers.Ts.{
  TsMsg, TsSrv, before_int, ts_do_tick, addtswait, ts_pass, ts_delay, delay_ticks, sizeof_tswait,
}
use avros.Servers.Ts.Tick.{
  spec_tick, pairs-append, pairs-update, pairs-update_client, waits, ts_do_tick-spec_tick,
}

-- The ticks that `p` still has to wait.
unfoldable pub left_of : Pid → List (Pid × ℕ) → List ℕ
left_of p [] = []
left_of p ((q, d) ∷ ws) = if q == p then d ∷ left_of p ws else left_of p ws

unfoldable later : List ℕ → List ℕ
later [] = []
later (d ∷ ds) = if before_int d == 0 then later ds else before_int d ∷ later ds

unfoldable now : List ℕ → ℕ
now [] = 0
now (d ∷ ds) = if before_int d == 0 then 1 + now ds else now ds

left_of-spec_tick :
    (p : Pid) (ws : List (Pid × ℕ)) → left_of p (spec_tick ws).1 ≡ later (left_of p ws)
unfolding left_of spec_tick later
left_of-spec_tick p [] = refl
left_of-spec_tick p ((q, d) ∷ ws) =
    let ih = left_of-spec_tick p ws in
    elim (Bool-cases (before_int d == 0)) [
      | inl e ↦ elim (Bool-cases (q == p)) [
        | inl m ↦ rw e (rw m (rw e ih))
        | inr n ↦ rw e (rw n ih)
      ]
      | inr e ↦ elim (Bool-cases (q == p)) [
        | inl m ↦ rw e (rw m (rw e (ap (λ l. before_int d ∷ l) ih)))
        | inr n ↦ rw e (rw n ih)
      ]
    ]

count-spec_tick : (p : Pid) (ws : List (Pid × ℕ)) → count p (spec_tick ws).0 ≡ now (left_of p ws)
unfolding left_of spec_tick now count
count-spec_tick p [] = refl
count-spec_tick p ((q, d) ∷ ws) =
    let ih = count-spec_tick p ws in
    elim (Bool-cases (before_int d == 0)) [
      | inl e ↦ elim (Bool-cases (q == p)) [
        | inl m ↦ rw e (rw m (rw e (ap (λ n. 1 + n) ih)))
        | inr n ↦ rw e (rw n (omega (arith, ih)))
      ]
      | inr e ↦ elim (Bool-cases (q == p)) [
        | inl m ↦ rw e (rw m (rw e ih))
        | inr n ↦ rw e (rw n ih)
      ]
    ]

-- `n` ticks, one after the other.
unfoldable spec_ticks : ℕ → List (Pid × ℕ) → List Pid
spec_ticks zero ws = []
spec_ticks (suc n) ws = let r = spec_tick ws in r.0 ++ spec_ticks n r.1

never_woken :
    (p : Pid) (n : ℕ) (ws : List (Pid × ℕ)) → left_of p ws ≡ [] → count p (spec_ticks n ws) ≡ 0
unfolding spec_ticks count later now
never_woken p zero ws h = refl
never_woken p (suc n) ws h =
    let r = spec_tick ws in
    omega (
      arith,
      count-append p r.0 (spec_ticks n r.1),
      count-spec_tick p ws ∙ ap now h,
      never_woken p n r.1 (left_of-spec_tick p ws ∙ ap later h),
    )

woken_once :
    (p : Pid) (d n : ℕ) (ws : List (Pid × ℕ))
    → 0 < d
    → d < 65536
    → left_of p ws ≡ d ∷ []
    → count p (spec_ticks n ws) ≡ (if ltb n d then 0 else 1)
unfolding spec_ticks count later now
woken_once p zero n ws lo hi h = absurd (omega arith)
woken_once p (suc d) zero ws lo hi h = ground arith
woken_once p (suc zero) (suc n) ws lo hi h =
    let r = spec_tick ws in
    let rest = never_woken p n r.1 (left_of-spec_tick p ws ∙ ap later h) in
    let here = count-spec_tick p ws ∙ ap now h in
    ground (arith, count-append p r.0 (spec_ticks n r.1), rest, here)
woken_once p (suc (suc d)) (suc n) ws lo hi h =
    let r = spec_tick ws in
    let less : before_int (suc (suc d)) ≡ suc d = omega arith in
    let more : (before_int (suc (suc d)) == 0) ≡ false = ground arith in
    let rest =
      woken_once p (suc d) n r.1 (omega arith) (omega arith)
        (left_of-spec_tick p ws ∙ ap later h ∙ rw (more, later) (ap (λ x. x ∷ []) less)) in
    let here : count p r.0 ≡ 0 = count-spec_tick p ws ∙ ap now h ∙ rw (more, now) refl in
    ground (arith, count-append p r.0 (spec_ticks n r.1), rest, here)

left_of-append :
    (p : Pid) (us vs : List (Pid × ℕ)) → left_of p (us ++ vs) ≡ left_of p us ++ left_of p vs
unfolding left_of
left_of-append p [] vs = refl
left_of-append p ((q, d) ∷ us) vs = elim (Bool-cases (q == p)) [
  | inl m ↦ rw m (ap (λ l. d ∷ l) (left_of-append p us vs))
  | inr n ↦ rw n (left_of-append p us vs)
]

module _ {H : Type 0} (memory : Memory H) where
  -- The tasks that the server wakes in its next `n` ticks.
  unfoldable pub woken_in : ℕ → TsSrv H → List Pid
  woken_in zero k = []
  woken_in (suc n) k = let r = ts_do_tick memory k in r.0 ++ woken_in n r.1

  woken_in-spec_ticks :
      (n : ℕ) (k : TsSrv H) → Once k.ts_wait_q → woken_in n k ≡ spec_ticks n (waits k)
  unfolding woken_in spec_ticks
  woken_in-spec_ticks zero k o = refl
  woken_in-spec_ticks (suc n) k o =
      let f = ts_do_tick-spec_tick memory k o in
      ap₂ (λ l m. l ++ m) f.0
        (woken_in-spec_ticks n (ts_do_tick memory k).1 f.2 ∙ ap (spec_ticks n) f.1)

  -- The new item at the end of the queue.
  abbrev asked : Pid → ℕ → TsSrv H → TsSrv H
  asked client d k =
      let (t, heap) = memory.take k.heap sizeof_tswait in
      record k {
        ts_wait_q = k.ts_wait_q ++ t ∷ [];
        clients = update k.clients t client;
        delays = update k.delays t d;
        heap = heap;
      }

  delay_asked :
      (client : Pid) (msg : TsMsg) (k : TsSrv H)
      → (delay_ticks msg == 0) ≡ false
      → ((memory.take k.heap sizeof_tswait).0 == null) ≡ false
      → ts_pass memory ts_delay client msg k ≡ ([], none, asked client (delay_ticks msg) k)
  unfolding ts_pass
  delay_asked client msg k z a = rw z (rw (a, addtswait) refl)

  waits-asked :
      (client : Pid) (d : ℕ) (k : TsSrv H)
      → count (memory.take k.heap sizeof_tswait).0 k.ts_wait_q ≡ 0
      → waits (asked client d k) ≡ waits k ++ (client, d) ∷ []
  waits-asked client d k f =
      let t = (memory.take k.heap sizeof_tswait).0 in
      let c = update k.clients t client in
      pairs-append c (update k.delays t d) k.ts_wait_q (t ∷ [])
      ∙ ap₂ (λ l m. l ++ m)
          (pairs-update c k.delays t d k.ts_wait_q f
            ∙ pairs-update_client k.clients k.delays t client k.ts_wait_q f)
          (ap₂ (λ p n. (p, n) ∷ []) (update-same k.clients t client) (update-same k.delays t d))

  -- A task that asks for a delay of `d` ticks, and does not wait already, is woken once, by the
  -- `d`-th of the ticks that follow: the first `n` ticks wake it if `n` is `d` or more, and not
  -- at all if `n` is less. The delay is a positive number of 16 bits, the heap has memory at a
  -- new address, and no item is in the queue twice.
  pub woken_in-ts_delay :
      (client : Pid) (msg : TsMsg) (n : ℕ) (k : TsSrv H)
      → Once k.ts_wait_q
      → left_of client (waits k) ≡ []
      → 0 < delay_ticks msg
      → delay_ticks msg < 65536
      → ((memory.take k.heap sizeof_tswait).0 == null) ≡ false
      → count (memory.take k.heap sizeof_tswait).0 k.ts_wait_q ≡ 0
      → count client (woken_in n (ts_pass memory ts_delay client msg k).2)
        ≡ (if ltb n (delay_ticks msg) then 0 else 1)
  unfolding left_of
  woken_in-ts_delay client msg n k o none_left lo hi a f =
      let d = delay_ticks msg in
      let e = delay_asked client msg k (ground arith) a in
      let once : Once (asked client d k).ts_wait_q = Once-end _ k.ts_wait_q o f in
      let alone : left_of client (waits (asked client d k)) ≡ d ∷ [] =
        ap (left_of client) (waits-asked client d k f)
        ∙ left_of-append client (waits k) ((client, d) ∷ [])
        ∙ ap₂ (λ l m. l ++ m) none_left (rw (==_refl client) refl) in
      ap (λ r. count client (woken_in n r.2)) e
      ∙ ap (count client) (woken_in-spec_ticks n (asked client d k) once)
      ∙ woken_once client d n (waits (asked client d k)) lo hi alone
