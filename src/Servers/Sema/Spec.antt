-- ===== src/Servers/Sema/Spec.antt =====
-- What a semaphore promises: a count, and the tasks that wait for it in the order in which they
-- came.
use avros.Base.{
  update-same, update-other, erase-head, ℕ, ◌+◌, ◌-◌, ◌<◌, ◌≡◌, refl, arith, ◌∙◌, sym, ap, ap₂,
  subst, inl, inr, Bool-cases, ==_refl, true, false, not, Option, none, some, List, [], ◌∷◌, ◌++◌,
  ◌==◌, if◌then◌else◌, update, erase, count, List-cases,
}
use mathlib.Core.Option
use mathlib.Core.List.{map, map-append}
use avros.Kernel.State.{Pid, u16}
use avros.Queue.{Ptr, null}
use avros.Queue.Chain.{counted_mid, not_counted, ne_sym}
use avros.Servers.Memory.{Memory}
use avros.Servers.Sema.{
  sizeof_client, SemaMsg, sema_wait, sema_signal, SemaSrv, Sema, q_first, value_of, queue_of,
  set_value, set_queue, semasrv_pass, waiter, first_client, removeclient, increasesema,
}

pub record Counting : Type 0 where
  pub count : ℕ
  pub waiting : List Pid

-- The task that enters, and the semaphore.
unfoldable pub spec_wait : Pid → Counting → Option Pid × Counting
spec_wait pid c =
    if c.count == 0
    then (none, record c { waiting = c.waiting ++ pid ∷ [] })
    else (some pid, record c { count = c.count - 1 })

unfoldable pub spec_signal : Counting → Option Pid × Counting
spec_signal c = elim c.waiting [
  | [] ↦ (none, record { count = u16 (c.count + 1); waiting = [] })
  | w ∷ ws ↦ (some w, record { count = c.count; waiting = ws })
]

abbrev pub shown : (Ptr → Pid) → Sema → Counting
shown pids v = record { count = v.value; waiting = map pids v.client_q }

module _ {H : Type 0} where
  abbrev pub view : SemaSrv H → Ptr → Counting
  view k s = shown k.pids (k.semas s)

  -- The item that `kmalloc` would return is in no queue of waiting clients.
  abbrev pub IsFresh : Ptr → SemaSrv H → Type 0
  IsFresh cli k = (s : Ptr) → count cli (queue_of k s) ≡ 0

  -- The items that wait for `s` have an address and a pid.
  abbrev pub IsNamed : SemaSrv H → Ptr → Type 0
  IsNamed k s =
      (c : Ptr) → 0 < count c (queue_of k s) → ((c == null) ≡ false) × ((k.pids c == 0) ≡ false)

  first_client-nil : (s : Ptr) (k : SemaSrv H) → queue_of k s ≡ [] → first_client s k ≡ null
  unfolding first_client
  first_client-nil s k e = ap (λ q. if s == null then null else q_first q) e ∙ ground arith

  first_client-cons :
      (s c : Ptr) (cs : List Ptr) (k : SemaSrv H)
      → (s == null) ≡ false
      → queue_of k s ≡ c ∷ cs
      → first_client s k ≡ c
  unfolding first_client
  first_client-cons s c cs k n e = ap (λ q. if s == null then null else q_first q) e ∙ rw n refl

  pub waiter-nil : (s : Ptr) (k : SemaSrv H) → queue_of k s ≡ [] → waiter s k ≡ 0
  unfolding waiter
  waiter-nil s k e = ap (λ c. if c == null then 0 else k.pids c) (first_client-nil s k e)

  pub waiter-cons :
      (s c : Ptr) (cs : List Ptr) (k : SemaSrv H)
      → (s == null) ≡ false
      → (c == null) ≡ false
      → queue_of k s ≡ c ∷ cs
      → waiter s k ≡ k.pids c
  unfolding waiter
  waiter-cons s c cs k n o e =
      ap (λ c. if c == null then 0 else k.pids c) (first_client-cons s c cs k n e) ∙ rw o refl

  module _ (memory : Memory H) where
    -- The queue of `s` has a new item for `pid` at its end.
    abbrev pub queued : Ptr → Pid → SemaSrv H → SemaSrv H
    queued s pid k =
        let (cli, heap) = memory.take k.heap sizeof_client in
        set_queue s (queue_of k s ++ cli ∷ [])
          (record k { heap = heap; pids = update k.pids cli pid })

    -- The queue of `s` has lost its first item `c`.
    abbrev pub unqueued : Ptr → Ptr → List Ptr → SemaSrv H → SemaSrv H
    unqueued s c cs k = set_queue s cs (record k { heap = memory.give k.heap c })

    removeclient-cons :
        (s c : Ptr) (cs : List Ptr) (k : SemaSrv H)
        → (s == null) ≡ false
        → (c == null) ≡ false
        → (k.pids c == 0) ≡ false
        → queue_of k s ≡ c ∷ cs
        → removeclient memory s (k.pids c) k ≡ (c, unqueued s c cs k)
    unfolding removeclient
    removeclient-cons s c cs k n o p e =
        ap
          (λ i.
            if k.pids c == 0
            then (null, k)
            else if i == null
            then (null, k)
            else if not (k.pids i == k.pids c)
            then (null, k)
            else (
              i,
              set_queue s (erase i (queue_of k s)) (record k { heap = memory.give k.heap i }),
            ))
          (first_client-cons s c cs k n e)
        ∙ rw (p, o, ==_refl (k.pids c))
            (ap (λ q. (c, set_queue s q (record k { heap = memory.give k.heap c })))
              (ap (erase c) e ∙ erase-head c cs))

    pub wait_enters :
        (client : Pid) (msg : SemaMsg) (k : SemaSrv H)
        → (msg.sema == null) ≡ false
        → (value_of k msg.sema == 0) ≡ false
        → semasrv_pass memory sema_wait client msg k
          ≡ (some (client, msg), set_value msg.sema (value_of k msg.sema - 1) k)
    unfolding semasrv_pass
    wait_enters client msg k n v = rw (n, v) refl

    pub wait_blocks :
        (client : Pid) (msg : SemaMsg) (k : SemaSrv H)
        → (msg.sema == null) ≡ false
        → (client == 0) ≡ false
        → ((memory.take k.heap sizeof_client).0 == null) ≡ false
        → (value_of k msg.sema == 0) ≡ true
        → semasrv_pass memory sema_wait client msg k ≡ (none, queued msg.sema client k)
    unfolding semasrv_pass
    wait_blocks client msg k n c a v = rw (n, v, c, a) refl

    pub signal_counts :
        (client : Pid) (msg : SemaMsg) (k : SemaSrv H)
        → (msg.sema == null) ≡ false
        → queue_of k msg.sema ≡ []
        → semasrv_pass memory sema_signal client msg k
          ≡ (none, set_value msg.sema (u16 (value_of k msg.sema + 1)) k)
    unfolding semasrv_pass increasesema
    signal_counts client msg k n e = rw (waiter-nil msg.sema k e) (rw n refl)

    pub signal_wakes :
        (client : Pid) (msg : SemaMsg) (c : Ptr) (cs : List Ptr) (k : SemaSrv H)
        → (msg.sema == null) ≡ false
        → (c == null) ≡ false
        → (k.pids c == 0) ≡ false
        → queue_of k msg.sema ≡ c ∷ cs
        → semasrv_pass memory sema_signal client msg k
          ≡ (some (k.pids c, msg), unqueued msg.sema c cs k)
    unfolding semasrv_pass
    signal_wakes client msg c cs k n o p e =
        ap
          (λ w.
            if w == 0
            then (none, increasesema msg.sema k)
            else (some (w, msg), (removeclient memory msg.sema w k).1))
          (waiter-cons msg.sema c cs k n o e)
        ∙ ap
            (λ b.
              if b
              then (none, increasesema msg.sema k)
              else (some (k.pids c, msg), (removeclient memory msg.sema (k.pids c) k).1))
            p
        ∙ ap (λ (r : Ptr × SemaSrv H). (some (k.pids c, msg), r.1))
            (removeclient-cons msg.sema c cs k n o p e)

    abbrev pub Meets :
        Ptr
        → Option Pid × Counting
        → SemaMsg
        → SemaSrv H
        → Option (Pid × SemaMsg) × SemaSrv H
        → Type 0
    Meets s spec msg k r =
        (r.0 ≡ Option.map (λ p. (p, msg)) spec.0)
        × (view r.1 s ≡ spec.1)
        × ((t : Ptr) → (s == t) ≡ false → view r.1 t ≡ view k t)

    map-update :
        (cli p : ℕ) (f : ℕ → ℕ) (q : List Ptr) → count cli q ≡ 0 → map (update f cli p) q ≡ map f q
    map-update cli p f [] h = refl
    map-update cli p f (x ∷ xs) h =
        let n = not_counted cli x xs h in
        ap₂ (λ y ys. y ∷ ys) (rw (ne_sym x cli n.0)) (map-update cli p f xs n.1)

    queued-view :
        (s : Ptr) (pid : Pid) (k : SemaSrv H)
        → IsFresh (memory.take k.heap sizeof_client).0 k
        → view (queued s pid k) s ≡ record (view k s) { waiting = (view k s).waiting ++ pid ∷ [] }
    queued-view s pid k h =
        let cli = (memory.take k.heap sizeof_client).0 in
        let names = update k.pids cli pid in
        ap (shown names) (
          update-same k.semas s
            (record { value = value_of k s; client_q = queue_of k s ++ cli ∷ [] }))
        ∙ (ap (λ (ws : List Pid). record { count = value_of k s; waiting = ws })
            (map-append _ (queue_of k s) (cli ∷ [])
              ∙ ap₂ (λ y ys. y ++ ys) (map-update cli pid k.pids (queue_of k s) (h s))
                  (rw (==_refl cli) refl)))

    queued-others :
        (s : Ptr) (pid : Pid) (t : Ptr) (k : SemaSrv H)
        → IsFresh (memory.take k.heap sizeof_client).0 k
        → (s == t) ≡ false
        → view (queued s pid k) t ≡ view k t
    queued-others s pid t k h o =
        ap (shown (update k.pids (memory.take k.heap sizeof_client).0 pid))
          (update-other k.semas s t _ o)
        ∙ (ap (λ (ws : List Pid). record { count = value_of k t; waiting = ws })
            (map-update (memory.take k.heap sizeof_client).0 pid k.pids (queue_of k t) (h t)))

    -- A task that waits enters at once if the count is not zero, and joins the end of the queue
    -- otherwise: the server does to the semaphore of the message what the specification says,
    -- and nothing to the others. The semaphore and the client are not null, and the heap has
    -- memory at a new address.
    pub semasrv-spec_wait :
        (client : Pid) (msg : SemaMsg) (k : SemaSrv H)
        → (msg.sema == null) ≡ false
        → (client == 0) ≡ false
        → ((memory.take k.heap sizeof_client).0 == null) ≡ false
        → IsFresh (memory.take k.heap sizeof_client).0 k
        → Meets msg.sema
            (spec_wait client (view k msg.sema))
            msg
            k
            (semasrv_pass memory sema_wait client msg k)
    unfolding spec_wait
    semasrv-spec_wait client msg k n c a f = elim (Bool-cases (value_of k msg.sema == 0)) [
      | inl v ↦
          subst (λ r. Meets msg.sema (spec_wait client (view k msg.sema)) msg k r)
            (sym (wait_blocks client msg k n c a v))
            (rw v
              (refl, queued-view msg.sema client k f, λ t o. queued-others msg.sema client t k f o))
      | inr v ↦
          subst (λ r. Meets msg.sema (spec_wait client (view k msg.sema)) msg k r)
            (sym (wait_enters client msg k n v))
            (rw v (
              refl,
              ap (shown k.pids) (update-same k.semas msg.sema _),
              λ t o. ap (shown k.pids) (update-other k.semas msg.sema t _ o),
            ))
    ]

    -- A signal lets the task enter that has waited longest, and is counted if none waits.
    pub semasrv-spec_signal :
        (client : Pid) (msg : SemaMsg) (k : SemaSrv H)
        → (msg.sema == null) ≡ false
        → IsNamed k msg.sema
        → Meets msg.sema
            (spec_signal (view k msg.sema))
            msg
            k
            (semasrv_pass memory sema_signal client msg k)
    unfolding spec_signal
    semasrv-spec_signal client msg k n h = elim (List-cases (queue_of k msg.sema)) [
      | inl e ↦
          subst (Meets msg.sema (spec_signal (view k msg.sema)) msg k)
            (sym (signal_counts client msg k n e))
            (subst
              (λ q.
                Meets msg.sema
                  (spec_signal
                    (shown k.pids (record { value = value_of k msg.sema; client_q = q })))
                  msg k (none, set_value msg.sema (u16 (value_of k msg.sema + 1)) k))
              (sym e)
              (
                refl,
                ap (shown k.pids) (update-same k.semas msg.sema _)
                    ∙ ap
                        (λ q.
                          shown k.pids
                            (record { value = u16 (value_of k msg.sema + 1); client_q = q }))
                        e,
                λ t o. ap (shown k.pids) (update-other k.semas msg.sema t _ o),
              ))
      | inr (c, cs, e) ↦
          let p = h c (subst (λ q. 0 < count c q) (sym e) (counted_mid c [] cs)) in
          subst (Meets msg.sema (spec_signal (view k msg.sema)) msg k)
            (sym (signal_wakes client msg c cs k n p.0 p.1 e))
            (subst
              (λ q.
                Meets msg.sema
                  (spec_signal
                    (shown k.pids (record { value = value_of k msg.sema; client_q = q })))
                  msg k (some (k.pids c, msg), unqueued msg.sema c cs k))
              (sym e)
              (
                refl,
                ap (shown k.pids) (update-same k.semas msg.sema _),
                λ t o. ap (shown k.pids) (update-other k.semas msg.sema t _ o),
              ))
    ]
