-- ===== src/Servers/Ts/Tick.antt =====
-- A tick of servers/ts.c on the waiting tasks, against a list of tasks and their remaining ticks.
use avros.Base.{
  ℕ, ◌+◌, ◌≤◌, ◌≡◌, refl, arith, true, false, List, [], ◌∷◌, ◌++◌, append_assoc, append-nil, ◌==◌,
  if◌then◌else◌, update, update-same, update-other, ==_refl, Bool-cases, inl, inr, ap, ap₂, sym,
  ◌∙◌, subst, count, count-append, erase,
}
use avros.Kernel.State.{Pid}
use avros.Kernel.Calls.{q_forall}
use avros.Queue.{Ptr}
use avros.Queue.Chain.{Once, not_counted, ne_sym}
use avros.Servers.Memory.{Memory}
use avros.Servers.Ts.{
  Time, next_char, step_timer, TsSrv, before_int, ts_clock, ts_managedelay, ts_do_tick,
}

-- The tasks whose time is up, and those that go on waiting.
unfoldable pub spec_tick : List (Pid × ℕ) → List Pid × List (Pid × ℕ)
spec_tick [] = ([], [])
spec_tick ((p, d) ∷ ws) =
    let rest = spec_tick ws in
    if before_int d == 0 then (p ∷ rest.0, rest.1) else (rest.0, (p, before_int d) ∷ rest.1)

abbrev pub pairs : (Ptr → Pid) → (Ptr → ℕ) → List Ptr → List (Pid × ℕ)
pairs clients delays [] = []
pairs clients delays (x ∷ xs) = (clients x, delays x) ∷ pairs clients delays xs

pub pairs-append :
    (c : Ptr → Pid) (d : Ptr → ℕ) (xs ys : List Ptr)
    → pairs c d (xs ++ ys) ≡ pairs c d xs ++ pairs c d ys
pairs-append c d [] ys = refl
pairs-append c d (x ∷ xs) ys = ap (λ l. (c x, d x) ∷ l) (pairs-append c d xs ys)

pub pairs-update :
    (c : Ptr → Pid) (d : Ptr → ℕ) (x v : ℕ) (xs : List Ptr)
    → count x xs ≡ 0
    → pairs c (update d x v) xs ≡ pairs c d xs
pairs-update c d x v [] h = refl
pairs-update c d x v (y ∷ ys) h =
    let n = not_counted x y ys h in
    ap₂ (λ e l. (c y, e) ∷ l) (update-other d x y v (ne_sym y x n.0)) (pairs-update c d x v ys n.1)

pub pairs-update_client :
    (c : Ptr → Pid) (d : Ptr → ℕ) (x v : ℕ) (xs : List Ptr)
    → count x xs ≡ 0
    → pairs (update c x v) d xs ≡ pairs c d xs
pairs-update_client c d x v [] h = refl
pairs-update_client c d x v (y ∷ ys) h =
    let n = not_counted x y ys h in
    ap₂ (λ e l. (e, d y) ∷ l) (update-other c x y v (ne_sym y x n.0))
      (pairs-update_client c d x v ys n.1)

erase_mid : (x : Ptr) (xs ys : List Ptr) → count x xs ≡ 0 → erase x (xs ++ x ∷ ys) ≡ xs ++ ys
unfolding erase
erase_mid x [] ys h = rw (==_refl x)
erase_mid x (y ∷ xs) ys h =
    let n = not_counted x y xs h in rw n.0 (ap (λ l. y ∷ l) (erase_mid x xs ys n.1))

module _ {H : Type 0} where
  abbrev pub waits : TsSrv H → List (Pid × ℕ)
  waits k = pairs k.clients k.delays k.ts_wait_q

  module _ (memory : Memory H) where
    -- The state when `x` is due, and when it has to wait on.
    abbrev due : Ptr → List Ptr → TsSrv H → TsSrv H
    due x q k = record k {
      delays = update k.delays x (before_int (k.delays x));
      ts_wait_q = q;
      heap = memory.give k.heap x;
    }

    abbrev left : Ptr → TsSrv H → TsSrv H
    left x k = record k { delays = update k.delays x (before_int (k.delays x)) }

    manage_due :
        (x : Ptr) (sent : List Pid) (k : TsSrv H)
        → (before_int (k.delays x) == 0) ≡ true
        → (ts_managedelay memory x (sent, k)).1
          ≡ (sent ++ k.clients x ∷ [], due x (erase x k.ts_wait_q) k)
    unfolding ts_managedelay
    manage_due x sent k e = rw e refl

    manage_left :
        (x : Ptr) (sent : List Pid) (k : TsSrv H)
        → (before_int (k.delays x) == 0) ≡ false
        → (ts_managedelay memory x (sent, k)).1 ≡ (sent, left x k)
    unfolding ts_managedelay
    manage_left x sent k e = rw e refl

    abbrev Managed :
        List Pid × List (Pid × ℕ) → List Pid → List (Pid × ℕ) → List Pid × TsSrv H → Type 0
    Managed spec sent before r =
        (r.0 ≡ sent ++ spec.0) × (waits r.1 ≡ before ++ spec.1) × Once r.1.ts_wait_q

    abbrev all_of : List Ptr → List Pid × TsSrv H → List Pid × TsSrv H
    all_of xs s = (q_forall (ts_managedelay memory) xs s).1

    all_of-cons :
        (x : Ptr) (xs : List Ptr) (s : List Pid × TsSrv H)
        → all_of (x ∷ xs) s ≡ all_of xs (ts_managedelay memory x s).1
    unfolding q_forall ts_managedelay
    all_of-cons x xs (sent, k) = refl

    spec_due :
        (p d : ℕ) (ws : List (Pid × ℕ))
        → (before_int d == 0) ≡ true
        → spec_tick ((p, d) ∷ ws) ≡ (p ∷ (spec_tick ws).0, (spec_tick ws).1)
    unfolding spec_tick
    spec_due p d ws e = rw e refl

    spec_left :
        (p d : ℕ) (ws : List (Pid × ℕ))
        → (before_int d == 0) ≡ false
        → spec_tick ((p, d) ∷ ws) ≡ ((spec_tick ws).0, (p, before_int d) ∷ (spec_tick ws).1)
    unfolding spec_tick
    spec_left p d ws e = rw e refl

    Once-mid :
        (x : Ptr) (xs ys : List Ptr)
        → Once (xs ++ x ∷ ys)
        → (count x xs ≡ 0) × (count x ys ≡ 0) × Once (xs ++ ys)
    unfolding count
    Once-mid x xs ys o =
        let e = ==_refl x in
        let h : count x xs + (1 + count x ys) ≤ 1 = rw_e (o x) (count-append x xs (x ∷ ys)) in
        (
          omega arith,
          omega arith,
          λ t. omega (arith, o t, count-append t xs ys, count-append t xs (x ∷ ys)),
        )
      where
        rw_e :
            {n : ℕ}
            → n ≤ 1
            → n ≡ count x xs + ((if x == x then 1 else 0) + count x ys)
            → count x xs + (1 + count x ys) ≤ 1
        rw_e h g = let e = ==_refl x in ground arith

    forall-Managed :
        (kept xs : List Ptr) (sent : List Pid) (k : TsSrv H)
        → k.ts_wait_q ≡ kept ++ xs
        → Once (kept ++ xs)
        → Managed
            (spec_tick (pairs k.clients k.delays xs))
            sent
            (pairs k.clients k.delays kept)
            (all_of xs (sent, k))
    unfolding q_forall spec_tick
    forall-Managed kept [] sent k q o = (
      sym (append-nil sent),
      ap (pairs k.clients k.delays) (q ∙ append-nil kept) ∙ sym (append-nil _),
      subst Once (sym q) o,
    )
    forall-Managed kept (x ∷ xs) sent k q o = elim (Bool-cases (before_int (k.delays x) == 0)) [
      | inl e ↦
          let r = all_of xs (sent ++ c x ∷ [], due x (erase x k.ts_wait_q) k) in
          let ih =
            subst (λ l. Managed (spec_tick (pairs c d xs)) (sent ++ c x ∷ []) l r) same_kept
              (subst (λ l. Managed (spec_tick l) (sent ++ c x ∷ []) (pairs c d' kept) r) same_rest
                (forall-Managed kept xs (sent ++ c x ∷ []) (due x (erase x k.ts_wait_q) k)
                  (ap (erase x) q ∙ erase_mid x kept xs m.0) m.2)) in
          subst (Managed (spec_tick ((c x, d x) ∷ pairs c d xs)) sent (pairs c d kept))
            (sym (all_of-cons x xs (sent, k) ∙ ap (all_of xs) (manage_due x sent k e)))
            (subst (λ spec. Managed spec sent (pairs c d kept) r)
              (sym (spec_due (c x) (d x) (pairs c d xs) e))
              (ih.0 ∙ append_assoc sent (c x ∷ []) (spec_tick (pairs c d xs)).0, ih.1, ih.2))
      | inr e ↦
          let r = all_of xs (sent, left x k) in
          let ih =
            subst (λ l. Managed (spec_tick (pairs c d xs)) sent l r) longer
              (subst (λ l. Managed (spec_tick l) sent (pairs c d' (kept ++ x ∷ [])) r) same_rest
                (forall-Managed (kept ++ x ∷ []) xs sent (left x k)
                  (q ∙ sym (append_assoc kept (x ∷ []) xs))
                  (subst Once (sym (append_assoc kept (x ∷ []) xs)) o))) in
          subst (Managed (spec_tick ((c x, d x) ∷ pairs c d xs)) sent (pairs c d kept))
            (sym (all_of-cons x xs (sent, k) ∙ ap (all_of xs) (manage_left x sent k e)))
            (subst (λ spec. Managed spec sent (pairs c d kept) r)
              (sym (spec_left (c x) (d x) (pairs c d xs) e))
              (
                ih.0,
                ih.1
                    ∙ append_assoc (pairs c d kept) ((c x, before_int (d x)) ∷ [])
                        (spec_tick (pairs c d xs)).1,
                ih.2,
              ))
    ]
      where
        c : Ptr → Pid
        c = k.clients

        d : Ptr → ℕ
        d = k.delays

        d' : Ptr → ℕ
        d' = update k.delays x (before_int (k.delays x))

        m : (count x kept ≡ 0) × (count x xs ≡ 0) × Once (kept ++ xs)
        m = Once-mid x kept xs o

        same_rest : pairs c d' xs ≡ pairs c d xs
        same_rest = pairs-update c d x _ xs m.1

        same_kept : pairs c d' kept ≡ pairs c d kept
        same_kept = pairs-update c d x _ kept m.0

        longer : pairs c d' (kept ++ x ∷ []) ≡ pairs c d kept ++ (c x, before_int (d x)) ∷ []
        longer =
            pairs-append c d' kept (x ∷ [])
            ∙ ap₂ (λ l n. l ++ (c x, n) ∷ []) same_kept (update-same d x _)

    clock_form :
        (k : TsSrv H)
        → (u g : Time) × (t : ℕ) × (ts_clock k ≡ record k { uptime = u; globtime = g; ticks = t })
    unfolding ts_clock
    clock_form k = elim (Bool-cases (next_char k.ticks == 30)) [
      | inl e ↦ (step_timer k.uptime, step_timer k.globtime, 0, rw e refl)
      | inr e ↦ (k.uptime, k.globtime, next_char k.ticks, rw e refl)
    ]

    -- If no item is in the queue twice, which stays so, a tick wakes, in their order, the tasks
    -- with one tick left, and takes one from the ticks of all others, whose order it keeps.
    pub ts_do_tick-spec_tick :
        (k : TsSrv H)
        → Once k.ts_wait_q
        → ((ts_do_tick memory k).0 ≡ (spec_tick (waits k)).0)
          × (waits (ts_do_tick memory k).1 ≡ (spec_tick (waits k)).1)
          × Once (ts_do_tick memory k).1.ts_wait_q
    unfolding ts_do_tick
    ts_do_tick-spec_tick k o =
        let (u, g, t, e) = clock_form k in
        subst (λ j. Managed (spec_tick (waits k)) [] [] (all_of j.ts_wait_q ([], j))) (sym e)
          (forall-Managed [] k.ts_wait_q [] (record k { uptime = u; globtime = g; ticks = t }) refl
            o)
