-- ===== src/Servers/Sema/Passes.antt =====
-- servers/sema.c: a pass of `semasrv`, by the command of its message, and the count of a
-- semaphore.
use avros.Base.{
  count_ne, update-same, update-other, ℕ, ◌<◌, ◌≡◌, refl, arith, sym, ap, subst, inl, inr,
  Bool-cases, ==→eq, true, false, none, some, List, [], ◌∷◌, ◌++◌, ◌==◌, update, count, count-end,
  List-cases,
}
use avros.Kernel.State.{Pid}
use avros.Queue.{Ptr, null}
use avros.Queue.Chain.{counted_mid}
use avros.Servers.Memory.{Memory}
use avros.Servers.Sema.{
  sizeof_client, sizeof_sema, SemaCmd, SemaMsg, sema_error, sema_create, sema_delete, sema_wait,
  sema_signal, sema_get, SemaSrv, value_of, queue_of, semasrv_pass, waiter, newsema, first_client,
  increasesema, getvalue,
}
use avros.Servers.Sema.Spec.{
  IsFresh, queued, unqueued, wait_enters, wait_blocks, signal_counts, signal_wakes,
}
use avros.Servers.Sema.Balance.{
  is_entry, is_signal_cmd, granted, granted_at, granted_not, granted_other, signals_at, signals_not,
  signals_other, Sound, Kept, Balanced, unaffected, changed, enters-Balanced, counts-Balanced,
}

module _ {H : Type 0} where
  module _ (memory : Memory H) where
    -- What a pass relies on: the client has a pid, and the heap's blocks are at new addresses.
    pub record Usable (client : Pid) (msg : SemaMsg) (k : SemaSrv H) : Type 0 where
      pub pid : (client == 0) ≡ false
      pub fresh : IsFresh (memory.take k.heap sizeof_client).0 k

    pub named_queued :
        (cli pid : ℕ) (pids : ℕ → ℕ) (q : List Ptr)
        → (cli == null) ≡ false
        → (pid == 0) ≡ false
        → ((c : Ptr) → 0 < count c q → ((c == null) ≡ false) × ((pids c == 0) ≡ false))
        → (c : Ptr) → 0 < count c (q ++ cli ∷ [])
        → ((c == null) ≡ false) × ((update pids cli pid c == 0) ≡ false)
    named_queued cli pid pids q n p h c i = elim (Bool-cases (cli == c)) [
      | inl e ↦ (subst (λ c. (c == null) ≡ false) (==→eq cli c e) n, rw e p)
      | inr o ↦ let t = h c (let f = count-end c cli q in ground arith) in (t.0, rw o t.1)
    ]

    pub blocks-Balanced :
        (s : Ptr) (client : Pid) (msg : SemaMsg) (k : SemaSrv H)
        → msg.cmd ≡ sema_wait
        → Usable client msg k
        → Sound k s
        → ((memory.take k.heap sizeof_client).0 == null) ≡ false
        → (value_of k msg.sema == 0) ≡ true
        → Balanced s msg k (none, queued memory msg.sema client k)
    blocks-Balanced s client msg k c u o a v = elim (Bool-cases (msg.sema == s)) [
      | inl e ↦
          subst (λ s. Sound k s → Balanced s msg k (none, queued memory msg.sema client k))
            (==→eq _ _ e)
            (λ o.
              changed msg.sema msg k _ none
                (record {
                  value = value_of k msg.sema;
                  client_q = queue_of k msg.sema ++ (memory.take k.heap sizeof_client).0 ∷ [];
                })
                (update-same k.semas msg.sema _)
                (λ b. omega (arith, signals_not msg.sema msg (ap is_signal_cmd c)))
                (named_queued _ client k.pids (queue_of k msg.sema) a u.pid o.named)
                (inl (==→eq _ _ v)))
            o
      | inr n ↦
          unaffected s msg k _ none o (update-other k.semas msg.sema s _ n)
            (λ c i. update-other k.pids _ c client (count_ne _ c _ (u.fresh s) i)) refl
            (signals_other s msg n)
    ]

    pub wakes-Balanced :
        (s : Ptr) (client : Pid) (msg : SemaMsg) (c : Ptr) (cs : List Ptr) (k : SemaSrv H)
        → msg.cmd ≡ sema_signal
        → Sound k s
        → queue_of k msg.sema ≡ c ∷ cs
        → Balanced s msg k (some (k.pids c, msg), unqueued memory msg.sema c cs k)
    unfolding count
    wakes-Balanced s client msg c cs k e o q = elim (Bool-cases (msg.sema == s)) [
      | inl m ↦
          subst
            (λ s.
              Sound k s → Balanced s msg k (some (k.pids c, msg), unqueued memory msg.sema c cs k))
            (==→eq _ _ m)
            (λ o.
              changed msg.sema msg k _ (some (k.pids c, msg))
                (record { value = value_of k msg.sema; client_q = cs })
                (update-same k.semas msg.sema _)
                (λ b. omega (
                  arith,
                  signals_at msg (ap is_signal_cmd e),
                  granted_at (k.pids c) msg (ap is_entry e),
                ))
                (λ d i. o.named d (subst (λ l. 0 < count d l) (sym q) (omega arith)))
                (elim o.idle [ inl z ↦ inl z | inr z ↦ absurd (cc) ]))
            o
      | inr n ↦
          unaffected s msg k _ (some (k.pids c, msg)) o (update-other k.semas msg.sema s _ n)
            (λ d i. refl) (granted_other s (k.pids c) msg n) (signals_other s msg n)
    ]

    pub wait_null :
        (client : Pid) (msg : SemaMsg) (k : SemaSrv H)
        → (msg.sema == null) ≡ true
        → semasrv_pass memory sema_wait client msg k ≡ (none, k)
    unfolding semasrv_pass
    wait_null client msg k n = rw n refl

    pub wait_fails :
        (client : Pid) (msg : SemaMsg) (k : SemaSrv H)
        → (msg.sema == null) ≡ false
        → (client == 0) ≡ false
        → ((memory.take k.heap sizeof_client).0 == null) ≡ true
        → (value_of k msg.sema == 0) ≡ true
        → semasrv_pass memory sema_wait client msg k
          ≡ (none, record k { heap = (memory.take k.heap sizeof_client).1 })
    unfolding semasrv_pass
    wait_fails client msg k n c a v = rw (n, v, c, a) refl

    pub signal_null :
        (client : Pid) (msg : SemaMsg) (k : SemaSrv H)
        → (msg.sema == null) ≡ true
        → semasrv_pass memory sema_signal client msg k ≡ (none, k)
    unfolding semasrv_pass waiter first_client increasesema
    signal_null client msg k n = rw n refl

    -- A new semaphore is the only command that may write another count.
    abbrev pub Spared : Ptr → SemaCmd → SemaSrv H → Type 0
    Spared s sema_create k = ((memory.take k.heap sizeof_sema).0 == s) ≡ false
    Spared s _ k = Unit {0}

    pub wait-Balanced :
        (s : Ptr) (client : Pid) (msg : SemaMsg) (k : SemaSrv H)
        → msg.cmd ≡ sema_wait
        → Usable client msg k
        → Sound k s
        → Balanced s msg k (semasrv_pass memory sema_wait client msg k)
    wait-Balanced s client msg k c u o =
        let same =
          λ (j : SemaSrv H) (e : (t : Ptr) → j.semas t ≡ k.semas t)
              (p : (t : Ptr) → j.pids t ≡ k.pids t).
            unaffected s msg k j none o (e s) (λ t i. p t) refl
              (signals_not s msg (ap is_signal_cmd c)) in
        elim (Bool-cases (msg.sema == null)) [
          | inl n ↦
              subst (Balanced s msg k) (sym (wait_null client msg k n))
                (same k (λ t. refl) (λ t. refl))
          | inr n ↦ elim (Bool-cases (value_of k msg.sema == 0)) [
            | inr v ↦
                subst (Balanced s msg k) (sym (wait_enters memory client msg k n v))
                  (enters-Balanced s client msg k c o v)
            | inl v ↦ elim (Bool-cases ((memory.take k.heap sizeof_client).0 == null)) [
              | inl a ↦
                  subst (Balanced s msg k) (sym (wait_fails client msg k n u.pid a v))
                    (same _ (λ t. refl) (λ t. refl))
              | inr a ↦
                  subst (Balanced s msg k) (sym (wait_blocks memory client msg k n u.pid a v))
                    (blocks-Balanced s client msg k c u o a v)
            ]
          ]
        ]

    pub signal-Balanced :
        (s : Ptr) (client : Pid) (msg : SemaMsg) (k : SemaSrv H)
        → msg.cmd ≡ sema_signal
        → (s == null) ≡ false
        → Kept k
        → Balanced s msg k (semasrv_pass memory sema_signal client msg k)
    unfolding Kept
    signal-Balanced s client msg k c z o = elim (Bool-cases (msg.sema == null)) [
      | inl n ↦ subst (Balanced s msg k) (sym (signal_null client msg k n)) (
          unaffected s msg k k none (o s z) refl (λ t i. refl) refl
            (signals_other s msg (ground arith)))
      | inr n ↦ elim (List-cases (queue_of k msg.sema)) [
        | inl e ↦
            subst (Balanced s msg k) (sym (signal_counts memory client msg k n e))
              (counts-Balanced s msg k c (o s z) e)
        | inr (x, cs, e) ↦
            let p =
              (o msg.sema n).named x (subst (λ q. 0 < count x q) (sym e) (counted_mid x [] cs)) in
            subst (Balanced s msg k) (sym (signal_wakes memory client msg x cs k n p.0 p.1 e))
              (wakes-Balanced s client msg x cs k c (o s z) e)
      ]
    ]

    pub create-others :
        (s : Ptr) (client : Pid) (msg : SemaMsg) (k : SemaSrv H)
        → ((memory.take k.heap sizeof_sema).0 == s) ≡ false
        → ((semasrv_pass memory sema_create client msg k).1.semas s ≡ k.semas s)
          × ((c : Ptr) → (semasrv_pass memory sema_create client msg k).1.pids c ≡ k.pids c)
          × (msg.cmd ≡ sema_create → granted s (semasrv_pass memory sema_create client msg k).0 ≡ 0)
    unfolding semasrv_pass newsema
    create-others s client msg k n = (
      ground arith,
      λ c. ground arith,
      λ d.
          granted_not s client (record msg { sema = (newsema memory msg.val k).0 }) (ap is_entry d),
    )

    pub create-new :
        (s : Ptr) (client : Pid) (msg : SemaMsg) (k : SemaSrv H)
        → (s == null) ≡ false
        → ((memory.take k.heap sizeof_sema).0 == s) ≡ true
        → (semasrv_pass memory sema_create client msg k).1.semas s
          ≡ record { value = msg.val; client_q = [] }
    unfolding semasrv_pass newsema
    create-new s client msg k z e = ground arith

    pub delete-others :
        (s : Ptr) (client : Pid) (msg : SemaMsg) (k : SemaSrv H)
        → ((semasrv_pass memory sema_delete client msg k).1.semas s ≡ k.semas s)
          × ((c : Ptr) → (semasrv_pass memory sema_delete client msg k).1.pids c ≡ k.pids c)
          × (msg.cmd ≡ sema_delete → granted s (semasrv_pass memory sema_delete client msg k).0 ≡ 0)
    unfolding semasrv_pass
    delete-others s client msg k = elim (Bool-cases (waiter msg.sema k == 0)) [
      | inl e ↦ rw e (refl, λ c. refl, λ d. granted_not s client msg (ap is_entry d))
      | inr n ↦ rw n (refl, λ c. refl, λ d. refl)
    ]

    pub pass-Balanced :
        (cmd : SemaCmd) (s : Ptr) (client : Pid) (msg : SemaMsg) (k : SemaSrv H)
        → msg.cmd ≡ cmd
        → (s == null) ≡ false
        → Usable client msg k
        → Spared s cmd k
        → Kept k
        → Balanced s msg k (semasrv_pass memory cmd client msg k)
    unfolding Kept
    pass-Balanced sema_wait s client msg k c z u d o = wait-Balanced s client msg k c u (o s z)
    pass-Balanced sema_signal s client msg k c z u d o = signal-Balanced s client msg k c z o
    pass-Balanced sema_create s client msg k c z u d o =
        let f = create-others s client msg k d in
        unaffected s msg k _ _ (o s z) f.0 (λ x i. f.1 x) (f.2 c)
          (signals_not s msg (ap is_signal_cmd c))
    pass-Balanced sema_delete s client msg k c z u d o =
        let f = delete-others s client msg k in
        unaffected s msg k _ _ (o s z) f.0 (λ x i. f.1 x) (f.2 c)
          (signals_not s msg (ap is_signal_cmd c))
    pass-Balanced sema_get s client msg k c z u d o =
        unfold semasrv_pass in
        (unaffected s msg k k (some (client, record msg { val = getvalue msg.sema k })) (o s z) refl
          (λ x i. refl)
          (granted_not s client (record msg { val = getvalue msg.sema k }) (ap is_entry c))
          (signals_not s msg (ap is_signal_cmd c)))
    pass-Balanced sema_error s client msg k c z u d o =
        unfold semasrv_pass in
        (unaffected s msg k k none (o s z) refl (λ x i. refl) refl
          (signals_not s msg (ap is_signal_cmd c)))
