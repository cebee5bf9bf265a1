-- ===== src/Servers/Sema/Balance.antt =====
-- servers/sema.c: what each way through a pass of `semasrv` does to the count of a semaphore.
use avros.Base.{
  update-same, update-other, ℕ, ◌+◌, ◌-◌, ◌<◌, ◌≡◌, refl, arith, ◌∙◌, ap, subst, ◌⊎◌, inl, inr,
  Bool-cases, ==_refl, ==→eq, Bool, true, false, ◌&&◌, Option, none, some, [], ◌==◌, if◌then◌else◌,
  count,
}
use avros.Kernel.State.{Pid, u16}
use avros.Queue.{Ptr, null}
use avros.Servers.Sema.{
  SemaCmd, SemaMsg, sema_wait, sema_signal, SemaSrv, Sema, value_of, queue_of, set_value,
}
use avros.Servers.Sema.Spec.{IsNamed}

abbrev pub is_entry : SemaCmd → Bool
is_entry sema_wait = true
is_entry sema_signal = true
is_entry _ = false

abbrev pub is_signal_cmd : SemaCmd → Bool
is_signal_cmd sema_signal = true
is_signal_cmd _ = false

-- Whether the reply lets a task enter by `s`, and whether the request gives `s` back.
abbrev pub granted : Ptr → Option (Pid × SemaMsg) → ℕ
granted s none = 0
granted s (some (p, m)) = if m.sema == s && is_entry m.cmd then 1 else 0

abbrev pub signals : Ptr → SemaMsg → ℕ
signals s m = if m.sema == s && is_signal_cmd m.cmd then 1 else 0

pub granted_at : (p : Pid) (m : SemaMsg) → is_entry m.cmd ≡ true → granted m.sema (some (p, m)) ≡ 1
granted_at p m e = rw (==_refl m.sema) (rw e refl)

pub granted_not :
    (s : Ptr) (p : Pid) (m : SemaMsg) → is_entry m.cmd ≡ false → granted s (some (p, m)) ≡ 0
granted_not s p m e = ground arith

pub granted_other :
    (s : Ptr) (p : Pid) (m : SemaMsg) → (m.sema == s) ≡ false → granted s (some (p, m)) ≡ 0
granted_other s p m e = rw e refl

pub signals_at : (m : SemaMsg) → is_signal_cmd m.cmd ≡ true → signals m.sema m ≡ 1
signals_at m e = rw (==_refl m.sema) (rw e refl)

pub signals_not : (s : Ptr) (m : SemaMsg) → is_signal_cmd m.cmd ≡ false → signals s m ≡ 0
signals_not s m e = ground arith

pub signals_other : (s : Ptr) (m : SemaMsg) → (m.sema == s) ≡ false → signals s m ≡ 0
signals_other s m e = rw e refl

module _ {H : Type 0} where
  -- No task waits while the count is not zero, and the waiting items have a pid.
  pub record Sound (k : SemaSrv H) (s : Ptr) : Type 0 where
    pub named : IsNamed k s
    pub idle : (value_of k s ≡ 0) ⊎ (queue_of k s ≡ [])

  unfoldable pub Kept : SemaSrv H → Type 0
  Kept k = (t : Ptr) → (t == null) ≡ false → Sound k t

  -- What a pass does to the count of `s`, as long as the count has room for one more.
  abbrev pub Balanced : Ptr → SemaMsg → SemaSrv H → Option (Pid × SemaMsg) × SemaSrv H → Type 0
  Balanced s msg k r =
      (value_of k s + 1 < 65536 → value_of r.1 s + granted s r.0 ≡ value_of k s + signals s msg)
      × Sound r.1 s

  pub unaffected :
      (s : Ptr) (msg : SemaMsg) (k j : SemaSrv H) (r : Option (Pid × SemaMsg))
      → Sound k s
      → j.semas s ≡ k.semas s
      → ((c : Ptr) → 0 < count c (queue_of k s) → j.pids c ≡ k.pids c)
      → granted s r ≡ 0
      → signals s msg ≡ 0
      → Balanced s msg k (r, j)
  unaffected s msg k j r o e p g h = (
    λ b. omega (arith, ap (λ v. v.value) e, g, h),
    record {
      named = λ c i.
          let i' = subst (λ q. 0 < count c q) (ap (λ v. v.client_q) e) i in
          let n = o.named c i' in (n.0, ap (λ x. x == 0) (p c i') ∙ n.1);
      idle = elim o.idle [
        | inl z ↦ inl (ap (λ v. v.value) e ∙ z)
        | inr z ↦ inr (ap (λ v. v.client_q) e ∙ z)
      ];
    },
  )

  pub Sound-by :
      (s : Ptr) (j : SemaSrv H) (v : Sema)
      → j.semas s ≡ v
      → ((c : Ptr) → 0 < count c v.client_q → ((c == null) ≡ false) × ((j.pids c == 0) ≡ false))
      → (v.value ≡ 0) ⊎ (v.client_q ≡ [])
      → Sound j s
  Sound-by s j v e h i = record {
    named = λ c l. h c (subst (λ q. 0 < count c q) (ap (λ v. v.client_q) e) l);
    idle = elim i [
      | inl z ↦ inl (ap (λ v. v.value) e ∙ z)
      | inr z ↦ inr (ap (λ v. v.client_q) e ∙ z)
    ];
  }

  pub changed :
      (s : Ptr) (msg : SemaMsg) (k j : SemaSrv H) (r : Option (Pid × SemaMsg)) (v : Sema)
      → j.semas s ≡ v
      → (value_of k s + 1 < 65536 → v.value + granted s r ≡ value_of k s + signals s msg)
      → ((c : Ptr) → 0 < count c v.client_q → ((c == null) ≡ false) × ((j.pids c == 0) ≡ false))
      → (v.value ≡ 0) ⊎ (v.client_q ≡ [])
      → Balanced s msg k (r, j)
  changed s msg k j r v e n h i =
      (λ b. omega (arith, ap (λ v. v.value) e, n b), Sound-by s j v e h i)

  pub none_named :
      (k : SemaSrv H) (c : Ptr) → 0 < count c [] → ((c == null) ≡ false) × ((k.pids c == 0) ≡ false)
  unfolding count
  none_named k c h = absurd (omega arith)

  pub enters-Balanced :
      (s : Ptr) (client : Pid) (msg : SemaMsg) (k : SemaSrv H)
      → msg.cmd ≡ sema_wait
      → Sound k s
      → (value_of k msg.sema == 0) ≡ false
      → Balanced s msg k (some (client, msg), set_value msg.sema (value_of k msg.sema - 1) k)
  enters-Balanced s client msg k c o v = elim (Bool-cases (msg.sema == s)) [
    | inl e ↦
        subst
          (λ s.
            Sound k s
            → Balanced s msg k (some (client, msg), set_value msg.sema (value_of k msg.sema - 1) k))
          (==→eq _ _ e)
          (λ o.
            changed msg.sema msg k _ (some (client, msg))
              (record { value = value_of k msg.sema - 1; client_q = [] })
              (update-same k.semas msg.sema _
                ∙ ap (λ q. record { value = value_of k msg.sema - 1; client_q = q })
                    (elim o.idle [ inl z ↦ absurd (ground arith) | inr z ↦ z ]))
              (λ b. ground (
                arith,
                granted_at client msg (ap is_entry c),
                signals_not msg.sema msg (ap is_signal_cmd c),
              ))
              (none_named k) (inr refl))
          o
    | inr n ↦
        unaffected s msg k _ (some (client, msg)) o (update-other k.semas msg.sema s _ n)
          (λ c i. refl) (granted_other s client msg n) (signals_other s msg n)
  ]

  pub counts-Balanced :
      (s : Ptr) (msg : SemaMsg) (k : SemaSrv H)
      → msg.cmd ≡ sema_signal
      → Sound k s
      → queue_of k msg.sema ≡ []
      → Balanced s msg k (none, set_value msg.sema (u16 (value_of k msg.sema + 1)) k)
  counts-Balanced s msg k c o q = elim (Bool-cases (msg.sema == s)) [
    | inl e ↦
        subst (λ s. Balanced s msg k (none, set_value msg.sema (u16 (value_of k msg.sema + 1)) k))
          (==→eq _ _ e)
          (changed msg.sema msg k _ none
            (record { value = u16 (value_of k msg.sema + 1); client_q = [] })
            (update-same k.semas msg.sema _
              ∙ ap (λ q. record { value = u16 (value_of k msg.sema + 1); client_q = q }) q)
            (λ b. omega (arith, signals_at msg (ap is_signal_cmd c))) (none_named k) (inr refl))
    | inr n ↦
        unaffected s msg k _ none o (update-other k.semas msg.sema s _ n) (λ c i. refl) refl
          (signals_other s msg n)
  ]
