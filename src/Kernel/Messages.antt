-- ===== src/Kernel/Messages.antt =====
-- What a request of kernel/kernel.c (KCALL_SENDREC) leaves behind when a task waits for it, and
-- what a receive does with a request that waits.
use avros.Base.{
  Bool-cases, some_inj, ◌||◌, ◌∙◌, ℕ, ◌+◌, ◌-◌, ◌<◌, ◌≡◌, refl, [], ◌∷◌, ◌++◌, some, arith, ◌==◌,
  true, false, find_first, find_first_passes, inl, inr, ◌⊎◌, ap, subst, sym, erase,
}
use avros.Kernel.State.{
  Pid, KCall, is_send, is_receive, Kernel, context_of, prio_of, receive, is_sendrec, u16,
}
use avros.Kernel.Calls.{meets, memcpy, deliver}
use avros.Kernel.Loop.{call_sendrec, call_receive, sendrec_done, receive_done}
use avros.Kernel.Search.{call_sendrec-cases, call_receive-cases}

pub memcpy-get :
    (to from len : ℕ) (mem : ℕ → ℕ) (i : ℕ)
    → i < len
    → memcpy to from len mem (to + i) ≡ mem (from + i)
unfolding memcpy
memcpy-get to from len mem i h = let e : to + i - to ≡ i = omega arith in ground (arith, e)

one_code : (c : KCall) → is_receive c ≡ true → is_send c || is_sendrec c ≡ true → ⊥
one_code receive r s = cc
one_code _ r s = cc

module _ {H : Type 0} where
  -- `rcvr` holds the message of `sndr` in its buffer, and the pid of the sender.
  pub record Delivered (rcvr sndr : Pid) (k k' : Kernel H) : Type 0 where
    pub copied :
        (i : ℕ)
        → i < (context_of k rcvr).p2
        → k'.mem ((context_of k rcvr).p1 + i) ≡ k.mem ((context_of k sndr).p1 + i)
    pub sender : (context_of k' rcvr).p0 ≡ u16 sndr

  -- `t` has gone from the blocked tasks to the end of its queue.
  abbrev pub Woken : Pid → Kernel H → Kernel H → Type 0
  Woken t k k' = k'.ready (prio_of k t) ≡ k.ready (prio_of k t) ++ t ∷ []

  requested :
      (cur w : Pid) (k : Kernel H)
      → (cur == w) ≡ false
      → let k' = sendrec_done cur (some w, deliver w cur k) in
        Delivered w cur k k'
        × Woken w k k'
        × ((context_of k' cur).code ≡ receive)
        × ((context_of k' cur).p0 ≡ (context_of k cur).p0)
        × (k'.blocked ≡ cur ∷ erase w k.blocked)
  unfolding sendrec_done deliver
  requested cur w k n = (
    record {
      copied =
          λ i h. memcpy-get (context_of k w).p1 (context_of k cur).p1 (context_of k w).p2 k.mem i h;
      sender = ground arith;
    },
    ground arith,
    ground arith,
    ground arith,
    refl,
  )

  abbrev pub Requested : Pid → Pid → Kernel H → Kernel H → Type 0
  Requested cur w k k' =
      Delivered w cur k k'
      × Woken w k k'
      × ((context_of k' cur).code ≡ receive)
      × ((context_of k' cur).p0 ≡ (context_of k cur).p0)
      × (k'.blocked ≡ cur ∷ erase w k.blocked)

  meets_other : (a b : Pid) (k : Kernel H) → meets a b k ≡ true → (b == a) ≡ false
  unfolding meets
  meets_other a b k h = elim (Bool-cases (b == a)) [
    | inl e ↦ absurd (one_code (context_of k a).code (ground arith) (ground arith))
    | inr n ↦ n
  ]

  -- If `w` is the first blocked task that waits for a message of the running task, its request
  -- gives `w` the message and the sender's pid and wakes it, and leaves the sender first among
  -- the blocked tasks, in a receive from the task that it asked.
  pub call_sendrec-Requested :
      (cur w : Pid) (k : Kernel H)
      → find_first (λ t. meets t cur k) k.blocked ≡ some w
      → Requested cur w k (call_sendrec cur k)
  call_sendrec-Requested cur w k h = elim (call_sendrec-cases cur k) [
    | inl (e, q) ↦ absurd (cc)
    | inr (w', e, q) ↦
        let n = meets_other w cur k (find_first_passes (λ t. meets t cur k) k.blocked w h) in
        let same : w' ≡ w = some_inj (sym e ∙ h) in
        subst (Requested cur w k)
          (sym (q ∙ ap (λ v. sendrec_done cur (some v, deliver v cur k)) same))
          (requested cur w k n)
  ]

  abbrev pub Accepted : Pid → Pid → Kernel H → Kernel H → Type 0
  Accepted cur w k k' =
      Delivered cur w k k'
      × (k'.current ≡ k.current)
      × (((is_sendrec (context_of k w).code ≡ true)
            × (k'.blocked ≡ k.blocked)
            × ((context_of k' w).code ≡ receive)
            × ((context_of k' w).p0 ≡ (context_of k w).p0))
          ⊎ ((is_sendrec (context_of k w).code ≡ false)
              × (k'.blocked ≡ erase w k.blocked)
              × Woken w k k'))

  accepted :
      (cur w : Pid) (k : Kernel H)
      → (w == cur) ≡ false
      → Accepted cur w k (receive_done cur (some w, deliver cur w k))
  unfolding receive_done deliver
  accepted cur w k n = (
    record {
      copied = λ i h. ground (
        arith,
        memcpy-get (context_of k cur).p1 (context_of k w).p1 (context_of k cur).p2 k.mem i h,
      );
      sender = ground arith;
    },
    ground arith,
    elim (Bool-cases (is_sendrec (context_of k w).code)) [
      | inl y ↦ inl (y, ground arith, ground arith, ground arith)
      | inr y ↦ inr (y, ground arith, ground arith)
    ],
  )

  -- If `w` is the first blocked task whose message the running task may take, a receive gives
  -- the running task, which goes on, the message and the pid of `w`; if `w` asked for an answer
  -- it stays blocked and waits for it, and otherwise it is woken.
  pub call_receive-Accepted :
      (cur w : Pid) (k : Kernel H)
      → find_first (λ t. meets cur t k) k.blocked ≡ some w
      → Accepted cur w k (call_receive cur k)
  call_receive-Accepted cur w k h = elim (call_receive-cases cur k) [
    | inl (e, q) ↦ absurd (cc)
    | inr (w', e, q) ↦
        let n = meets_other cur w k (find_first_passes (λ t. meets cur t k) k.blocked w h) in
        let same : w' ≡ w = some_inj (sym e ∙ h) in
        subst (Accepted cur w k)
          (sym (q ∙ ap (λ v. receive_done cur (some v, deliver cur v k)) same)) (accepted cur w k n)
  ]
