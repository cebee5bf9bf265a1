-- ===== src/Servers/Pm/Family/Invariant.antt =====
-- servers/pm.c: the invariant of the queues, and how new tasks keep it.
use avros.Base.{
  ℕ, ◌+◌, ◌≤◌, ◌<◌, ◌≡◌, ◌≢◌, ◌⊎◌, inl, inr, refl, true, false, none, List, [], ◌∷◌, ◌++◌, arith,
  ◌==◌, if◌then◌else◌, count, count-end, count-erase, Bool-cases, ap, sym, ◌∙◌, subst, ==→eq,
  ==_refl, find_first, count-find_first, Option-cases,
}
use avros.Kernel.State.{Pid}
use avros.Queue.{Ptr, null}
use avros.Servers.Pm.State.{
  PmTask, Pm, q_first, to_front, ptr_of, pm_client, set_task, pm_findbypid,
}
use avros.Servers.Pm.Family.Kin.{Kin}

pub true_ne_false : true ≢ false
true_ne_false h = cc

module _ {W : Type 0} where
  -- How often an item stands in the queues of tasks that have not ended, and in all queues.
  abbrev pub living : Ptr → Pm W → ℕ
  living x k = count x k.task_q + count x k.wait_q

  abbrev pub places : Ptr → Pm W → ℕ
  places x k = living x k + count x k.zombie_q

  abbrev pub parent_of : Pm W → Ptr → Ptr
  parent_of k x = (k.tasks x).parent

  -- An item is in one queue at most, and none is null; the parent of an item is null or an item
  -- of a task that has not ended; and the parent of a zombie is not null.
  pub record Family (k : Pm W) : Type 0 where
    pub apart : (x : Ptr) → places x k ≤ 1
    pub real : places null k ≡ 0
    pub parents :
        (x : Ptr) → 0 < places x k → (parent_of k x ≡ null) ⊎ (0 < living (parent_of k x) k)
    pub awaited : (x : Ptr) → 0 < count x k.zombie_q → parent_of k x ≢ null

  pub Family-Kin : (k k' : Pm W) → Kin k k' → Family k → Family k'
  Family-Kin k k' kin f =
      let same = λ (x : Ptr). ap (count x) kin.task_q in
      let same_w = λ (x : Ptr). ap (count x) kin.wait_q in
      let same_z = λ (x : Ptr). ap (count x) kin.zombie_q in
      record {
        apart = λ x. omega (arith, f.apart x, same x, same_w x, same_z x);
        real = omega (arith, f.real, same null, same_w null, same_z null);
        parents = λ x h. elim (f.parents x (omega (arith, h, same x, same_w x, same_z x))) [
          | inl none_left ↦ inl (kin.parent x ∙ none_left)
          | inr alive ↦ inr (
              rw (kin.parent x)
                (omega (arith, alive, same (parent_of k x), same_w (parent_of k x))))
        ];
        awaited = λ x h e. f.awaited x (omega (arith, h, same_z x)) (sym (kin.parent x) ∙ e);
      }

  -- The client is null if the queue of tasks is empty, and in it otherwise.
  pub client_known : (k : Pm W) → (pm_client k ≡ null) ⊎ (0 < count (pm_client k) k.task_q)
  unfolding count
  client_known k = first_known k.task_q
    where
      first_known : (q : List Ptr) → (q_first q ≡ null) ⊎ (0 < count (q_first q) q)
      first_known [] = inl refl
      first_known (x ∷ xs) = inr (ground arith)

  pub other_parent :
      (p x : Ptr) (t : PmTask) (k : Pm W)
      → (p == x) ≡ false
      → parent_of (set_task p t k) x ≡ parent_of k x
  other_parent p x t k e = rw (e, parent_of) refl

  pub new_parent : (p : Ptr) (t : PmTask) (k : Pm W) → parent_of (set_task p t k) p ≡ t.parent
  new_parent p t k = ap (λ b. (if b then t else k.tasks p).parent) (==_refl p)

  -- An item that is in some queue is not one that is in none.
  not_unused : (p x : Ptr) (k : Pm W) → places p k ≡ 0 → 0 < places x k → (p == x) ≡ false
  not_unused p x k unused h = elim (Bool-cases (p == x)) [
    | inl e ↦ absurd (omega (arith, h, unused, ap (λ y. places y k) (==→eq p x e)))
    | inr e ↦ e
  ]

  -- A write to an item that is in no queue.
  pub Family-unused :
      (p : Ptr) (t : PmTask) (k : Pm W) → places p k ≡ 0 → Family k → Family (set_task p t k)
  Family-unused p t k unused f = record {
    apart = f.apart;
    real = f.real;
    parents = λ x h.
        let same = other_parent p x t k (not_unused p x k unused h) in
        elim (f.parents x h) [
          | inl none_left ↦ inl (same ∙ none_left)
          | inr alive ↦ inr (subst (λ y. 0 < living y k) (sym same) alive)
        ];
    awaited = λ x h e.
        let same = other_parent p x t k (not_unused p x k unused (omega (arith, h))) in
        f.awaited x h (sym same ∙ e);
  }

  -- A child of the client that was in no queue comes to the end of the queue of tasks.
  pub Family-join :
      (p : Ptr) (k : Pm W)
      → (p == null) ≡ false
      → places p k ≡ 0
      → parent_of k p ≡ pm_client k
      → Family k
      → Family (record k { task_q = k.task_q ++ p ∷ [] })
  Family-join p k real unused child f =
      let ends = λ (x : Ptr). count-end x p k.task_q in
      record {
        apart = λ x. elim (Bool-cases (p == x)) [
          | inl new ↦ ground (arith, ends x, unused, ap (λ y. places y k) (==→eq p x new))
          | inr old ↦ ground (arith, ends x, f.apart x)
        ];
        real = ground (arith, f.real, ends null);
        parents = λ x h. elim (Bool-cases (p == x)) [
          | inl new ↦
              let is_child = ap (parent_of k) (sym (==→eq p x new)) ∙ child in
              elim (client_known k) [
                | inl nobody ↦ inl (is_child ∙ nobody)
                | inr known ↦ inr (
                    subst (λ y. 0 < count y (k.task_q ++ p ∷ []) + count y k.wait_q) (sym is_child)
                      (omega (arith, known, ends (pm_client k))))
              ]
          | inr old ↦ elim (f.parents x (ground (arith, h, ends x))) [
            | inl none_left ↦ inl none_left
            | inr alive ↦ inr (omega (arith, alive, ends (parent_of k x)))
          ]
        ];
        awaited = f.awaited;
      }

  -- An item of the queue of tasks comes to its front.
  pub Family-to_front :
      (p : Ptr) (k : Pm W)
      → 0 < count p k.task_q
      → Family k
      → Family (record k { task_q = to_front p k.task_q })
  unfolding count
  Family-to_front p k here f =
      let real_p : (p == null) ≡ false = p_real in
      let same = λ (x : Ptr). count-erase x p k.task_q here in
      rw real_p (record {
        apart = λ x. omega (arith, f.apart x, same x);
        real = omega (arith, f.real, same null);
        parents = λ x h. elim (f.parents x (omega (arith, h, same x))) [
          | inl none_left ↦ inl none_left
          | inr alive ↦ inr (omega (arith, alive, same (parent_of k x)))
        ];
        awaited = f.awaited;
      })
    where
      p_real : (p == null) ≡ false
      p_real = elim (Bool-cases (p == null)) [
        | inl e ↦
            absurd
              (omega (arith, here, f.real, ap (λ (y : Ptr). count y k.task_q) (==→eq p null e)))
        | inr e ↦ e
      ]

  -- A task that is found is in the queue of tasks.
  pub findbypid_known :
      (pid : Pid) (k : Pm W)
      → (pm_findbypid pid k == null) ≡ false
      → 0 < count (pm_findbypid pid k) k.task_q
  unfolding pm_findbypid
  findbypid_known pid k real =
      let test = λ (p : Ptr). (k.tasks p).pid == pid in
      elim (Option-cases (find_first test k.task_q)) [
        | inl e ↦
            (let bad : (ptr_of none == null) ≡ false =
                subst (λ o. (ptr_of o == null) ≡ false) e real in
              absurd (true_ne_false bad))
        | inr (p, e) ↦ rw e (count-find_first test k.task_q p e)
      ]
