-- ===== src/Servers/Pm/Family/Orphans.antt =====
-- servers/pm.c: the children of a task that ends, `pm_removechild` and `pm_makechildorphan` over
-- the queues.
use avros.Base.{
  ℕ, zero, suc, ◌+◌, ◌≤◌, ◌<◌, ◌≡◌, ◌⊎◌, inl, inr, refl, true, false, List, [], ◌∷◌, arith, ◌==◌,
  count, if_elim, Bool-cases, ap, sym, ◌∙◌, subst, ==→eq, count-erase_other, count-erase_same,
}
use avros.Kernel.Calls.{q_forall}
use avros.Queue.{Ptr, null}
use avros.Servers.Pm.State.{
  PmBus, Pm, pm_client, pm_pidof, set_task, is_child, pm_makechildorphan, pm_removechild,
  free_chunks,
}
use avros.Servers.Pm.Exit.{leave}
use avros.Servers.Pm.Family.Kin.{field-set_task, Kin-sys, Kin-trans, free_chunks-Kin}
use avros.Servers.Pm.Family.Invariant.{living, parent_of, other_parent, new_parent, true_ne_false}

module _ {W : Type 0} where
  -- Two tasks of which one is a child of the client and the other is not.
  pub child_ne :
      (x y : Ptr) (k : Pm W) → is_child k x ≡ true → is_child k y ≡ false → (x == y) ≡ false
  child_ne x y k child other = elim (Bool-cases (x == y)) [
    | inl e ↦ absurd (true_ne_false (sym child ∙ ap (is_child k) (==→eq x y e) ∙ other))
    | inr e ↦ e
  ]

  -- The zombies of the list that are children of the client are out of the queue.
  record Removed (xs : List Ptr) (s s' : Pm W) : Type 0 where
    pub tasks : s'.tasks ≡ s.tasks
    pub task_q : s'.task_q ≡ s.task_q
    pub wait_q : s'.wait_q ≡ s.wait_q
    pub others : (x : Ptr) → is_child s x ≡ false → count x s'.zombie_q ≡ count x s.zombie_q
    pub children :
        (x : Ptr) → is_child s x ≡ true → count x s.zombie_q ≤ count x xs → count x s'.zombie_q ≡ 0

  -- The tasks of the list that are children of the client have no parent.
  record Orphaned (xs : List Ptr) (s s' : Pm W) : Type 0 where
    pub task_q : s'.task_q ≡ s.task_q
    pub wait_q : s'.wait_q ≡ s.wait_q
    pub zombie_q : s'.zombie_q ≡ s.zombie_q
    pub pid : (x : Ptr) → (s'.tasks x).pid ≡ (s.tasks x).pid
    pub word : (x : Ptr) → (s'.tasks x).word ≡ (s.tasks x).word
    pub either : (x : Ptr) → (parent_of s' x ≡ null) ⊎ (parent_of s' x ≡ parent_of s x)
    pub others : (x : Ptr) → is_child s x ≡ false → parent_of s' x ≡ parent_of s x
    pub children : (x : Ptr) → is_child s x ≡ true → 0 < count x xs → parent_of s' x ≡ null

  abbrev orphan : Ptr → Pm W → Pm W
  orphan y s = set_task y (record (s.tasks y) { parent = null }) s

  orphaned : (xs : List Ptr) (s : Pm W) → Orphaned xs s (q_forall pm_makechildorphan xs s).1
  unfolding q_forall pm_makechildorphan count
  orphaned [] s = record {
    task_q = refl;
    wait_q = refl;
    zombie_q = refl;
    pid = λ x. refl;
    word = λ x. refl;
    either = λ x. inr refl;
    others = λ x e. refl;
    children = λ x e h. absurd (omega (arith, h));
  }
  orphaned (y ∷ xs) s =
      if_elim (λ s1. Orphaned (y ∷ xs) s (q_forall pm_makechildorphan xs s1).1) (is_child s y) _ _
        (λ child.
          let s1 = orphan y s in
          let rest = orphaned xs s1 in
          record {
            task_q = rest.task_q;
            wait_q = rest.wait_q;
            zombie_q = rest.zombie_q;
            pid = λ x. rest.pid x ∙ field-set_task (λ t. t.pid) y _ s refl x;
            word = λ x. rest.word x ∙ field-set_task (λ t. t.word) y _ s refl x;
            either = λ x. elim (rest.either x) [
              | inl gone ↦ inl gone
              | inr same ↦ elim (Bool-cases (y == x)) [
                | inl e ↦ inl (same ∙ ap (parent_of s1) (sym (==→eq y x e)) ∙ new_parent y _ s)
                | inr e ↦ inr (same ∙ other_parent y x _ s e)
              ]
            ];
            others = λ x e.
                let same = other_parent y x _ s (child_ne y x s child e) in
                rest.others x (ap (λ p. p == pm_client s) same ∙ e) ∙ same;
            children = λ x e h. elim (Bool-cases (y == x)) [
              | inl this ↦
                  let gone = ap (parent_of s1) (sym (==→eq y x this)) ∙ new_parent y _ s in
                  elim (rest.either x) [ inl last ↦ last | inr same ↦ same ∙ gone ]
              | inr differ ↦
                  rest.children x (ap (λ p. p == pm_client s) (other_parent y x _ s differ) ∙ e)
                    (ground arith)
            ];
          })
        λ other.
          let rest = orphaned xs s in
          record {
            task_q = rest.task_q;
            wait_q = rest.wait_q;
            zombie_q = rest.zombie_q;
            pid = rest.pid;
            word = rest.word;
            either = rest.either;
            others = rest.others;
            children = λ x child h.
                let differ = child_ne x y s child other in rest.children x child (ground arith);
          }

  module _ (bus : PmBus W) where
    removed : (xs : List Ptr) (s : Pm W) → Removed xs s (q_forall (pm_removechild bus) xs s).1
    unfolding q_forall pm_removechild count
    removed [] s = record {
      tasks = refl;
      task_q = refl;
      wait_q = refl;
      others = λ x e. refl;
      children = λ x e h. omega (arith, h);
    }
    removed (y ∷ xs) s =
        if_elim (λ s1. Removed (y ∷ xs) s (q_forall (pm_removechild bus) xs s1).1) (is_child s y) _
          _
          (λ child.
            let rest = removed xs _ in
            record {
              tasks = rest.tasks;
              task_q = rest.task_q;
              wait_q = rest.wait_q;
              others = λ x e.
                  rest.others x e ∙ count-erase_other x y s.zombie_q (child_ne y x s child e);
              children = λ x e h. rest.children x e elim (Bool-cases (y == x)) [
                | inl this ↦ rw (==→eq y x this) (ground (arith, count-erase_same x s.zombie_q))
                | inr differ ↦ ground (arith, count-erase_other x y s.zombie_q differ)
              ];
            })
          λ other.
            let rest = removed xs s in
            record {
              tasks = rest.tasks;
              task_q = rest.task_q;
              wait_q = rest.wait_q;
              others = rest.others;
              children = λ x child h.
                  let differ = child_ne x y s child other in rest.children x child (ground arith);
            }

    -- What `leave` does to the queues and the parents.
    pub record Left (k k' : Pm W) : Type 0 where
      pub task_q : k'.task_q ≡ k.task_q
      pub wait_q : k'.wait_q ≡ k.wait_q
      pub pid : (x : Ptr) → (k'.tasks x).pid ≡ (k.tasks x).pid
      pub word : (x : Ptr) → (k'.tasks x).word ≡ (k.tasks x).word
      pub other_zombies :
          (x : Ptr) → is_child k x ≡ false → count x k'.zombie_q ≡ count x k.zombie_q
      pub zombies : (x : Ptr) → is_child k x ≡ true → count x k'.zombie_q ≡ 0
      pub others : (x : Ptr) → is_child k x ≡ false → parent_of k' x ≡ parent_of k x
      pub children : (x : Ptr) → is_child k x ≡ true → 0 < living x k → parent_of k' x ≡ null

    is_child_same :
        (k k' : Pm W) (x : Ptr)
        → k'.task_q ≡ k.task_q
        → parent_of k' x ≡ parent_of k x
        → is_child k' x ≡ is_child k x
    is_child_same k k' x q e = rw (e, q) refl

    some_positive : (a b : ℕ) → 0 < a + b → (0 < a) ⊎ (0 < b)
    some_positive zero b h = inr (omega (arith, h))
    some_positive (suc a) b h = inl (omega arith)

    pub leave-Left : (k : Pm W) → Left k (leave bus k)
    unfolding leave
    leave-Left k =
        let c = pm_client k in
        let k1 = free_chunks bus c k in
        let w2 =
          bus.vfs_deletetask (k1.tasks c).pid
            (bus.deletetask (pm_pidof c k1) (bus.stoptask (pm_pidof c k1) k1.sys)) in
        let k2 = record k1 { sys = w2 } in
        let kin = Kin-trans k k1 k2 (free_chunks-Kin bus c k) (Kin-sys w2 k1) in
        let was = λ (x : Ptr). is_child_same k k2 x kin.task_q (kin.parent x) in
        let k3 = (q_forall (pm_removechild bus) k2.zombie_q k2).1 in
        let r = removed k2.zombie_q k2 in
        let k4 = (q_forall pm_makechildorphan k3.wait_q k3).1 in
        let o = orphaned k3.wait_q k3 in
        let k5 = (q_forall pm_makechildorphan k4.task_q k4).1 in
        let p = orphaned k4.task_q k4 in
        let parent3 = λ (x : Ptr). ap (λ t. (t x).parent) r.tasks ∙ kin.parent x in
        let was3 = λ (x : Ptr). is_child_same k k3 x (r.task_q ∙ kin.task_q) (parent3 x) in
        record {
          task_q = p.task_q ∙ o.task_q ∙ r.task_q ∙ kin.task_q;
          wait_q = p.wait_q ∙ o.wait_q ∙ r.wait_q ∙ kin.wait_q;
          pid = λ x. p.pid x ∙ o.pid x ∙ ap (λ t. (t x).pid) r.tasks ∙ kin.pid x;
          word = λ x. p.word x ∙ o.word x ∙ ap (λ t. (t x).word) r.tasks ∙ kin.word x;
          other_zombies = λ x e.
              ap (count x) (p.zombie_q ∙ o.zombie_q)
              ∙ r.others x (was x ∙ e)
              ∙ ap (count x) kin.zombie_q;
          zombies = λ x e.
              ap (count x) (p.zombie_q ∙ o.zombie_q) ∙ r.children x (was x ∙ e) (omega arith);
          others = λ x e.
              let e3 = was3 x ∙ e in
              let same = o.others x e3 in
              p.others x (is_child_same k3 k4 x o.task_q same ∙ e3) ∙ same ∙ parent3 x;
          children = λ x e h.
              let e3 = was3 x ∙ e in
              let stays : parent_of k4 x ≡ null → parent_of k5 x ≡ null =
                λ gone. elim (p.either x) [ inl last ↦ last | inr same ↦ same ∙ gone ] in
              elim (some_positive (count x k.task_q) (count x k.wait_q) h) [
                | inl here ↦ elim (o.either x) [
                  | inl gone ↦ stays gone
                  | inr same ↦
                      p.children x (is_child_same k3 k4 x o.task_q same ∙ e3)
                        (subst (λ q. 0 < count x q) (sym (o.task_q ∙ r.task_q ∙ kin.task_q)) here)
                ]
                | inr waits ↦ stays (
                    o.children x e3
                      (subst (λ q. 0 < count x q) (sym (r.wait_q ∙ kin.wait_q)) waits))
              ];
        }
