-- ===== src/Servers/Pm/Family/Ends.antt =====
-- servers/pm.c: the end of a task and the wait for it keep the invariant of the queues.
use avros.Base.{
  ◌≤◌, ◌<◌, ◌≡◌, ◌≢◌, inl, inr, refl, false, ◌&&◌, not, Option, [], ◌∷◌, ◌++◌, arith, ◌==◌, erase,
  count, count-end, count-erase, count-erase_le, count-erase_other, if_elim, Bool-cases, ap, sym,
  ◌∙◌, subst, ==→eq,
}
use avros.Kernel.State.{Pid}
use avros.Queue.{Ptr, null}
use avros.Servers.Pm.State.{
  PmMsg, PmBus, Pm, q_first, pm_client, set_task, is_child, first_by, pm_findmyparent,
  pm_findzombie, pm_haschild,
}
use avros.Servers.Pm.Exit.{
  leave, drop_client, waits, wake_parent, become_zombie, tell_parent, do_exit, reap, do_wait,
}
use avros.Servers.Pm.Family.Kin.{field-set_task}
use avros.Servers.Pm.Family.Invariant.{Family, places, parent_of, true_ne_false}
use avros.Servers.Pm.Family.Orphans.{leave-Left}
use avros.Servers.Pm.Family.Moved.{
  ne_sym, not-true, first_end, and_left, Childless, Moved, Family-Moved, Family-word,
  Childless-Moved, client_here, first_by_known,
}

module _ {W : Type 0} where
  module _ (bus : PmBus W) where
    pub leave-Childless : (k : Pm W) → (pm_client k == null) ≡ false → Childless (leave bus k)
    unfolding Childless
    leave-Childless k real x h =
        let left = leave-Left bus k in
        elim (Bool-cases (is_child k x)) [
          | inl child ↦
              let gone = left.children x child (
                omega (
                  arith,
                  h,
                  left.zombies x child,
                  ap (count x) left.task_q,
                  ap (count x) left.wait_q,
                )) in
              rw (gone, left.task_q) (ne_sym (pm_client k) null real)
          | inr other ↦ rw (left.others x other, left.task_q) other
        ]

    pub leave-Family : (k : Pm W) → Family k → Family (leave bus k)
    leave-Family k f =
        let left = leave-Left bus k in
        let same = λ (x : Ptr). ap (count x) left.task_q in
        let same_w = λ (x : Ptr). ap (count x) left.wait_q in
        let fewer : (x : Ptr) → count x (leave bus k).zombie_q ≤ count x k.zombie_q = λ x.
          elim (Bool-cases (is_child k x)) [
            | inl child ↦ omega (arith, left.zombies x child)
            | inr other ↦ omega (arith, left.other_zombies x other)
          ] in
        record {
          apart = λ x. omega (arith, f.apart x, same x, same_w x, fewer x);
          real = omega (arith, f.real, same null, same_w null, fewer null);
          parents = λ x h. elim (Bool-cases (is_child k x)) [
            | inl child ↦
                inl
                  (left.children x child (omega (arith, h, same x, same_w x, left.zombies x child)))
            | inr other ↦ elim (f.parents x (omega (arith, h, same x, same_w x, fewer x))) [
              | inl none_left ↦ inl (left.others x other ∙ none_left)
              | inr alive ↦ inr (
                  rw (left.others x other)
                    (omega (arith, alive, same (parent_of k x), same_w (parent_of k x))))
            ]
          ];
          awaited = λ x h e. elim (Bool-cases (is_child k x)) [
            | inl child ↦ absurd (omega (arith, h, left.zombies x child))
            | inr other ↦ f.awaited x (omega (arith, h, fewer x)) (sym (left.others x other) ∙ e)
          ];
        }

    -- The client, without children, goes.
    drop_client-Family :
        (k : Pm W)
        → 0 < count (pm_client k) k.task_q
        → Childless k
        → Family k
        → Family (drop_client bus k)
    unfolding drop_client Childless
    drop_client-Family k here childless f =
        let c = pm_client k in
        let less = λ (x : Ptr). count-erase_le x c k.task_q in
        record {
          apart = λ x. omega (arith, f.apart x, less x);
          real = omega (arith, f.real, less null);
          parents = λ x h.
              let before : 0 < places x k = omega (arith, h, less x) in
              elim (f.parents x before) [
                | inl none_left ↦ inl none_left
                | inr alive ↦
                    inr
                      let differ = ne_sym (parent_of k x) c (childless x before) in
                        omega (arith, alive, count-erase_other (parent_of k x) c k.task_q differ)
              ];
          awaited = f.awaited;
        }

    -- The parent `p`, not null and in the queue of tasks that wait, comes back.
    wake_parent-Family :
        (p : Ptr) (msg : PmMsg) (k : Pm W)
        → 0 < count p k.wait_q
        → 0 < count (pm_client k) k.task_q
        → Childless k
        → Family k
        → Family (wake_parent bus p msg k).1
    unfolding wake_parent
    wake_parent-Family p msg k waiting here childless f =
        let c = pm_client k in
        let k1 = record k { wait_q = erase p k.wait_q; task_q = k.task_q ++ p ∷ [] } in
        let k2 = set_task c (record (k1.tasks c) { word = msg.w0 }) k1 in
        let client : pm_client k2 ≡ pm_client k = first_end k.task_q p here in
        let moved : Moved k k2 = record {
          living_same =
              λ x. omega (arith, count-end x p k.task_q, count-erase x p k.wait_q waiting);
          zombies = λ x. refl;
          parent = field-set_task (λ t. t.parent) c _ k1 refl;
        } in
        let ends = λ (x : Ptr). count-end x p k.task_q in
        drop_client-Family k2 (rw client (omega (arith, here, ends c)))
          (Childless-Moved k k2 moved client childless) (Family-Moved k k2 moved f)

    become_zombie-Family :
        (msg : PmMsg) (k : Pm W)
        → 0 < count (pm_client k) k.task_q
        → parent_of k (pm_client k) ≢ null
        → Childless k
        → Family k
        → Family (become_zombie bus msg k)
    unfolding become_zombie Childless
    become_zombie-Family msg k here has_parent childless f =
        let c = pm_client k in
        let parent =
          field-set_task (λ t. t.parent) c (record (k.tasks c) { word = msg.w0 }) k refl in
        let less = λ (x : Ptr). count-erase x c k.task_q here in
        let ends = λ (x : Ptr). count-end x c k.zombie_q in
        record {
          apart = λ x. omega (arith, f.apart x, less x, ends x);
          real = omega (arith, f.real, less null, ends null);
          parents = λ x h.
              let before : 0 < places x k = omega (arith, h, less x, ends x) in
              elim (f.parents x before) [
                | inl none_left ↦ inl (parent x ∙ none_left)
                | inr alive ↦ inr (
                    let differ = ne_sym (parent_of k x) c (childless x before) in
                    rw (parent x)
                      (omega (arith, alive, count-erase_other (parent_of k x) c k.task_q differ)))
              ];
          awaited = λ x h e. elim (Bool-cases (c == x)) [
            | inl this ↦ has_parent (ap (parent_of k) (==→eq c x this) ∙ sym (parent x) ∙ e)
            | inr other ↦ f.awaited x (ground (arith, h, ends x)) (sym (parent x) ∙ e)
          ];
        }

    tell_parent-Family :
        (msg : PmMsg) (k : Pm W)
        → 0 < count (pm_client k) k.task_q
        → Childless k
        → Family k
        → Family (tell_parent bus msg k).1
    unfolding tell_parent
    tell_parent-Family msg k here childless f =
        let p = first_by pm_findmyparent k.wait_q k in
        if_elim (λ (m : Option (Pid × PmMsg) × Pm W). Family m.1)
          (parent_of k (pm_client k) == null) _ _ (λ _. drop_client-Family k here childless f)
          λ has_parent.
            if_elim (λ (m : Option (Pid × PmMsg) × Pm W). Family m.1) (waits bus p k) _ _
              (λ awaited.
                let real = not-true (p == null) (and_left (not (p == null)) _ awaited) in
                let waiting = first_by_known pm_findmyparent k.wait_q k real in
                wake_parent-Family p msg k waiting here childless f)
              λ _.
                let has_one = λ (e : parent_of k (pm_client k) ≡ null).
                  true_ne_false (ap (λ x. x == null) (sym e) ∙ has_parent) in
                become_zombie-Family msg k here has_one childless f

    pub exit-Family :
        (msg : PmMsg) (k : Pm W)
        → (pm_client k == null) ≡ false
        → Family k
        → Family (do_exit bus msg k).1
    unfolding do_exit
    exit-Family msg k real f =
        let here =
          subst (λ q. 0 < count (q_first q) q) (sym (leave-Left bus k).task_q)
            (client_here k real) in
        tell_parent-Family msg (leave bus k) here (leave-Childless k real) (leave-Family k f)

    pub wait-Family :
        (msg : PmMsg) (k : Pm W)
        → (pm_client k == null) ≡ false
        → Family k
        → Family (do_wait bus msg k).1
    unfolding do_wait reap
    wait-Family msg k real f =
        let c = pm_client k in
        let k1 = set_task c (record (k.tasks c) { word = msg.w0 }) k in
        let f1 = Family-word c msg.w0 k f in
        let here = client_here k real in
        let z = first_by pm_findzombie k1.zombie_q k1 in
        let less = λ (x : Ptr). count-erase_le x z k.zombie_q in
        if_elim (λ (m : Option PmMsg × Pm W). Family m.1) (not (z == null)) _ _
          (λ _. record {
            apart = λ x. omega (arith, f1.apart x, less x);
            real = omega (arith, f1.real, less null);
            parents = λ x h. f1.parents x (omega (arith, h, less x));
            awaited = λ x h. f1.awaited x (omega (arith, h, less x));
          })
          λ _.
            if_elim (λ (m : Option PmMsg × Pm W). Family m.1)
              ((first_by pm_haschild k1.task_q k1 == null)
                && (first_by pm_haschild k1.wait_q k1 == null))
              _ _ (λ _. f1)
              λ _.
                Family-Moved k1 _
                  (record {
                    living_same =
                        λ x. omega (arith, count-erase x c k.task_q here, count-end x c k.wait_q);
                    zombies = λ x. refl;
                    parent = λ x. refl;
                  })
                  f1
