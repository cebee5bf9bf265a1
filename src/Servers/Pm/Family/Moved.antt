-- ===== src/Servers/Pm/Family/Moved.antt =====
-- servers/pm.c: tasks that change their queue, and a client without children.
use avros.Base.{
  ℕ, ◌<◌, ◌≡◌, inl, inr, refl, Bool, true, false, ◌&&◌, not, some, List, [], ◌∷◌, ◌++◌, arith, ◌==◌,
  count, Bool-cases, Option-cases, ap, sym, ◌∙◌, subst, ==→eq, ==_refl,
}
use avros.Kernel.Calls.{q_forall}
use avros.Queue.{Ptr, null}
use avros.Servers.Pm.State.{Pm, q_first, ptr_of, pm_client, set_task, is_child, first_by}
use avros.Servers.Pm.Family.Kin.{field-set_task}
use avros.Servers.Pm.Family.Invariant.{
  Family, living, places, parent_of, client_known, true_ne_false,
}

pub ne_sym : (a b : Ptr) → (a == b) ≡ false → (b == a) ≡ false
ne_sym a b e = elim (Bool-cases (b == a)) [
  | inl same ↦
      absurd
        (true_ne_false (sym (subst (λ x. (a == x) ≡ true) (sym (==→eq b a same)) (==_refl a)) ∙ e))
  | inr other ↦ other
]

pub not-true : (b : Bool) → not b ≡ true → b ≡ false
not-true true h = sym h
not-true false h = refl

pub first_end :
    (q : List Ptr) (p : Ptr) → 0 < count (q_first q) q → q_first (q ++ p ∷ []) ≡ q_first q
unfolding count
first_end [] p h = absurd (omega arith)
first_end (x ∷ q) p h = refl

pub and_left : (a b : Bool) → (a && b) ≡ true → a ≡ true
and_left true b h = refl
and_left false b h = h

module _ {W : Type 0} where
  -- No task is a child of the client.
  unfoldable pub Childless : Pm W → Type 0
  Childless k = (x : Ptr) → 0 < places x k → is_child k x ≡ false

  -- The items stand in the same queues, but for the two of tasks that have not ended.
  pub record Moved (k k' : Pm W) : Type 0 where
    pub living_same : (x : Ptr) → living x k' ≡ living x k
    pub zombies : (x : Ptr) → count x k'.zombie_q ≡ count x k.zombie_q
    pub parent : (x : Ptr) → parent_of k' x ≡ parent_of k x

  pub Family-Moved : (k k' : Pm W) → Moved k k' → Family k → Family k'
  Family-Moved k k' m f = record {
    apart = λ x. omega (arith, f.apart x, m.living_same x, m.zombies x);
    real = omega (arith, f.real, m.living_same null, m.zombies null);
    parents = λ x h. elim (f.parents x (omega (arith, h, m.living_same x, m.zombies x))) [
      | inl none_left ↦ inl (m.parent x ∙ none_left)
      | inr alive ↦ inr (rw (m.parent x) (omega (arith, alive, m.living_same (parent_of k x))))
    ];
    awaited = λ x h e. f.awaited x (omega (arith, h, m.zombies x)) (sym (m.parent x) ∙ e);
  }

  -- What the client waits for, and its exit code, are no part of the invariant.
  pub Family-word :
      (c : Ptr) (w : ℕ) (k : Pm W)
      → Family k
      → Family (set_task c (record (k.tasks c) { word = w }) k)
  Family-word c w k = Family-Moved k _ (record {
    living_same = λ x. refl;
    zombies = λ x. refl;
    parent = field-set_task (λ t. t.parent) c _ k refl;
  })

  pub Childless-Moved :
      (k k' : Pm W) → Moved k k' → pm_client k' ≡ pm_client k → Childless k → Childless k'
  unfolding Childless
  Childless-Moved k k' m client none_left x h =
      rw (m.parent x, client) (none_left x (omega (arith, h, m.living_same x, m.zombies x)))

  pub client_here : (k : Pm W) → (pm_client k == null) ≡ false → 0 < count (pm_client k) k.task_q
  client_here k real = elim (client_known k) [
    | inl e ↦ absurd (true_ne_false (ap (λ x. x == null) (sym e) ∙ real))
    | inr known ↦ known
  ]

  found_in :
      (callback : Ptr → Pm W → Bool × Pm W) (q : List Ptr) (k : Pm W) (x : Ptr)
      → (q_forall callback q k).0 ≡ some x
      → 0 < count x q
  unfolding q_forall count
  found_in callback [] k x e = absurd (ground arith)
  found_in callback (y ∷ q) k x e = ground (arith, found_in callback q (callback y k).1 x)

  -- What a callback finds in a queue is in it.
  pub first_by_known :
      (callback : Ptr → Pm W → Bool × Pm W) (q : List Ptr) (k : Pm W)
      → (first_by callback q k == null) ≡ false
      → 0 < count (first_by callback q k) q
  first_by_known callback q k real = elim (Option-cases (q_forall callback q k).0) [
    | inl e ↦ absurd (true_ne_false (subst (λ o. (ptr_of o == null) ≡ false) e real))
    | inr (x, e) ↦ rw e (found_in callback q k x e)
  ]
